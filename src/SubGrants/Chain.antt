-- ===== src/SubGrants/Chain.antt =====
-- Spending through a chain of sub-grants (`walk_and_meter` and `commit_meter` of sub_grant.rs).
use grokchain_programs.Base.{
  ℕ, ℤ, Bool, true, false, not, Option, none, some, List, [], ◌∷◌, length, leb, ltb_ℤ,
  saturating_sub, checked_add,
}
use grokchain_programs.Errors.{
  sub_grant_chain_empty, sub_grant_too_deep, sub_grant_revoked, sub_grant_expired,
  sub_grant_cap_exceeded, sub_grant_not_holder, sub_grant_chain_broken, sub_grant_chain_truncated,
}
use grokchain_programs.Events.{Event}
use grokchain_programs.State.{SubGrant}
use grokchain_programs.SubGrants.Issue.{max_sub_depth}
use grokchain_programs.Runtime.Address.{Pubkey, default_pubkey}
use grokchain_programs.Runtime.World.{Account, Result, ok}
use grokchain_programs.Runtime.Check.{◌>>=◌, ◌>>◌, require, require_keys_eq, ok_or}
use grokchain_programs.Runtime.Monad
use grokchain_programs.Runtime.Monad.{Action}

-- `AccountLoaderChain`: a node with its address.
abbrev pub Node : Type 0
Node = Account SubGrant

-- The link of a node to the one before it: the first is the spender's own.
abbrev pub check_link : Option Node → Node → Pubkey → Result (Unit {0})
check_link none node spender = require_keys_eq node.value.agent spender sub_grant_not_holder
check_link (some below) node spender =
    require_keys_eq below.value.parent node.key sub_grant_chain_broken

-- The last node hangs off CORE's grant.
abbrev pub check_top : Node → List Node → Result (Unit {0})
check_top node [] = require_keys_eq node.value.parent default_pubkey sub_grant_chain_truncated
check_top node (above ∷ rest) = ok tt

module _ (spender : Pubkey) (amount : ℕ) (now : ℤ) where
  -- The loop of `walk_and_meter`; `below` is `chain[i - 1]`.
  unfoldable pub walk_from : Option Node → List Node → Result (Unit {0})
  walk_from below [] = ok tt
  walk_from below (node ∷ rest) = do
    require (not node.value.revoked) sub_grant_revoked
    require (ltb_ℤ now node.value.expires_at) sub_grant_expired
    require (leb amount (saturating_sub node.value.cap node.value.spent)) sub_grant_cap_exceeded
    check_link below node spender
    check_top node rest
    walk_from (some node) rest

abbrev pub is_nonempty : List Node → Bool
is_nonempty [] = false
is_nonempty (node ∷ rest) = true

unfoldable pub walk_and_meter : List Node → Pubkey → ℕ → ℤ → Result (Unit {0})
unfolding walk_from
walk_and_meter chain spender amount now = do
  require (is_nonempty chain) sub_grant_chain_empty
  require (leb (length chain) max_sub_depth) sub_grant_too_deep
  walk_from spender amount now none chain

-- The loop of `commit_meter`: every node with the amount added, or the error of the first overflow.
unfoldable pub meter_all : List Node → ℕ → Result (List Node)
meter_all [] amount = ok []
meter_all (node ∷ rest) amount = do
  spent ← ok_or (checked_add node.value.spent amount) sub_grant_cap_exceeded
  metered ← meter_all rest amount
  ok (record node { value = record node.value { spent = spent } } ∷ metered)

abbrev pub log_spent : List Node → ℕ → Action (Unit {0})
log_spent [] amount = Monad.pure tt
log_spent (leaf ∷ rest) amount = Monad.emit (
    Event.sub_grant_spent leaf.value.grok_account leaf.value.agent amount leaf.value.depth
      leaf.value.spent)

-- `commit_meter`: the nodes as they are written back.
unfoldable pub commit_meter : List Node → ℕ → Action (List Node)
unfolding meter_all
commit_meter chain amount =
    Monad.◌>>=◌ (Monad.lift (meter_all chain amount))
      λ metered. Monad.◌>>◌ (log_spent metered amount) (Monad.pure metered)
