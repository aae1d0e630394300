-- ===== src/SubGrants/Tree.antt =====
-- The sub-grants' accounts as they change: by issuing, revising, revoking and spending, in any order.
use grokchain_programs.Base.{ℕ, ◌≡◌, ℤ, Option, none, some, List, [], ◌∷◌, All}
use grokchain_programs.State.{SubGrant}
use grokchain_programs.SubGrants.Chain.{Node, walk_and_meter, meter_all}
use grokchain_programs.SubGrants.Issue.{IssueSubGrant, issue}
use grokchain_programs.SubGrants.Manage.{ManageSubGrant, revise, revoke}
use grokchain_programs.Runtime.Address.{Pubkey}
use grokchain_programs.Runtime.World.{World, Runtime, ok}
use grokchain_programs.Runtime.Monad.{update}

-- The sub-grants by address.
abbrev pub Tree : Type 0
Tree = Pubkey → Option SubGrant

abbrev pub Loaded : Tree → Node → Type 0
Loaded t node = t node.key ≡ some node.value

abbrev pub LoadedParent : Tree → Option Node → Type 0
LoadedParent t none = Unit {0}
LoadedParent t (some parent) = Loaded t parent

abbrev pub store : Tree → Pubkey → SubGrant → Tree
store t k sg = update t k (some sg)

-- The nodes of a chain written back.
abbrev pub store_all : Tree → List Node → Tree
store_all t [] = t
store_all t (node ∷ rest) = store (store_all t rest) node.key node.value

-- What can happen to the accounts: `issue` creates one, the others change those they have loaded.
pub data Step : Tree → Tree → Type 0 where
  issuing :
      (t : Tree) (rt : Runtime) (ctx : IssueSubGrant) (agent : Pubkey) (cap : ℕ) (expires_at : ℤ)
      (w w' : World) (sg : SubGrant)
      → LoadedParent t ctx.parent
      → t ctx.sub_grant ≡ none
      → issue rt ctx agent cap expires_at w ≡ ok (sg, w')
      → Step t (store t ctx.sub_grant sg)
  revising :
      (t : Tree) (rt : Runtime) (ctx : ManageSubGrant) (cap : ℕ) (expires_at : ℤ) (w w' : World)
      (sg : SubGrant)
      → Loaded t ctx.sub_grant
      → revise rt ctx cap expires_at w ≡ ok (sg, w')
      → Step t (store t ctx.sub_grant.key sg)
  revoking :
      (t : Tree) (rt : Runtime) (ctx : ManageSubGrant) (w w' : World) (sg : SubGrant)
      → Loaded t ctx.sub_grant
      → revoke rt ctx w ≡ ok (sg, w')
      → Step t (store t ctx.sub_grant.key sg)
  spending :
      (t : Tree) (chain metered : List Node) (spender : Pubkey) (amount : ℕ) (now : ℤ)
      → All (Loaded t) chain
      → walk_and_meter chain spender amount now ≡ ok tt
      → meter_all chain amount ≡ ok metered
      → Step t (store_all t metered)

pub data Reach : Tree → Tree → Type 0 where
  here : (t : Tree) → Reach t t
  next : (t u v : Tree) → Reach t u → Step u v → Reach t v
