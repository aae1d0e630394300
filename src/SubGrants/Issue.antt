-- ===== src/SubGrants/Issue.antt =====
-- Issuing a sub-grant (`issue` and the account struct `IssueSubGrant` of sub_grant.rs).
use grokchain_programs.Base.{
  ℕ, ◌+◌, ℤ, false, not, Option, none, some, [], ◌∷◌, ltb, leb, ltb_ℤ, leb_ℤ, ◌==◌, saturating_sub,
}
use grokchain_programs.Errors.{
  zero_amount, sub_grant_self_issue, sub_grant_expiry_in_past, sub_grant_parent_revoked,
  sub_grant_parent_expired, sub_grant_not_issuer, sub_grant_too_deep, sub_grant_exceeds_parent,
  sub_grant_outlives_parent, grok_account_mismatch,
}
use grokchain_programs.Constants.{intents_id, seed_sub_grant}
use grokchain_programs.Common.Mouth.{seed_grok_account, seed_grant}
use grokchain_programs.Events.{Event}
use grokchain_programs.State.{SubGrant}
use grokchain_programs.Runtime.Address.{Pubkey, default_pubkey, text, address}
use grokchain_programs.Runtime.World.{
  Runtime, Account, AccountInfo, Grant, GrokAccount, AnchorError, Result, ok,
}
use grokchain_programs.Runtime.Check.{
  ◌>>=◌, ◌>>◌, require, require_keys_eq, require_keys_neq, constrain, check_signer,
}
use grokchain_programs.Runtime.Monad
use grokchain_programs.Runtime.Monad.{Action}

-- `MAX_SUB_DEPTH`.
abbrev pub max_sub_depth : ℕ
max_sub_depth = 3

-- `IssueSubGrant`. `sub_grant` is the address that the instruction creates, `bump` its bump.
pub record IssueSubGrant : Type 0 where
  pub issuer : AccountInfo
  pub payer : AccountInfo
  pub grok_account : Account GrokAccount
  pub grant : Account Grant
  pub parent : Option (Account SubGrant)
  pub sub_grant : Pubkey
  pub bump : ℕ

-- Anchor's checks. A seeds constraint with a bare `bump` derives the address anew.
unfoldable pub check_issue : Runtime → IssueSubGrant → Pubkey → Result (Unit {0})
check_issue rt ctx agent = do
  check_signer ctx.issuer
  check_signer ctx.payer
  let derived =
      rt.find_program_address
        (text seed_sub_grant ∷ address ctx.grok_account.key ∷ address agent ∷ []) intents_id
  constrain (ctx.sub_grant == derived.0) AnchorError.constraint_seeds
  constrain (ctx.bump == derived.1) AnchorError.constraint_seeds
  let grok =
      rt.find_program_address (text seed_grok_account ∷ address ctx.grok_account.value.root ∷ [])
        rt.core_id
  constrain (ctx.grok_account.key == grok.0) AnchorError.constraint_seeds
  let granted =
      rt.find_program_address
        (text seed_grant ∷ address ctx.grok_account.key ∷ address ctx.grant.value.agent ∷ [])
        rt.core_id
  constrain (ctx.grant.key == granted.0) AnchorError.constraint_seeds
  require (ctx.grant.value.grok_account == ctx.grok_account.key) grok_account_mismatch

-- The authority that issues: the tuple that `issue` computes from the parent or from CORE's grant.
pub record Authority : Type 0 where
  pub depth : ℕ
  pub parent_key : Pubkey
  pub headroom : ℕ
  pub parent_expiry : ℤ

unfoldable pub authority : Option (Account SubGrant) → Grant → Pubkey → ℤ → Result Authority
authority (some parent) core issuer now = do
  require_keys_eq parent.value.agent issuer sub_grant_not_issuer
  require (not parent.value.revoked) sub_grant_parent_revoked
  require (ltb_ℤ now parent.value.expires_at) sub_grant_parent_expired
  require (ltb parent.value.depth max_sub_depth) sub_grant_too_deep
  ok (record {
    depth = parent.value.depth + 1;
    parent_key = parent.key;
    headroom = saturating_sub parent.value.cap parent.value.spent;
    parent_expiry = parent.value.expires_at;
  })
authority none core issuer now = do
  require_keys_eq core.agent issuer sub_grant_not_issuer
  ok (record {
    depth = 1;
    parent_key = default_pubkey;
    headroom = saturating_sub core.spend_cap_lamports core.spent_lamports;
    parent_expiry = core.expires_at_unix;
  })

-- The account that `issue` writes, after its checks.
unfoldable pub new_sub_grant : Runtime → IssueSubGrant → Pubkey → ℕ → ℤ → Result SubGrant
unfolding authority
new_sub_grant rt ctx agent cap expires_at_unix = do
  require (ltb 0 cap) zero_amount
  require_keys_neq agent ctx.issuer.key sub_grant_self_issue
  require (ltb_ℤ rt.unix_timestamp expires_at_unix) sub_grant_expiry_in_past
  require (not ctx.grant.value.revoked) sub_grant_parent_revoked
  require (ltb_ℤ rt.unix_timestamp ctx.grant.value.expires_at_unix) sub_grant_parent_expired
  from ← authority ctx.parent ctx.grant.value ctx.issuer.key rt.unix_timestamp
  require (leb cap from.headroom) sub_grant_exceeds_parent
  require (leb_ℤ expires_at_unix from.parent_expiry) sub_grant_outlives_parent
  ok (record {
    grok_account = ctx.grok_account.key;
    parent = from.parent_key;
    issuer = ctx.issuer.key;
    agent = agent;
    cap = cap;
    spent = 0;
    expires_at = expires_at_unix;
    revoked = false;
    depth = from.depth;
    generation = 1;
    bump = ctx.bump;
  })

abbrev pub issued_event : SubGrant → Event
issued_event sg =
    Event.sub_grant_issued sg.grok_account sg.parent sg.issuer sg.agent sg.cap sg.expires_at
      sg.depth sg.generation

-- `issue_sub_grant`: Anchor's checks, then `issue`, which returns the account that it writes.
unfoldable pub issue : Runtime → IssueSubGrant → Pubkey → ℕ → ℤ → Action SubGrant
issue rt ctx agent cap expires_at_unix =
    Monad.◌>>=◌
      (Monad.lift (check_issue rt ctx agent >> new_sub_grant rt ctx agent cap expires_at_unix))
      λ sg. Monad.◌>>◌ (Monad.emit (issued_event sg)) (Monad.pure sg)
