-- ===== src/SubGrants/Manage.antt =====
-- Narrowing and revoking (`revise`, `revoke` and `ManageSubGrant` of sub_grant.rs).
use grokchain_programs.Base.{ℕ, ℤ, true, not, ◌||◌, [], ◌∷◌, leb, leb_ℤ, ◌==◌, saturating_add_u32}
use grokchain_programs.Errors.{
  sub_grant_cannot_widen, sub_grant_cap_below_spent, sub_grant_already_revoked,
  grok_account_mismatch, sub_grant_not_issuer,
}
use grokchain_programs.Constants.{intents_id, seed_sub_grant}
use grokchain_programs.Common.Mouth.{seed_grok_account, check_seeds}
use grokchain_programs.Events.{Event}
use grokchain_programs.State.{SubGrant}
use grokchain_programs.Runtime.Address.{text, address}
use grokchain_programs.Runtime.World.{Runtime, Account, AccountInfo, GrokAccount, AnchorError}
use grokchain_programs.Runtime.Check
use grokchain_programs.Runtime.Check.{constrain}
use grokchain_programs.Runtime.Monad.{Action, ◌>>◌, lift, require, emit, pure}

-- `ManageSubGrant`.
pub record ManageSubGrant : Type 0 where
  pub authority : AccountInfo
  pub grok_account : Account GrokAccount
  pub sub_grant : Account SubGrant

-- Anchor's checks: the authority is the issuer or the root, and it signs.
unfoldable pub check_manage : Runtime → ManageSubGrant → Action (Unit {0})
check_manage rt ctx = do
  lift (Check.check_signer ctx.authority)
  let grok =
      rt.find_program_address (text seed_grok_account ∷ address ctx.grok_account.value.root ∷ [])
        rt.core_id
  lift (constrain (ctx.grok_account.key == grok.0) AnchorError.constraint_seeds)
  lift (
      check_seeds rt ctx.sub_grant.key
        (text seed_sub_grant
          ∷ address ctx.grok_account.key
          ∷ address ctx.sub_grant.value.agent
          ∷ [])
        ctx.sub_grant.value.bump intents_id)
  require (ctx.sub_grant.value.grok_account == ctx.grok_account.key) grok_account_mismatch
  require
      (ctx.sub_grant.value.issuer == ctx.authority.key
        || ctx.grok_account.value.root == ctx.authority.key)
      sub_grant_not_issuer

-- `revise_sub_grant`.
unfoldable pub revise : Runtime → ManageSubGrant → ℕ → ℤ → Action SubGrant
unfolding check_manage
revise rt ctx cap expires_at_unix = do
  check_manage rt ctx
  let sg = ctx.sub_grant.value
  require (leb cap sg.cap) sub_grant_cannot_widen
  require (leb sg.spent cap) sub_grant_cap_below_spent
  require (leb_ℤ expires_at_unix sg.expires_at) sub_grant_cannot_widen
  emit (Event.sub_grant_revised sg.grok_account sg.agent cap expires_at_unix sg.spent)
  pure (record sg { cap = cap; expires_at = expires_at_unix })

-- `revoke_sub_grant`.
unfoldable pub revoke : Runtime → ManageSubGrant → Action SubGrant
unfolding check_manage
revoke rt ctx = do
  check_manage rt ctx
  let sg = ctx.sub_grant.value
  require (not sg.revoked) sub_grant_already_revoked
  let generation = saturating_add_u32 sg.generation 1
  emit (Event.sub_grant_revoked sg.grok_account sg.agent sg.spent sg.depth generation)
  pure (record sg { revoked = true; generation = generation })
