-- ===== src/Intents/Call.antt =====
-- `call`, a grant-gated call of another program with empty data (instructions/call.rs).
use grokchain_programs.Base.{
  ltb, ◌==◌, List, [], ◌∷◌, map, length, contains, Option, none, some, if◌then◌else◌,
}
use grokchain_programs.CoreCpi.{check_grant, writable, readonly}
use grokchain_programs.Common.{reimburse_sponsor, debit_spend_vault}
use grokchain_programs.Common.Checks.{precheck_sponsor, reject_protected_remaining}
use grokchain_programs.Common.Mouth.{Mouth, check_mouth}
use grokchain_programs.Events.{Event}
use grokchain_programs.Errors.{call_target_mismatch, target_not_executable}
use grokchain_programs.State.{CallArgs, Paymaster}
use grokchain_programs.Runtime.Address.{Pubkey}
use grokchain_programs.Runtime.World.{Runtime, Account, AccountInfo, AccountMeta}
use grokchain_programs.Runtime.Monad.{
  Action, pure, ◌>>◌, lift, require, require_keys_eq, when, invoke_signed, emit,
}

pub record Call : Type 0 where
  pub mouth : Mouth
  pub open mouth use *
  pub recipient : Pubkey
  pub call_target : AccountInfo
  pub remaining_accounts : List AccountInfo

abbrev pub paymaster_key : Option (Account Paymaster) → Option Pubkey
paymaster_key none = none
paymaster_key (some pm) = some pm.key

-- The accounts handed on: all but the target program, with their own flags.
abbrev pub inner_metas : List AccountInfo → Pubkey → List AccountMeta
inner_metas [] target = []
inner_metas (a ∷ rest) target =
    if a.key == target
    then inner_metas rest target
    else (if a.is_writable then writable a.key a.is_signer else readonly a.key a.is_signer)
      ∷ inner_metas rest target

-- `invoke`, never `invoke_signed`: no derived address signs.
abbrev pub invoke_target : Runtime → List AccountInfo → Pubkey → Action (Unit {0})
invoke_target rt [] target = pure tt
invoke_target rt (a ∷ rest) target = do
  require (contains target (map (λ b. b.key) (a ∷ rest))) call_target_mismatch
  invoke_signed rt
      (record { program_id = target; accounts = inner_metas (a ∷ rest) target; payload = [] }) []

pub handler : Runtime → Call → CallArgs → Action (Unit {0})
handler rt ctx args = do
  require_keys_eq ctx.call_target.key args.target_program call_target_mismatch
  require ctx.call_target.executable target_not_executable
  lift (precheck_sponsor args.sponsor_lamports ctx.paymaster ctx.fee_payer)
  lift (
      reject_protected_remaining ctx.remaining_accounts ctx.spend_vault.key
        (paymaster_key ctx.paymaster))
  check_grant rt ctx.grok_chain_core_program ctx.grok_account.key ctx.grant.key ctx.agent.key
      ctx.intents_program args.amount_lamports
  when (ltb 0 args.amount_lamports)
      (debit_spend_vault rt ctx.spend_vault ctx.recipient args.amount_lamports)
  invoke_target rt ctx.remaining_accounts args.target_program
  reimburse_sponsor rt ctx.grant ctx.paymaster ctx.fee_payer args.sponsor_lamports
  emit (
      Event.called args.target_program ctx.recipient args.amount_lamports
        (length ctx.remaining_accounts) ctx.agent.key ctx.grant.key ctx.grant.value.generation)

-- The instruction: Anchor's checks of the accounts, then the handler.
unfoldable pub call : Runtime → Call → CallArgs → Action (Unit {0})
unfolding handler
call rt ctx args = do lift (check_mouth rt ctx.mouth); handler rt ctx args
