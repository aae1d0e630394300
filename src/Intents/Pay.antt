-- ===== src/Intents/Pay.antt =====
-- `pay` (programs/grok_chain_intents/src/instructions/pay.rs).
use grokchain_programs.CoreCpi.{check_grant}
use grokchain_programs.Policy.{require_pay_amount}
use grokchain_programs.Common.{reimburse_sponsor, debit_spend_vault}
use grokchain_programs.Common.Checks.{precheck_sponsor}
use grokchain_programs.Common.Mouth.{Mouth, check_mouth}
use grokchain_programs.Events.{Event}
use grokchain_programs.State.{PayArgs}
use grokchain_programs.Runtime.Address.{Pubkey}
use grokchain_programs.Runtime.World.{Runtime}
use grokchain_programs.Runtime.Monad.{Action, ◌>>◌, lift, emit}

pub record Pay : Type 0 where
  pub mouth : Mouth
  pub open mouth use *
  pub recipient : Pubkey

pub handler : Runtime → Pay → PayArgs → Action (Unit {0})
handler rt ctx args = do
  lift (require_pay_amount args.amount_lamports)
  lift (precheck_sponsor args.sponsor_lamports ctx.paymaster ctx.fee_payer)
  check_grant rt ctx.grok_chain_core_program ctx.grok_account.key ctx.grant.key ctx.agent.key
      ctx.intents_program args.amount_lamports
  debit_spend_vault rt ctx.spend_vault ctx.recipient args.amount_lamports
  reimburse_sponsor rt ctx.grant ctx.paymaster ctx.fee_payer args.sponsor_lamports
  emit (
      Event.paid ctx.spend_vault.key ctx.recipient args.amount_lamports ctx.agent.key ctx.grant.key
        ctx.grant.value.generation)

-- The instruction: Anchor's checks of the accounts, then the handler.
unfoldable pub pay : Runtime → Pay → PayArgs → Action (Unit {0})
unfolding handler
pay rt ctx args = do lift (check_mouth rt ctx.mouth); handler rt ctx args
