-- ===== src/Intents/Deploy.antt =====
-- `deploy`, a grant-gated request that moves no SOL of the vault (instructions/deploy.rs).
use grokchain_programs.CoreCpi.{check_grant}
use grokchain_programs.Policy.{deploy_check_grant_amount}
use grokchain_programs.Common.{reimburse_sponsor}
use grokchain_programs.Common.Checks.{precheck_sponsor}
use grokchain_programs.Common.Mouth.{Mouth, check_mouth}
use grokchain_programs.Events.{Event}
use grokchain_programs.State.{DeployArgs}
use grokchain_programs.Runtime.World.{Runtime}
use grokchain_programs.Runtime.Monad.{Action, ◌>>◌, lift, emit}

pub handler : Runtime → Mouth → DeployArgs → Action (Unit {0})
handler rt ctx args = do
  lift (precheck_sponsor args.sponsor_lamports ctx.paymaster ctx.fee_payer)
  check_grant rt ctx.grok_chain_core_program ctx.grok_account.key ctx.grant.key ctx.agent.key
      ctx.intents_program deploy_check_grant_amount
  reimburse_sponsor rt ctx.grant ctx.paymaster ctx.fee_payer args.sponsor_lamports
  emit (
      Event.deploy_requested args.program_id ctx.agent.key ctx.grant.key ctx.grant.value.generation)

-- The instruction: Anchor's checks of the accounts, then the handler.
unfoldable pub deploy : Runtime → Mouth → DeployArgs → Action (Unit {0})
unfolding handler
deploy rt ctx args = do lift (check_mouth rt ctx); handler rt ctx args
