-- ===== src/Program/Dispatch.antt =====
-- The dispatch of lib.rs.
use grokchain_programs.Custodians.Sponsor.{
  init_paymaster, fund_paymaster, withdraw_paymaster, set_relayer, pause, unpause,
}
use grokchain_programs.Custodians.Vault.{init_spend_vault, fund_spend_vault, withdraw_spend_vault}
use grokchain_programs.Intents.Call.{call}
use grokchain_programs.Intents.Deploy.{deploy}
use grokchain_programs.Intents.Pay.{pay}
use grokchain_programs.Intents.Swap.{swap}
use grokchain_programs.Merchants.{init, add, remove}
use grokchain_programs.PayToken.{pay_token}
use grokchain_programs.Pump.Trade.{pump_create}
use grokchain_programs.SponsorFee.Burn.{burn_collected_fees}
use grokchain_programs.SponsorFee.Config.{init_sponsor_fee, set_sponsor_fee}
use grokchain_programs.SubGrants.Issue.{issue}
use grokchain_programs.SubGrants.Manage.{revise, revoke}
use grokchain_programs.Subscription.Manage.{create, cancel}
use grokchain_programs.Token.Trade.{token_buy, token_sell}
use grokchain_programs.Trader.Manage.{init_pump_trader, fund_pump_trader}
use grokchain_programs.Trader.Sweep.{withdraw_pump_trader}
use grokchain_programs.Runtime.World.{Runtime}
use grokchain_programs.Runtime.Monad.{Action, pure, ◌>>=◌}
use grokchain_programs.Program.Request.{Request}
use grokchain_programs.Subscription.Pay

-- An instruction that writes an account of the program's own, for its effect on the world.
abbrev pub kept : {A : Type 0} → Action A → Action (Unit {0})
kept m = m >>= λ _. pure tt

-- The dispatch.
unfoldable pub execute : Runtime → Request → Action (Unit {0})
execute rt (Request.init_spend_vault ctx) = kept (init_spend_vault rt ctx)
execute rt (Request.fund_spend_vault ctx lamports) = fund_spend_vault rt ctx lamports
execute rt (Request.withdraw_spend_vault ctx lamports) = withdraw_spend_vault rt ctx lamports
execute rt (Request.init_paymaster ctx relayer) = kept (init_paymaster rt ctx relayer)
execute rt (Request.fund_paymaster ctx lamports) = fund_paymaster rt ctx lamports
execute rt (Request.withdraw_paymaster ctx lamports) = withdraw_paymaster rt ctx lamports
execute rt (Request.set_relayer ctx relayer) = kept (set_relayer rt ctx relayer)
execute rt (Request.pause_paymaster ctx) = kept (pause rt ctx)
execute rt (Request.unpause_paymaster ctx) = kept (unpause rt ctx)
execute rt (Request.pay ctx args) = pay rt ctx args
execute rt (Request.swap ctx args) = swap rt ctx args
execute rt (Request.deploy ctx args) = deploy rt ctx args
execute rt (Request.call ctx args) = call rt ctx args
execute rt (Request.pump_create ctx args) = pump_create rt ctx args
execute rt (Request.issue_sub_grant ctx agent cap expires) = kept (issue rt ctx agent cap expires)
execute rt (Request.revise_sub_grant ctx cap expires) = kept (revise rt ctx cap expires)
execute rt (Request.revoke_sub_grant ctx) = kept (revoke rt ctx)
execute rt (Request.init_sponsor_fee ctx) = kept (init_sponsor_fee rt ctx)
execute rt (Request.set_sponsor_fee ctx fee) = kept (set_sponsor_fee rt ctx fee)
execute rt (Request.burn_collected_fees ctx) = burn_collected_fees rt ctx
execute rt (Request.init_pump_trader ctx) = init_pump_trader rt ctx
execute rt (Request.fund_pump_trader ctx lamports) = fund_pump_trader rt ctx lamports
execute rt (Request.withdraw_pump_trader ctx lamports) = withdraw_pump_trader rt ctx lamports
execute rt (Request.token_buy ctx args) = token_buy rt ctx args
execute rt (Request.token_sell ctx args) = token_sell rt ctx args
execute rt (Request.init_merchant_registry ctx mint) = kept (init rt ctx mint)
execute rt (Request.add_merchant ctx merchant) = kept (add rt ctx merchant)
execute rt (Request.remove_merchant ctx merchant) = kept (remove rt ctx merchant)
execute rt (Request.pay_token ctx args) = pay_token rt ctx args
execute rt (Request.create_subscription ctx args) = kept (create rt ctx args)
execute rt (Request.cancel_subscription ctx) = kept (cancel rt ctx)
execute rt (Request.pay_subscription ctx args) = kept (Pay.pay rt ctx args)
