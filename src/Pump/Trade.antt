-- ===== src/Pump/Trade.antt =====
-- `pump_create`, and the handlers of `buy_v2` and `sell_v2` (`create_handler`, `buy_handler`,
-- `sell_handler` and `PumpTrade` of pump.rs).
use grokchain_programs.Base.{ℕ, true, false, not, List, [], ◌∷◌, length}
use grokchain_programs.Errors.{pump_ata_create_requires_fee_payer}
use grokchain_programs.Constants.{
  pump_program_id, pump_trader_space, pump_buy_v2_account_count, pump_sell_v2_account_count,
  pump_user_index, pump_program_index_buy, pump_program_index_sell, pump_create_user_index,
  pump_create_mint_index, pump_create_program_index,
}
use grokchain_programs.Common.{reimburse_sponsor, require_pump_trader_ready}
use grokchain_programs.Common.Adapter.{check_adapter, fee_payer_key}
use grokchain_programs.Common.Checks.{precheck_sponsor, reject_paymaster_in_remaining}
use grokchain_programs.Common.Mouth.{Mouth}
use grokchain_programs.CoreCpi.{check_grant}
use grokchain_programs.Events.{Event}
use grokchain_programs.Intents.Call.{paymaster_key}
use grokchain_programs.Policy.{
  require_agent_not_fee_payer, require_pump_program, require_pump_user_not_vault,
  require_pump_user_is_trader, require_pump_trader_system_owned, require_pump_trader_prefunded,
  pump_sell_check_grant_amount,
}
use grokchain_programs.Policy.Jupiter.{is_empty}
use grokchain_programs.Pump.Accounts.{
  account_at, validate_pump_pdas, validate_pump_create_pdas, build_pump_ix, build_pump_create_ix,
}
use grokchain_programs.Pump.Checks.{
  require_pump_account_count, require_nonempty_pump_data, require_pump_buy_amounts,
  require_pump_sell_amounts, require_pump_create_strings, require_pump_create_amounts,
  require_pump_mint_is_signer, require_pump_create_account_count, require_nonempty_pump_create_data,
}
use grokchain_programs.Pump.Encoding.{
  encode_pump_buy_v2, encode_pump_sell_v2, encode_pump_create_v2,
}
use grokchain_programs.State.{PumpBuyArgs, PumpSellArgs, PumpCreateArgs}
use grokchain_programs.Subscription.Pay.{derived_trader, trader_signer}
use grokchain_programs.Runtime.Address.{Pubkey}
use grokchain_programs.Runtime.World.{Runtime, AccountInfo, Instruction, Result}
use grokchain_programs.Runtime.Monad.{Action, ◌>>=◌, ◌>>◌, lift, require, gets, emit, invoke_signed}

-- `PumpTrade`, with the remaining accounts.
pub record PumpTrade : Type 0 where
  pub mouth : Mouth
  pub open mouth use *
  pub pump_program : AccountInfo
  pub remaining_accounts : List AccountInfo

-- `trader_pda`
abbrev pub trader_pda : Runtime → PumpTrade → Pubkey
trader_pda rt ctx = (derived_trader rt ctx.grok_account).0

-- The checks of the roles, which come after those of the amounts.
unfoldable pub check_roles : PumpTrade → ℕ → Action (Unit {0})
check_roles ctx sponsor_lamports = do
  lift (precheck_sponsor sponsor_lamports ctx.paymaster ctx.fee_payer)
  lift (require_agent_not_fee_payer ctx.agent.key (fee_payer_key ctx.fee_payer))
  lift (require_pump_program ctx.pump_program.key)

-- The checks of the account in the user's slot.
unfoldable pub check_user : Runtime → PumpTrade → ℕ → Action (Unit {0})
check_user rt ctx index = do
  user ← lift (account_at ctx.remaining_accounts index)
  require_pump_trader_ready rt user.key
  lift (require_pump_user_not_vault user.key ctx.spend_vault.key)
  lift (require_pump_user_is_trader user.key (trader_pda rt ctx))
  owner ← gets (λ w. w.owner user.key)
  lift (require_pump_trader_system_owned owner)

unfoldable pub check_program_slot : PumpTrade → ℕ → Action (Unit {0})
check_program_slot ctx index = do
  a ← lift (account_at ctx.remaining_accounts index)
  lift (require_pump_program a.key)

-- The call of `check_grant` for the amount that the instruction meters.
unfoldable pub meter : Runtime → PumpTrade → ℕ → Action (Unit {0})
meter rt ctx amount =
    check_grant rt ctx.grok_chain_core_program ctx.grok_account.key ctx.grant.key ctx.agent.key
      ctx.intents_program amount

-- The lamports of the trader cover the cost above its rent.
unfoldable pub check_prefunded : Runtime → PumpTrade → ℕ → ℕ → Action (Unit {0})
check_prefunded rt ctx index max_sol_cost = do
  user ← lift (account_at ctx.remaining_accounts index)
  lamports ← gets (λ w. w.lamports user.key)
  lift (require_pump_trader_prefunded lamports max_sol_cost (rt.minimum_balance pump_trader_space))

-- The trader's associated account exists.
unfoldable pub check_ata : PumpTrade → Action (Unit {0})
check_ata ctx = do
  ata ← lift (account_at ctx.remaining_accounts 14)
  bytes ← gets (λ w. w.bytes ata.key)
  require (not (is_empty bytes)) pump_ata_create_requires_fee_payer

-- The instruction, as it is built or refused, is sent with the trader's signature.
unfoldable pub send : Runtime → PumpTrade → Result Instruction → Action (Unit {0})
send rt ctx built = do ix ← lift built; invoke_signed rt ix (trader_signer rt ctx.grok_account ∷ [])

unfoldable pub reimburse : Runtime → PumpTrade → ℕ → Action (Unit {0})
reimburse rt ctx sponsor_lamports =
    reimburse_sponsor rt ctx.grant ctx.paymaster ctx.fee_payer sponsor_lamports

-- `buy_handler`, after Anchor's checks.
unfoldable pub pump_buy : Runtime → PumpTrade → PumpBuyArgs → Action (Unit {0})
pump_buy rt ctx args = do
  let remaining = ctx.remaining_accounts
  let payload = encode_pump_buy_v2 args.amount args.max_sol_cost
  lift (check_adapter rt ctx.mouth ctx.pump_program pump_program_id)
  lift (require_pump_buy_amounts args.amount args.max_sol_cost)
  check_roles ctx args.sponsor_lamports
  lift (require_pump_account_count (length remaining) pump_buy_v2_account_count)
  check_user rt ctx pump_user_index
  check_program_slot ctx pump_program_index_buy
  lift (validate_pump_pdas rt remaining (trader_pda rt ctx) true)
  lift (reject_paymaster_in_remaining remaining (paymaster_key ctx.paymaster))
  meter rt ctx args.max_sol_cost
  check_prefunded rt ctx pump_user_index args.max_sol_cost
  check_ata ctx
  lift (require_nonempty_pump_data payload)
  send rt ctx (build_pump_ix remaining (trader_pda rt ctx) payload)
  reimburse rt ctx args.sponsor_lamports
  mint ← lift (account_at remaining 1)
  emit (
      Event.pump_bought ctx.spend_vault.key (trader_pda rt ctx) mint.key args.amount
        args.max_sol_cost ctx.agent.key ctx.grant.key ctx.grant.value.generation)

-- `sell_handler`, after Anchor's checks.
unfoldable pub pump_sell : Runtime → PumpTrade → PumpSellArgs → Action (Unit {0})
pump_sell rt ctx args = do
  let remaining = ctx.remaining_accounts
  let payload = encode_pump_sell_v2 args.amount args.min_sol_output
  lift (check_adapter rt ctx.mouth ctx.pump_program pump_program_id)
  lift (require_pump_sell_amounts args.amount args.min_sol_output)
  check_roles ctx args.sponsor_lamports
  lift (require_pump_account_count (length remaining) pump_sell_v2_account_count)
  check_user rt ctx pump_user_index
  check_program_slot ctx pump_program_index_sell
  lift (validate_pump_pdas rt remaining (trader_pda rt ctx) false)
  lift (reject_paymaster_in_remaining remaining (paymaster_key ctx.paymaster))
  meter rt ctx pump_sell_check_grant_amount
  lift (require_nonempty_pump_data payload)
  send rt ctx (build_pump_ix remaining (trader_pda rt ctx) payload)
  reimburse rt ctx args.sponsor_lamports
  mint ← lift (account_at remaining 1)
  emit (
      Event.pump_sold ctx.spend_vault.key (trader_pda rt ctx) mint.key args.amount
        args.min_sol_output ctx.agent.key ctx.grant.key ctx.grant.value.generation)

-- `create_handler`, after Anchor's checks.
unfoldable pub pump_create : Runtime → PumpTrade → PumpCreateArgs → Action (Unit {0})
pump_create rt ctx args = do
  let remaining = ctx.remaining_accounts
  let creator = ctx.grok_account.value.root
  let payload =
      encode_pump_create_v2 args.name args.symbol args.uri creator args.is_mayhem_mode
        args.is_cashback_enabled
  lift (check_adapter rt ctx.mouth ctx.pump_program pump_program_id)
  lift (require_pump_create_strings args.name args.symbol args.uri)
  lift (require_pump_create_amounts args.max_sol_cost)
  check_roles ctx args.sponsor_lamports
  lift (require_pump_create_account_count (length remaining))
  check_user rt ctx pump_create_user_index
  mint ← lift (account_at remaining pump_create_mint_index)
  lift (require_pump_mint_is_signer mint.is_signer)
  check_program_slot ctx pump_create_program_index
  lift (validate_pump_create_pdas rt remaining)
  lift (reject_paymaster_in_remaining remaining (paymaster_key ctx.paymaster))
  meter rt ctx args.max_sol_cost
  check_prefunded rt ctx pump_create_user_index args.max_sol_cost
  lift (require_nonempty_pump_create_data payload)
  send rt ctx (build_pump_create_ix remaining (trader_pda rt ctx) payload)
  reimburse rt ctx args.sponsor_lamports
  emit (
      Event.pump_created ctx.spend_vault.key (trader_pda rt ctx) mint.key creator args.max_sol_cost
        args.is_mayhem_mode args.is_cashback_enabled ctx.agent.key ctx.grant.key
        ctx.grant.value.generation)
