-- ===== src/Examples/Trading.antt =====
-- Funding the trader and withdrawing from it, on the market.
use grokchain_programs.Base.{◌≡◌, refl, [], ◌∷◌, arith, ◌==◌, ◌||◌, if◌then◌else◌}
use grokchain_programs.Common.{debit_spend_vault, require_pump_trader_ready}
use grokchain_programs.Common.Mouth.{check_grok_account}
use grokchain_programs.Common.Root.{Root, check_root, IsRoot}
use grokchain_programs.Constants.{token_program_id, token_2022_program_id, wsol_mint}
use grokchain_programs.Custodians.Laws.{TakesOut}
use grokchain_programs.Custody.{try_debit_program_owned}
use grokchain_programs.Events.{Event}
use grokchain_programs.Examples.Billing.{token_account, trader}
use grokchain_programs.Examples.Chain.{grok, signer, vault, world_after}
use grokchain_programs.Examples.Market.{market, market_world, account}
use grokchain_programs.State.{spend_vault_space}
use grokchain_programs.Subscription.TokenAccount.{fields_of}
use grokchain_programs.Trader.Funding.{
  fund_pump_trader-TakesOut, fund-withdraw_completes, withdrawal_of,
}
use grokchain_programs.Trader.Manage.{FundPumpTrader, check_fund_pump_trader, fund_pump_trader}
use grokchain_programs.Trader.Sweep.{
  WithdrawPumpTrader, swept_account_fields, sweep_token_pair, sweep_pairs, withdraw_lamports,
  check_withdraw_pump_trader, withdraw_pump_trader,
}
use grokchain_programs.Trader.Withdrawal.{IsWithdrawn, withdraw_pump_trader-IsWithdrawn}
use grokchain_programs.Runtime.World.{World, ok}

abbrev root : Root
root = record { root = signer 10; grok_account = grok }

abbrev funding : FundPumpTrader
funding = record { signed = root; spend_vault = vault; pump_trader = trader }

abbrev after_fund : World
after_fund = world_after (fund_pump_trader market funding 3_000_000 market_world)

fund_succeeds : fund_pump_trader market funding 3_000_000 market_world ≡ ok (tt, after_fund)
unfolding fund_pump_trader check_fund_pump_trader check_root check_grok_account
    require_pump_trader_ready debit_spend_vault try_debit_program_owned
fund_succeeds = refl

fund_pump_trader-TakesOut_example :
    IsRoot root
    × TakesOut vault.key trader 3_000_000
        (market.minimum_balance spend_vault_space)
        50
        market_world
        after_fund
fund_pump_trader-TakesOut_example =
    fund_pump_trader-TakesOut market funding 3_000_000 50 market_world after_fund (omega arith)
      (omega arith) (omega arith) fund_succeeds

fund-withdraw_completes_example :
    withdraw_pump_trader market (withdrawal_of funding) 3_000_000 after_fund
    ≡ ok (
      tt,
      record after_fund {
        log = Event.pump_trader_withdrawn trader grok.key 10 3_000_000 ∷ after_fund.log;
      },
    )
fund-withdraw_completes_example =
    fund-withdraw_completes market funding 3_000_000 market_world after_fund after_fund
      (omega arith) fund_succeeds refl

-- The trader's wrapped SOL is in account 90, the root's in account 93.
abbrev sweep_world : World
sweep_world = record market_world {
  owner = λ k. if k == 90 || k == 93 then token_program_id else 0;
  bytes = λ k.
      if k == 90
      then token_account wsol_mint trader 5_000
      else if k == 93
      then token_account wsol_mint 10 0
      else [];
}

abbrev withdrawal : WithdrawPumpTrader
withdrawal = record {
  signed = root;
  pump_trader = trader;
  token_program = token_program_id;
  token_2022_program = token_2022_program_id;
  remaining_accounts = account 90 ∷ account 93 ∷ [];
}

abbrev after_withdraw : World
after_withdraw = world_after (withdraw_pump_trader market withdrawal 1_000_000 sweep_world)

withdraw_succeeds :
    withdraw_pump_trader market withdrawal 1_000_000 sweep_world ≡ ok (tt, after_withdraw)
unfolding withdraw_pump_trader check_withdraw_pump_trader check_root check_grok_account
    require_pump_trader_ready withdraw_lamports sweep_pairs sweep_token_pair swept_account_fields
    fields_of
withdraw_succeeds = refl

withdraw_pump_trader-IsWithdrawn_example :
    IsWithdrawn market withdrawal 1_000_000 sweep_world after_withdraw
withdraw_pump_trader-IsWithdrawn_example =
    withdraw_pump_trader-IsWithdrawn market withdrawal 1_000_000 sweep_world after_withdraw
      withdraw_succeeds
