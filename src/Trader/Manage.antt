-- ===== src/Trader/Manage.antt =====
-- Creating and funding the trader (`init` and `fund` of pump_trader.rs).
use grokchain_programs.Base.{ℕ, [], ◌∷◌, ◌&&◌, ltb, ◌==◌}
use grokchain_programs.Errors.{
  zero_amount, pump_trader_already_exists, grok_account_mismatch, unauthorized_root,
}
use grokchain_programs.Constants.{
  intents_id, pump_trader_space, seed_spend_vault, system_program_id,
}
use grokchain_programs.Common.{debit_spend_vault, require_pump_trader_ready}
use grokchain_programs.Common.Mouth.{check_seeds}
use grokchain_programs.Common.Root.{Root, check_root}
use grokchain_programs.Events.{Event}
use grokchain_programs.Policy.Jupiter.{is_empty}
use grokchain_programs.State.{SpendVault}
use grokchain_programs.Subscription.Pay.{derived_trader, trader_signer}
use grokchain_programs.Runtime.Address.{Pubkey, text, address}
use grokchain_programs.Runtime.World.{Runtime, Account, GrokAccount, AnchorError}
use grokchain_programs.Runtime.Check
use grokchain_programs.Runtime.Monad.{Action, ◌>>=◌, ◌>>◌, lift, require, gets, emit, invoke_signed}

-- `InitPumpTrader`.
pub record InitPumpTrader : Type 0 where
  pub signed : Root
  pub open signed use *
  pub pump_trader : Pubkey

-- `FundPumpTrader`.
pub record FundPumpTrader : Type 0 where
  pub signed : Root
  pub open signed use *
  pub spend_vault : Account SpendVault
  pub pump_trader : Pubkey

-- The constraint on the trader: its seeds with a bare `bump`.
abbrev pub check_trader_seeds : Runtime → Account GrokAccount → Pubkey → Action (Unit {0})
check_trader_seeds rt grok_account pump_trader = lift (
    Check.constrain (pump_trader == (derived_trader rt grok_account).0)
      AnchorError.constraint_seeds)

-- `init_pump_trader`: Anchor's checks, then `init`.
unfoldable pub init_pump_trader : Runtime → InitPumpTrader → Action (Unit {0})
init_pump_trader rt ctx = do
  lift (check_root rt ctx.signed)
  check_trader_seeds rt ctx.grok_account ctx.pump_trader
  lamports ← gets (λ w. w.lamports ctx.pump_trader)
  bytes ← gets (λ w. w.bytes ctx.pump_trader)
  require (lamports == 0 && is_empty bytes) pump_trader_already_exists
  invoke_signed rt
      (rt.create_account ctx.root.key ctx.pump_trader (rt.minimum_balance pump_trader_space)
        pump_trader_space system_program_id)
      (trader_signer rt ctx.grok_account ∷ [])
  emit (Event.pump_trader_initialized ctx.pump_trader ctx.grok_account.key ctx.root.key)

unfoldable pub check_fund_pump_trader : Runtime → FundPumpTrader → Action (Unit {0})
check_fund_pump_trader rt ctx = do
  lift (check_root rt ctx.signed)
  lift (
      check_seeds rt ctx.spend_vault.key (text seed_spend_vault ∷ address ctx.grok_account.key ∷ [])
        ctx.spend_vault.value.bump intents_id)
  require (ctx.spend_vault.value.grok_account == ctx.grok_account.key) grok_account_mismatch
  require (ctx.spend_vault.value.root == ctx.root.key) unauthorized_root
  check_trader_seeds rt ctx.grok_account ctx.pump_trader

-- `fund_pump_trader`: Anchor's checks, then `fund`.
unfoldable pub fund_pump_trader : Runtime → FundPumpTrader → ℕ → Action (Unit {0})
fund_pump_trader rt ctx lamports = do
  check_fund_pump_trader rt ctx
  require (ltb 0 lamports) zero_amount
  require_pump_trader_ready rt ctx.pump_trader
  debit_spend_vault rt ctx.spend_vault ctx.pump_trader lamports
  emit (
      Event.pump_trader_funded ctx.pump_trader ctx.spend_vault.key ctx.grok_account.key ctx.root.key
        lamports)
