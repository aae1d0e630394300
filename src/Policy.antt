-- ===== src/Policy.antt =====
-- The checks on amounts and roles that the intents share
-- (programs/grok_chain_intents/src/policy.rs).
pub mod Jupiter
use grokchain_programs.Base.{
  ℕ, Bool, not, none, some, Option, ltb, leb, ◌==◌, checked_add, if◌then◌else◌, ◌||◌,
}
use grokchain_programs.Errors.{
  zero_pay_amount, zero_amount, min_out_not_met, sponsor_cap_exceeded, sponsor_accounts_required,
  agent_cannot_fee_pay, pump_user_must_be_trader, pump_trader_not_system_owned,
  pump_trader_underfunded, lamport_overflow, jupiter_overspent, jupiter_min_out_not_met,
  token_wrap_mint_must_be_wsol, jupiter_program_mismatch, pump_program_mismatch,
}
use grokchain_programs.Constants.{
  max_sponsor_lamports, system_program_id, wsol_mint, jupiter_v6_program_id, pump_program_id,
}
use grokchain_programs.Runtime.Address.{Pubkey}
use grokchain_programs.Runtime.World.{Result, ok}
use grokchain_programs.Runtime.Check.{
  ◌>>=◌, ◌>>◌, require, require_keys_eq, require_keys_neq, ok_or,
}

-- `DEPLOY_CHECK_GRANT_AMOUNT`, `PUMP_SELL_CHECK_GRANT_AMOUNT` and
-- `TOKEN_NON_SOL_CHECK_GRANT_AMOUNT`.
abbrev pub deploy_check_grant_amount : ℕ
deploy_check_grant_amount = 0

abbrev pub pump_sell_check_grant_amount : ℕ
pump_sell_check_grant_amount = 0

abbrev pub token_non_sol_check_grant_amount : ℕ
token_non_sol_check_grant_amount = 0

unfoldable pub require_pay_amount : ℕ → Result (Unit {0})
require_pay_amount amount_lamports = require (ltb 0 amount_lamports) zero_pay_amount

unfoldable pub require_swap_amounts : ℕ → ℕ → Result (Unit {0})
require_swap_amounts amount_in_lamports min_out_lamports = do
  require (ltb 0 amount_in_lamports) zero_amount
  require (leb min_out_lamports amount_in_lamports) min_out_not_met

unfoldable pub require_sponsor_cap : ℕ → Result (Unit {0})
require_sponsor_cap sponsor_lamports =
    if ltb 0 sponsor_lamports
    then require (leb sponsor_lamports max_sponsor_lamports) sponsor_cap_exceeded
    else ok tt

unfoldable pub require_sponsor_accounts : ℕ → Bool → Result (Unit {0})
unfolding require_sponsor_cap
require_sponsor_accounts sponsor_lamports present = do
  require_sponsor_cap sponsor_lamports
  if ltb 0 sponsor_lamports then require present sponsor_accounts_required else ok tt

unfoldable pub require_pump_program : Pubkey → Result (Unit {0})
require_pump_program id = require_keys_eq id pump_program_id pump_program_mismatch

unfoldable pub require_agent_not_fee_payer : Pubkey → Option Pubkey → Result (Unit {0})
require_agent_not_fee_payer agent none = ok tt
require_agent_not_fee_payer agent (some fp) = require (not (agent == fp)) agent_cannot_fee_pay

unfoldable pub require_pump_user_is_trader : Pubkey → Pubkey → Result (Unit {0})
require_pump_user_is_trader user trader = require_keys_eq user trader pump_user_must_be_trader

unfoldable pub require_pump_user_not_vault : Pubkey → Pubkey → Result (Unit {0})
require_pump_user_not_vault user vault = require (not (user == vault)) pump_user_must_be_trader

unfoldable pub require_pump_trader_system_owned : Pubkey → Result (Unit {0})
require_pump_trader_system_owned owner =
    require_keys_eq owner system_program_id pump_trader_not_system_owned

unfoldable pub token_check_grant_amount : Pubkey → Bool → ℕ → ℕ
token_check_grant_amount input_mint wrap_sol in_amount =
    if wrap_sol || input_mint == wsol_mint then in_amount else token_non_sol_check_grant_amount

unfoldable pub require_token_amounts : ℕ → Result (Unit {0})
require_token_amounts in_amount = require (ltb 0 in_amount) zero_amount

unfoldable pub enforce_swap_outcome : ℕ → ℕ → ℕ → ℕ → Result (Unit {0})
enforce_swap_outcome spent received in_amount min_out = do
  require (leb spent in_amount) jupiter_overspent
  require (leb min_out received) jupiter_min_out_not_met

unfoldable pub require_token_mints_distinct : Pubkey → Pubkey → Result (Unit {0})
require_token_mints_distinct input_mint output_mint =
    require (not (input_mint == output_mint)) zero_amount

unfoldable pub require_wrap_mint : Bool → Pubkey → Result (Unit {0})
require_wrap_mint wrap_sol input_mint =
    if wrap_sol then require_keys_eq input_mint wsol_mint token_wrap_mint_must_be_wsol else ok tt

unfoldable pub require_jupiter_program : Pubkey → Result (Unit {0})
require_jupiter_program id = require_keys_eq id jupiter_v6_program_id jupiter_program_mismatch

unfoldable pub require_pump_trader_prefunded : ℕ → ℕ → ℕ → Result (Unit {0})
require_pump_trader_prefunded trader_lamports spendable_quote_in rent0 = do
  need ← ok_or (checked_add spendable_quote_in rent0) lamport_overflow
  require (leb need trader_lamports) pump_trader_underfunded
