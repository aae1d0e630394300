-- ===== src/Pump/Checks.antt =====
-- The checks of policy.rs on the arguments, the accounts and the data of pump.fun's instructions.
use grokchain_programs.Base.{ℕ, Bool, not, ◌||◌, String, List, length, take, leb, ltb, ◌==◌, count}
use grokchain_programs.Errors.{
  zero_amount, pump_account_count_mismatch, pump_empty_data_forbidden, pump_create_name_too_long,
  pump_create_symbol_too_long, pump_create_uri_too_long, pump_mint_must_be_signer,
}
use grokchain_programs.Constants.{
  pump_trade_ix_data_len, pump_create_name_max, pump_create_symbol_max, pump_create_uri_max,
  pump_create_v2_account_count, pump_create_v2_account_count_with_quote, pump_create_v2_ix_data_min,
  pump_create_v2_disc,
}
use grokchain_programs.Policy.Jupiter.{is_empty, bytes_eq}
use grokchain_programs.Runtime.World.{Result}
use grokchain_programs.Runtime.Check.{◌>>◌, require}

unfoldable pub require_pump_account_count : ℕ → ℕ → Result (Unit {0})
require_pump_account_count got expected = require (got == expected) pump_account_count_mismatch

unfoldable pub require_nonempty_pump_data : List ℕ → Result (Unit {0})
require_nonempty_pump_data payload = do
  require (not (is_empty payload)) pump_empty_data_forbidden
  require (length payload == pump_trade_ix_data_len) pump_empty_data_forbidden

unfoldable pub require_pump_buy_amounts : ℕ → ℕ → Result (Unit {0})
require_pump_buy_amounts amount max_sol_cost = do
  require (ltb 0 amount) zero_amount
  require (ltb 0 max_sol_cost) zero_amount

unfoldable pub require_pump_sell_amounts : ℕ → ℕ → Result (Unit {0})
require_pump_sell_amounts amount min_sol_output = require (ltb 0 amount) zero_amount

-- `chars().count()`
unfoldable pub require_pump_create_strings : String → String → String → Result (Unit {0})
require_pump_create_strings name symbol uri = do
  require (leb (count name) pump_create_name_max) pump_create_name_too_long
  require (leb (count symbol) pump_create_symbol_max) pump_create_symbol_too_long
  require (leb (count uri) pump_create_uri_max) pump_create_uri_too_long

unfoldable pub require_pump_create_amounts : ℕ → Result (Unit {0})
require_pump_create_amounts max_sol_cost = require (ltb 0 max_sol_cost) zero_amount

unfoldable pub require_pump_mint_is_signer : Bool → Result (Unit {0})
require_pump_mint_is_signer is_signer = require is_signer pump_mint_must_be_signer

unfoldable pub require_pump_create_account_count : ℕ → Result (Unit {0})
require_pump_create_account_count got =
    require (got == pump_create_v2_account_count || got == pump_create_v2_account_count_with_quote)
      pump_account_count_mismatch

unfoldable pub require_nonempty_pump_create_data : List ℕ → Result (Unit {0})
require_nonempty_pump_create_data payload = do
  require (not (is_empty payload)) pump_empty_data_forbidden
  require (leb pump_create_v2_ix_data_min (length payload)) pump_empty_data_forbidden
  require (bytes_eq (take 8 payload) pump_create_v2_disc) pump_empty_data_forbidden
