-- ===== src/Errors.antt =====
-- The program's error codes (programs/grok_chain_intents/src/errors.rs).
use grokchain_programs.Base.{ℕ}

-- `enum IntentsError`, in the order of its discriminants.
pub data IntentsError : Type 0 where
  unauthorized_root agent_mismatch zero_pay_amount zero_amount insufficient_spend_vault :
      IntentsError
  insufficient_paymaster paymaster_paused relayer_mismatch not_sponsor_eligible : IntentsError
  sponsor_accounts_required sponsor_cap_exceeded intent_stub grok_account_mismatch : IntentsError
  lamport_overflow invalid_core_program min_out_not_met call_target_mismatch : IntentsError
  target_not_executable protected_account_in_remaining pump_program_mismatch : IntentsError
  pump_account_count_mismatch pump_user_must_be_vault agent_cannot_fee_pay : IntentsError
  pump_empty_data_forbidden pump_ata_create_requires_fee_payer invalid_token_program : IntentsError
  pump_pda_mismatch pump_user_must_be_trader pump_trader_not_system_owned : IntentsError
  pump_trader_already_exists pump_trader_not_initialized pump_mint_must_be_signer : IntentsError
  pump_create_name_too_long pump_create_symbol_too_long pump_create_uri_too_long : IntentsError
  pump_amm_program_mismatch pump_amm_account_count_mismatch pump_amm_pool_invalid : IntentsError
  pump_amm_quote_must_be_wsol pump_amm_fee_recipient_invalid pump_trader_underfunded : IntentsError
  pump_amm_sell_check_grant_amount_must_be_zero pump_amm_sell_account_count_mismatch : IntentsError
  withdraw_remaining_accounts_odd withdraw_token_account_invalid : IntentsError
  withdraw_token_owner_not_trader withdraw_token_mint_mismatch : IntentsError
  withdraw_token_dest_owner_not_root insufficient_pump_trader jupiter_program_mismatch :
      IntentsError
  jupiter_empty_data_forbidden jupiter_in_amount_mismatch jupiter_source_owner_not_trader :
      IntentsError
  jupiter_dest_owner_not_trader token_wrap_mint_must_be_wsol jupiter_overspent : IntentsError
  jupiter_min_out_not_met pay_token_mint_not_registered pay_token_mint_mismatch : IntentsError
  pay_token_source_owner_not_trader pay_token_payee_not_allowed : IntentsError
  pay_token_decimals_mismatch pay_token_insufficient pay_token_account_invalid : IntentsError
  merchant_registry_full merchant_already_listed merchant_not_listed : IntentsError
  subscription_inactive subscription_period_too_short subscription_not_started : IntentsError
  subscription_period_mismatch subscription_already_paid sponsor_fee_too_high : IntentsError
  sponsor_fee_mint_mismatch sponsor_fee_vault_owner_mismatch sponsor_fee_vault_malformed :
      IntentsError
  nothing_to_burn burn_incomplete sub_grant_exceeds_parent sub_grant_outlives_parent : IntentsError
  sub_grant_too_deep sub_grant_not_issuer sub_grant_self_issue sub_grant_parent_revoked :
      IntentsError
  sub_grant_parent_expired sub_grant_expiry_in_past sub_grant_cannot_widen : IntentsError
  sub_grant_cap_below_spent sub_grant_already_revoked sub_grant_revoked sub_grant_expired :
      IntentsError
  sub_grant_cap_exceeded sub_grant_not_holder sub_grant_chain_empty : IntentsError
  sub_grant_chain_broken sub_grant_chain_truncated : IntentsError

-- The discriminant that the source gives each error.
unfoldable pub code : IntentsError → ℕ
code unauthorized_root = 0
code agent_mismatch = 1
code zero_pay_amount = 2
code zero_amount = 3
code insufficient_spend_vault = 4
code insufficient_paymaster = 5
code paymaster_paused = 6
code relayer_mismatch = 7
code not_sponsor_eligible = 8
code sponsor_accounts_required = 9
code sponsor_cap_exceeded = 10
code intent_stub = 11
code grok_account_mismatch = 12
code lamport_overflow = 13
code invalid_core_program = 14
code min_out_not_met = 15
code call_target_mismatch = 16
code target_not_executable = 17
code protected_account_in_remaining = 18
code pump_program_mismatch = 19
code pump_account_count_mismatch = 20
code pump_user_must_be_vault = 21
code agent_cannot_fee_pay = 22
code pump_empty_data_forbidden = 23
code pump_ata_create_requires_fee_payer = 24
code invalid_token_program = 25
code pump_pda_mismatch = 26
code pump_user_must_be_trader = 27
code pump_trader_not_system_owned = 28
code pump_trader_already_exists = 29
code pump_trader_not_initialized = 30
code pump_mint_must_be_signer = 31
code pump_create_name_too_long = 32
code pump_create_symbol_too_long = 33
code pump_create_uri_too_long = 34
code pump_amm_program_mismatch = 35
code pump_amm_account_count_mismatch = 36
code pump_amm_pool_invalid = 37
code pump_amm_quote_must_be_wsol = 38
code pump_amm_fee_recipient_invalid = 39
code pump_trader_underfunded = 40
code pump_amm_sell_check_grant_amount_must_be_zero = 41
code pump_amm_sell_account_count_mismatch = 42
code withdraw_remaining_accounts_odd = 43
code withdraw_token_account_invalid = 44
code withdraw_token_owner_not_trader = 45
code withdraw_token_mint_mismatch = 46
code withdraw_token_dest_owner_not_root = 47
code insufficient_pump_trader = 48
code jupiter_program_mismatch = 49
code jupiter_empty_data_forbidden = 50
code jupiter_in_amount_mismatch = 51
code jupiter_source_owner_not_trader = 52
code jupiter_dest_owner_not_trader = 53
code token_wrap_mint_must_be_wsol = 54
code jupiter_overspent = 55
code jupiter_min_out_not_met = 56
code pay_token_mint_not_registered = 57
code pay_token_mint_mismatch = 58
code pay_token_source_owner_not_trader = 59
code pay_token_payee_not_allowed = 60
code pay_token_decimals_mismatch = 61
code pay_token_insufficient = 62
code pay_token_account_invalid = 63
code merchant_registry_full = 64
code merchant_already_listed = 65
code merchant_not_listed = 66
code subscription_inactive = 67
code subscription_period_too_short = 68
code subscription_not_started = 69
code subscription_period_mismatch = 70
code subscription_already_paid = 71
code sponsor_fee_too_high = 72
code sponsor_fee_mint_mismatch = 73
code sponsor_fee_vault_owner_mismatch = 74
code sponsor_fee_vault_malformed = 75
code nothing_to_burn = 76
code burn_incomplete = 77
code sub_grant_exceeds_parent = 78
code sub_grant_outlives_parent = 79
code sub_grant_too_deep = 80
code sub_grant_not_issuer = 81
code sub_grant_self_issue = 82
code sub_grant_parent_revoked = 83
code sub_grant_parent_expired = 84
code sub_grant_expiry_in_past = 85
code sub_grant_cannot_widen = 86
code sub_grant_cap_below_spent = 87
code sub_grant_already_revoked = 88
code sub_grant_revoked = 89
code sub_grant_expired = 90
code sub_grant_cap_exceeded = 91
code sub_grant_not_holder = 92
code sub_grant_chain_empty = 93
code sub_grant_chain_broken = 94
code sub_grant_chain_truncated = 95
