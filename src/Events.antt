-- ===== src/Events.antt =====
-- The events that the instructions log (programs/grok_chain_intents/src/events.rs).
use grokchain_programs.Base.{ℕ, ℤ, Bool, Option}
use grokchain_programs.Runtime.Address.{Pubkey}

-- One constructor for each `#[event]` struct, with its fields in order.
pub data Event : Type 0 where
  spend_vault_initialized : (spend_vault grok_account root : Pubkey) → Event
  spend_vault_funded : (spend_vault grok_account root : Pubkey) (lamports : ℕ) → Event
  spend_vault_withdrawn : (spend_vault grok_account root : Pubkey) (lamports : ℕ) → Event
  paymaster_initialized : (paymaster grok_account root relayer : Pubkey) → Event
  paymaster_funded : (paymaster grok_account root : Pubkey) (lamports : ℕ) → Event
  paymaster_withdrawn : (paymaster grok_account root : Pubkey) (lamports : ℕ) → Event
  relayer_set : (paymaster grok_account root relayer : Pubkey) → Event
  paymaster_paused : (paymaster grok_account root : Pubkey) → Event
  paymaster_unpaused : (paymaster grok_account root : Pubkey) → Event
  paid :
      (vault recipient : Pubkey) (amount_lamports : ℕ) (agent grant : Pubkey) (generation : ℕ)
      → Event
  sponsored :
      (paymaster relayer : Pubkey) (sponsor_lamports : ℕ) (grant : Pubkey) (generation : ℕ) → Event
  swapped :
      (vault destination : Pubkey) (amount_in_lamports min_out_lamports : ℕ) (agent grant : Pubkey)
      (generation : ℕ)
      → Event
  deploy_requested : (program_id agent grant : Pubkey) (generation : ℕ) → Event
  called :
      (target_program recipient : Pubkey) (amount_lamports remaining_len : ℕ) (agent grant : Pubkey)
      (generation : ℕ)
      → Event
  pump_trader_initialized : (pump_trader grok_account root : Pubkey) → Event
  pump_trader_funded : (pump_trader spend_vault grok_account root : Pubkey) (lamports : ℕ) → Event
  pump_bought :
      (vault trader mint : Pubkey) (amount max_sol_cost : ℕ) (agent grant : Pubkey) (generation : ℕ)
      → Event
  pump_sold :
      (vault trader mint : Pubkey) (amount min_sol_output : ℕ) (agent grant : Pubkey)
      (generation : ℕ)
      → Event
  pump_created :
      (vault trader mint creator : Pubkey) (max_sol_cost : ℕ)
      (is_mayhem_mode is_cashback_enabled : Bool) (agent grant : Pubkey) (generation : ℕ)
      → Event
  pump_amm_bought :
      (vault trader mint pool : Pubkey) (spendable_quote_in min_base_amount_out max_sol_cost : ℕ)
      (agent grant : Pubkey) (generation : ℕ)
      → Event
  pump_amm_sold :
      (vault trader mint pool : Pubkey) (base_amount_in min_quote_amount_out : ℕ)
      (agent grant : Pubkey) (generation : ℕ)
      → Event
  pump_trader_withdrawn : (pump_trader grok_account root : Pubkey) (lamports : ℕ) → Event
  token_bought :
      (vault trader input_mint output_mint : Pubkey) (in_amount min_out spent received : ℕ)
      (agent grant : Pubkey) (generation : ℕ)
      → Event
  token_sold :
      (vault trader input_mint output_mint : Pubkey) (in_amount min_out spent received : ℕ)
      (agent grant : Pubkey) (generation : ℕ)
      → Event
  token_paid :
      (trader mint destination payee : Pubkey) (amount decimals : ℕ) (reference : Option Pubkey)
      (agent grant : Pubkey) (generation : ℕ)
      → Event
  merchant_registry_initialized : (merchant_registry grok_account root mint : Pubkey) → Event
  merchant_added : (merchant_registry grok_account root merchant : Pubkey) (count : ℕ) → Event
  merchant_removed : (merchant_registry grok_account root merchant : Pubkey) (count : ℕ) → Event
  subscription_created :
      (subscription grok_account root merchant mint : Pubkey) (amount : ℕ)
      (period_seconds start_unix : ℤ)
      → Event
  subscription_cancelled :
      (subscription grok_account root merchant : Pubkey) (payments : ℕ) (last_paid_period : ℤ)
      → Event
  subscription_paid :
      (subscription grok_account merchant mint : Pubkey) (amount : ℕ) (period : ℤ) (payments : ℕ)
      (reference : Option Pubkey) (agent grant : Pubkey) (generation : ℕ)
      → Event
  sponsor_fee_set : (grok_account root : Pubkey) (fee_per_intent : ℕ) → Event
  sponsor_fee_collected : (grok_account agent : Pubkey) (amount : ℕ) → Event
  sponsor_fees_burned : (grok_account : Pubkey) (amount : ℕ) (burner : Pubkey) → Event
  sub_grant_issued :
      (grok_account parent issuer agent : Pubkey) (cap : ℕ) (expires_at : ℤ) (depth generation : ℕ)
      → Event
  sub_grant_revised : (grok_account agent : Pubkey) (cap : ℕ) (expires_at : ℤ) (spent : ℕ) → Event
  sub_grant_revoked : (grok_account agent : Pubkey) (spent depth generation : ℕ) → Event
  sub_grant_spent : (grok_account agent : Pubkey) (amount depth spent_after : ℕ) → Event
