-- ===== src/State.antt =====
-- The account and argument structs (programs/grok_chain_intents/src/state.rs), field by field.
use grokchain_programs.Base.{ℕ, ◌+◌, ◌*◌, ℤ, Bool, List, String}
use grokchain_programs.Runtime.Address.{Pubkey}
use grokchain_programs.Constants.{max_merchants}

-- `SpendVault`.
pub record SpendVault : Type 0 where
  pub grok_account : Pubkey
  pub root : Pubkey
  pub bump : ℕ

-- `Paymaster`.
pub record Paymaster : Type 0 where
  pub grok_account : Pubkey
  pub root : Pubkey
  pub relayer : Pubkey
  pub bump : ℕ
  pub paused : Bool

-- `PayArgs`.
pub record PayArgs : Type 0 where
  pub amount_lamports : ℕ
  pub sponsor_lamports : ℕ

-- `SwapArgs`.
pub record SwapArgs : Type 0 where
  pub amount_in_lamports : ℕ
  pub min_out_lamports : ℕ
  pub sponsor_lamports : ℕ

-- `DeployArgs`.
pub record DeployArgs : Type 0 where
  pub sponsor_lamports : ℕ
  pub program_id : Pubkey

-- `CallArgs`.
pub record CallArgs : Type 0 where
  pub amount_lamports : ℕ
  pub sponsor_lamports : ℕ
  pub target_program : Pubkey

-- `PumpBuyArgs`.
pub record PumpBuyArgs : Type 0 where
  pub amount : ℕ
  pub max_sol_cost : ℕ
  pub sponsor_lamports : ℕ

-- `PumpSellArgs`.
pub record PumpSellArgs : Type 0 where
  pub amount : ℕ
  pub min_sol_output : ℕ
  pub sponsor_lamports : ℕ

-- `PumpCreateArgs`.
pub record PumpCreateArgs : Type 0 where
  pub name : String
  pub symbol : String
  pub uri : String
  pub is_mayhem_mode : Bool
  pub is_cashback_enabled : Bool
  pub max_sol_cost : ℕ
  pub sponsor_lamports : ℕ

-- `PumpAmmBuyArgs`.
pub record PumpAmmBuyArgs : Type 0 where
  pub spendable_quote_in : ℕ
  pub min_base_amount_out : ℕ
  pub max_sol_cost : ℕ
  pub sponsor_lamports : ℕ

-- `PumpAmmSellArgs`.
pub record PumpAmmSellArgs : Type 0 where
  pub base_amount_in : ℕ
  pub min_quote_amount_out : ℕ
  pub sponsor_lamports : ℕ

-- `TokenBuyArgs`.
pub record TokenBuyArgs : Type 0 where
  pub in_amount : ℕ
  pub min_out : ℕ
  pub sponsor_lamports : ℕ
  pub input_mint : Pubkey
  pub output_mint : Pubkey
  pub wrap_sol : Bool
  pub jupiter_data : List ℕ

-- `TokenSellArgs`.
pub record TokenSellArgs : Type 0 where
  pub in_amount : ℕ
  pub min_out : ℕ
  pub sponsor_lamports : ℕ
  pub input_mint : Pubkey
  pub output_mint : Pubkey
  pub wrap_sol : Bool
  pub jupiter_data : List ℕ

-- `MerchantRegistry`.
pub record MerchantRegistry : Type 0 where
  pub grok_account : Pubkey
  pub root : Pubkey
  pub mint : Pubkey
  pub bump : ℕ
  pub merchants : List Pubkey

-- `PayTokenArgs`.
pub record PayTokenArgs : Type 0 where
  pub amount : ℕ
  pub decimals : ℕ
  pub sponsor_lamports : ℕ

-- `Subscription`.
pub record Subscription : Type 0 where
  pub grok_account : Pubkey
  pub root : Pubkey
  pub merchant : Pubkey
  pub mint : Pubkey
  pub amount : ℕ
  pub period_seconds : ℤ
  pub start_unix : ℤ
  pub last_paid_period : ℤ
  pub payments : ℕ
  pub active : Bool
  pub bump : ℕ

-- `SubscriptionArgs`.
pub record SubscriptionArgs : Type 0 where
  pub merchant : Pubkey
  pub amount : ℕ
  pub period_seconds : ℤ
  pub start_unix : ℤ

-- `PaySubscriptionArgs`.
pub record PaySubscriptionArgs : Type 0 where
  pub period : ℤ
  pub sponsor_lamports : ℕ

-- `SubGrant`.
pub record SubGrant : Type 0 where
  pub grok_account : Pubkey
  pub parent : Pubkey
  pub issuer : Pubkey
  pub agent : Pubkey
  pub cap : ℕ
  pub spent : ℕ
  pub expires_at : ℤ
  pub revoked : Bool
  pub depth : ℕ
  pub generation : ℕ
  pub bump : ℕ

-- `SponsorFeeConfig`.
pub record SponsorFeeConfig : Type 0 where
  pub grok_account : Pubkey
  pub root : Pubkey
  pub fee_per_intent : ℕ
  pub bump : ℕ

-- `SpendVault::SPACE`.
abbrev pub spend_vault_space : ℕ
spend_vault_space = 8 + 32 + 32 + 1

-- `Paymaster::SPACE`.
abbrev pub paymaster_space : ℕ
paymaster_space = 8 + 32 + 32 + 32 + 1 + 1

-- `MerchantRegistry::SPACE`.
abbrev pub merchant_registry_space : ℕ
merchant_registry_space = 8 + 32 + 32 + 32 + 1 + 4 + 32 * max_merchants

-- `Subscription::SPACE`.
abbrev pub subscription_space : ℕ
subscription_space = 8 + 32 + 32 + 32 + 32 + 8 + 8 + 8 + 8 + 4 + 1 + 1

-- `SubGrant::SPACE`.
abbrev pub sub_grant_space : ℕ
sub_grant_space = 8 + 32 + 32 + 32 + 32 + 8 + 8 + 8 + 1 + 1 + 4 + 1

-- `SponsorFeeConfig::SPACE`.
abbrev pub sponsor_fee_config_space : ℕ
sponsor_fee_config_space = 8 + 32 + 32 + 8 + 1
