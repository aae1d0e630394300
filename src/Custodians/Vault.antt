-- ===== src/Custodians/Vault.antt =====
-- The spend vault (programs/grok_chain_intents/src/instructions/spend_vault.rs).
use grokchain_programs.Base.{ℕ, [], ◌∷◌, ltb, ◌==◌}
use grokchain_programs.Errors.{
  zero_amount, insufficient_spend_vault, grok_account_mismatch, unauthorized_root,
}
use grokchain_programs.Constants.{intents_id, seed_spend_vault}
use grokchain_programs.Common.Mouth.{check_seeds}
use grokchain_programs.Common.Root.{Root, check_root, check_derived}
use grokchain_programs.Custody.{try_debit_program_owned}
use grokchain_programs.Events.{Event}
use grokchain_programs.State.{SpendVault, spend_vault_space}
use grokchain_programs.Runtime.Address.{Pubkey, text, address}
use grokchain_programs.Runtime.World.{Runtime, Account}
use grokchain_programs.Runtime.Monad.{Action, pure, ◌>>=◌, ◌>>◌, lift, require, invoke_signed, emit}

-- `InitSpendVault`.
pub record InitSpendVault : Type 0 where
  pub signed : Root
  pub open signed use *
  pub spend_vault : Pubkey
  pub bump : ℕ

-- `FundSpendVault` and `WithdrawSpendVault`, which have the same accounts.
pub record ManageSpendVault : Type 0 where
  pub signed : Root
  pub open signed use *
  pub spend_vault : Account SpendVault

-- `init`: the vault's account as it is created.
unfoldable pub init_spend_vault : Runtime → InitSpendVault → Action SpendVault
init_spend_vault rt ctx = do
  lift (check_root rt ctx.signed)
  lift (
      check_derived rt ctx.spend_vault ctx.bump
        (text seed_spend_vault ∷ address ctx.grok_account.key ∷ []))
  emit (Event.spend_vault_initialized ctx.spend_vault ctx.grok_account.key ctx.root.key)
  pure (record { grok_account = ctx.grok_account.key; root = ctx.root.key; bump = ctx.bump })

unfoldable pub check_manage_spend_vault : Runtime → ManageSpendVault → Action (Unit {0})
check_manage_spend_vault rt ctx = do
  lift (check_root rt ctx.signed)
  lift (
      check_seeds rt ctx.spend_vault.key (text seed_spend_vault ∷ address ctx.grok_account.key ∷ [])
        ctx.spend_vault.value.bump intents_id)
  require (ctx.spend_vault.value.grok_account == ctx.grok_account.key) grok_account_mismatch
  require (ctx.spend_vault.value.root == ctx.root.key) unauthorized_root

-- `fund`
unfoldable pub fund_spend_vault : Runtime → ManageSpendVault → ℕ → Action (Unit {0})
fund_spend_vault rt ctx lamports = do
  check_manage_spend_vault rt ctx
  require (ltb 0 lamports) zero_amount
  invoke_signed rt (rt.system_transfer ctx.root.key ctx.spend_vault.key lamports) []
  emit (Event.spend_vault_funded ctx.spend_vault.key ctx.grok_account.key ctx.root.key lamports)

-- `withdraw`
unfoldable pub withdraw_spend_vault : Runtime → ManageSpendVault → ℕ → Action (Unit {0})
withdraw_spend_vault rt ctx lamports = do
  check_manage_spend_vault rt ctx
  require (ltb 0 lamports) zero_amount
  paid ←
      try_debit_program_owned ctx.spend_vault.key ctx.root.key lamports
        (rt.minimum_balance spend_vault_space)
  require paid insufficient_spend_vault
  emit (Event.spend_vault_withdrawn ctx.spend_vault.key ctx.grok_account.key ctx.root.key lamports)
