-- ===== src/Common.antt =====
-- What the grant-gated intents share: the sponsor's reimbursement, the vault's debit and the checks
-- on the trader and on the remaining accounts (instructions/common.rs).
pub mod Sponsor
pub mod Mouth
pub mod Checks
pub mod Ownership
pub mod Root
pub mod Adapter
use grokchain_programs.Base.{
  ℕ, Bool, true, false, not, ◌&&◌, Option, none, some, List, [], ◌∷◌, leb, ◌==◌, if◌then◌else◌,
}
use grokchain_programs.Errors.{
  sponsor_accounts_required, not_sponsor_eligible, paymaster_paused, relayer_mismatch,
  insufficient_paymaster, insufficient_spend_vault, pump_trader_not_system_owned,
  pump_trader_not_initialized, protected_account_in_remaining,
}
use grokchain_programs.Constants.{pump_trader_space, system_program_id}
use grokchain_programs.State.{Paymaster, SpendVault, paymaster_space, spend_vault_space}
use grokchain_programs.Events.{Event}
use grokchain_programs.Custody.{try_debit_program_owned}
use grokchain_programs.Policy.{require_sponsor_accounts}
use grokchain_programs.Policy.Jupiter.{is_empty}
use grokchain_programs.Runtime.Address.{Pubkey}
use grokchain_programs.Runtime.World.{World, Runtime, Account, AccountInfo, Grant}
use grokchain_programs.Runtime.Monad.{Action, pure, ◌>>=◌, ◌>>◌, require, ok_or, gets, emit}

-- The part of `reimburse_sponsor` after its early return.
abbrev pub reimburse_relayer :
    Runtime
    → Account Grant
    → Option (Account Paymaster)
    → Option AccountInfo
    → ℕ
    → Action (Unit {0})
reimburse_relayer rt grant paymaster fee_payer sponsor_lamports = do
  pm ← ok_or paymaster sponsor_accounts_required
  fp ← ok_or fee_payer sponsor_accounts_required
  require grant.value.sponsor_eligible not_sponsor_eligible
  require (not pm.value.paused) paymaster_paused
  require (fp.key == pm.value.relayer) relayer_mismatch
  paid ← try_debit_program_owned pm.key fp.key sponsor_lamports (rt.minimum_balance paymaster_space)
  require paid insufficient_paymaster
  emit (Event.sponsored pm.key fp.key sponsor_lamports grant.key grant.value.generation)

unfoldable pub reimburse_sponsor :
    Runtime
    → Account Grant
    → Option (Account Paymaster)
    → Option AccountInfo
    → ℕ
    → Action (Unit {0})
reimburse_sponsor rt grant paymaster fee_payer sponsor_lamports =
    if sponsor_lamports == 0
    then pure tt
    else reimburse_relayer rt grant paymaster fee_payer sponsor_lamports

unfoldable pub debit_spend_vault : Runtime → Account SpendVault → Pubkey → ℕ → Action (Unit {0})
debit_spend_vault rt spend_vault dest amount_lamports = do
  paid ←
      try_debit_program_owned spend_vault.key dest amount_lamports
        (rt.minimum_balance spend_vault_space)
  require paid insufficient_spend_vault

unfoldable pub require_pump_trader_ready : Runtime → Pubkey → Action (Unit {0})
require_pump_trader_ready rt trader = do
  owner ← gets (λ w. w.owner trader)
  require (owner == system_program_id) pump_trader_not_system_owned
  bytes ← gets (λ w. w.bytes trader)
  require (is_empty bytes) pump_trader_not_system_owned
  lamports ← gets (λ w. w.lamports trader)
  require (leb (rt.minimum_balance pump_trader_space) lamports) pump_trader_not_initialized
