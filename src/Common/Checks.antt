-- ===== src/Common/Checks.antt =====
-- The checks of common.rs that read no state.
use grokchain_programs.Base.{
  ℕ, ◌≤◌, ◌≡◌, arith, Bool, true, false, not, ◌&&◌, Option, none, some, List, [], ◌∷◌, ◌==◌,
}
use grokchain_programs.Errors.{protected_account_in_remaining}
use grokchain_programs.State.{Paymaster}
use grokchain_programs.Constants.{max_sponsor_lamports}
use grokchain_programs.Policy.{require_sponsor_accounts}
use grokchain_programs.Runtime.Address.{Pubkey}
use grokchain_programs.Runtime.World.{Result, ok, Account, AccountInfo}
use grokchain_programs.Runtime.Check.{◌>>◌, require}

abbrev pub is_some {ℓ} : {A : Type ℓ} → Option A → Bool
is_some none = false
is_some (some a) = true

unfoldable pub precheck_sponsor :
    ℕ → Option (Account Paymaster) → Option AccountInfo → Result (Unit {0})
unfolding require_sponsor_accounts
precheck_sponsor sponsor_lamports paymaster fee_payer =
    require_sponsor_accounts sponsor_lamports (is_some paymaster && is_some fee_payer)

abbrev pub reject_key : Pubkey → Option Pubkey → Result (Unit {0})
reject_key k none = ok tt
reject_key k (some pm) = require (not (k == pm)) protected_account_in_remaining

unfoldable pub reject_protected_remaining :
    List AccountInfo → Pubkey → Option Pubkey → Result (Unit {0})
reject_protected_remaining [] spend_vault paymaster = ok tt
reject_protected_remaining (acc ∷ rest) spend_vault paymaster = do
  require (not (acc.key == spend_vault)) protected_account_in_remaining
  reject_key acc.key paymaster
  reject_protected_remaining rest spend_vault paymaster

unfoldable pub reject_paymaster_in_remaining : List AccountInfo → Option Pubkey → Result (Unit {0})
reject_paymaster_in_remaining [] paymaster = ok tt
reject_paymaster_in_remaining (acc ∷ rest) paymaster = do
  reject_key acc.key paymaster
  reject_paymaster_in_remaining rest paymaster

-- The check before the grant is metered: the amount is within the cap.
pub precheck_sponsor_inv :
    (sponsor : ℕ) (paymaster : Option (Account Paymaster)) (fee_payer : Option AccountInfo)
    → precheck_sponsor sponsor paymaster fee_payer ≡ ok tt
    → sponsor ≤ max_sponsor_lamports
unfolding precheck_sponsor
precheck_sponsor_inv sponsor paymaster fee_payer h = ground arith
