-- ===== src/CoreCpi.antt =====
-- The call of CORE's `check_grant` (programs/grok_chain_intents/src/core_cpi.rs).
pub mod Metering
use grokchain_programs.Base.{ℕ, Bool, true, false, List, [], ◌∷◌, ◌++◌, u64_bytes}
use grokchain_programs.Errors.{invalid_core_program}
use grokchain_programs.Constants.{check_grant_discriminator}
use grokchain_programs.Runtime.Address.{Pubkey}
use grokchain_programs.Runtime.World.{World, Runtime, Instruction, AccountMeta}
use grokchain_programs.Runtime.Monad.{Action, ◌>>=◌, ◌>>◌, require_keys_eq, invoke_signed}

-- `AccountMeta::new` and `AccountMeta::new_readonly`.
abbrev pub writable : Pubkey → Bool → AccountMeta
writable k signs = record { pubkey = k; is_signer = signs; is_writable = true }

abbrev pub readonly : Pubkey → Bool → AccountMeta
readonly k signs = record { pubkey = k; is_signer = signs; is_writable = false }

unfoldable pub check_grant_ix : Runtime → Pubkey → Pubkey → Pubkey → Pubkey → ℕ → Instruction
check_grant_ix rt grok_account grant agent target_program amount_lamports = record {
  program_id = rt.core_id;
  accounts =
      readonly grok_account false
      ∷ writable grant false
      ∷ readonly agent true
      ∷ readonly target_program false
      ∷ [];
  payload = check_grant_discriminator ++ u64_bytes amount_lamports;
}

-- `check_grant`.
unfoldable pub check_grant :
    Runtime → Pubkey → Pubkey → Pubkey → Pubkey → Pubkey → ℕ → Action (Unit {0})
unfolding check_grant_ix
check_grant rt core_program grok_account grant agent target_program amount_lamports = do
  require_keys_eq core_program rt.core_id invalid_core_program
  invoke_signed rt (check_grant_ix rt grok_account grant agent target_program amount_lamports) []
