-- ===== src/Custody.antt =====
-- Moving lamports out of accounts that the program owns (instructions/mod.rs).
pub mod Laws
pub mod Totals
use grokchain_programs.Base.{
  ℕ, Bool, true, false, none, some, ltb, checked_sub, checked_add, if◌then◌else◌,
}
use grokchain_programs.Errors.{lamport_overflow}
use grokchain_programs.Runtime.Address.{Pubkey}
use grokchain_programs.Runtime.World.{World}
use grokchain_programs.Runtime.Monad.{Action, pure, ◌>>=◌, ◌>>◌, ok_or, gets, modify, update}

-- `**account.try_borrow_mut_lamports()? = n`
abbrev pub set_lamports : Pubkey → ℕ → World → World
set_lamports k n w = record w { lamports = update w.lamports k n }

abbrev pub credit_after_debit : Pubkey → Pubkey → ℕ → ℕ → Action Bool
credit_after_debit from to amount after = do
  balance ← gets (λ w. w.lamports to)
  dest ← ok_or (checked_add balance amount) lamport_overflow
  modify (set_lamports from after)
  modify (set_lamports to dest)
  pure true

-- `try_debit_program_owned`: both balances are read before either is written, so a debit to the
-- account itself writes it twice.
unfoldable pub try_debit_program_owned : Pubkey → Pubkey → ℕ → ℕ → Action Bool
try_debit_program_owned from to amount min_from = do
  balance ← gets (λ w. w.lamports from)
  elim (checked_sub balance amount) [
    | none ↦ pure false
    | some after ↦
        if ltb after min_from then pure false else credit_after_debit from to amount after
  ]
