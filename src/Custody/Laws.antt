-- ===== src/Custody/Laws.antt =====
-- What a debit does on every branch.
use grokchain_programs.Base.{ℕ, ◌+◌, ◌-◌, ◌≤◌, ◌<◌, ◌≡◌, true, false, arith, u64_size}
use grokchain_programs.Errors.{lamport_overflow}
use grokchain_programs.Runtime.Address.{Pubkey}
use grokchain_programs.Runtime.World.{World, ok, err, intents}
use grokchain_programs.Custody.{set_lamports, try_debit_program_owned}

-- The world after a debit that goes through.
abbrev pub debited : Pubkey → Pubkey → ℕ → World → World
debited from to amount w =
    set_lamports to (w.lamports to + amount) (set_lamports from (w.lamports from - amount) w)

-- A debit is paid exactly when the balance covers the amount and the floor.
pub try_debit_paid :
    (from to : Pubkey) (amount min_from : ℕ) (w : World)
    → amount + min_from ≤ w.lamports from
    → w.lamports to + amount < u64_size
    → try_debit_program_owned from to amount min_from w ≡ ok (true, debited from to amount w)
unfolding try_debit_program_owned
try_debit_paid from to amount min_from w covered fits = ground arith

pub try_debit_refused :
    (from to : Pubkey) (amount min_from : ℕ) (w : World)
    → w.lamports from < amount + min_from
    → try_debit_program_owned from to amount min_from w ≡ ok (false, w)
unfolding try_debit_program_owned
try_debit_refused from to amount min_from w short = ground arith

pub try_debit_overflow :
    (from to : Pubkey) (amount min_from : ℕ) (w : World)
    → amount + min_from ≤ w.lamports from
    → u64_size ≤ w.lamports to + amount
    → try_debit_program_owned from to amount min_from w ≡ err (intents lamport_overflow)
unfolding try_debit_program_owned
try_debit_overflow from to amount min_from w covered over = ground arith

-- The converse: what a debit that reports success has checked and done.
pub try_debit_inv :
    (from to : Pubkey) (amount min_from : ℕ) (w w' : World)
    → try_debit_program_owned from to amount min_from w ≡ ok (true, w')
    → (w' ≡ debited from to amount w)
      × (amount + min_from ≤ w.lamports from)
      × (w.lamports to + amount < u64_size)
unfolding try_debit_program_owned
try_debit_inv from to amount min_from w w' h = ground arith
