-- ===== src/Custody/Totals.antt =====
-- Sums of balances, and what a debit does to them.
use grokchain_programs.Base.{
  ℕ, ◌+◌, ◌-◌, ◌≤◌, ◌≡◌, ◌≢◌, refl, true, false, List, [], ◌∷◌, arith, contains, Bool-cases, inl,
  inr, ◌<◌, ◌⊎◌, leb, ltb, u64_size,
}
use grokchain_programs.Errors.{lamport_overflow}
use grokchain_programs.Custody.{try_debit_program_owned}
use grokchain_programs.Custody.Laws.{debited, try_debit_paid, try_debit_refused, try_debit_overflow}
use grokchain_programs.Runtime.Address.{Pubkey}
use grokchain_programs.Runtime.World.{World, ok, err, intents}
use grokchain_programs.Runtime.Monad.{update}

-- No address is listed twice.
abbrev pub Distinct : List Pubkey → Type 0
Distinct [] = Unit {0}
Distinct (k ∷ ks) = (contains k ks ≡ false) × Distinct ks

abbrev pub sum_of : List Pubkey → (Pubkey → ℕ) → ℕ
sum_of [] f = 0
sum_of (k ∷ ks) f = f k + sum_of ks f

sum_of-update_absent :
    (ks : List Pubkey) (f : Pubkey → ℕ) (k : Pubkey) (v : ℕ)
    → contains k ks ≡ false
    → sum_of ks (update f k v) ≡ sum_of ks f
sum_of-update_absent [] f k v h = refl
sum_of-update_absent (x ∷ ks) f k v h = ground (arith, sum_of-update_absent ks f k v)

-- Changing one balance changes the sum by the difference.
pub sum_of-update :
    (ks : List Pubkey) (f : Pubkey → ℕ) (k : Pubkey) (v : ℕ)
    → Distinct ks
    → contains k ks ≡ true
    → sum_of ks (update f k v) + f k ≡ sum_of ks f + v
sum_of-update [] f k v d h = cc
sum_of-update (x ∷ ks) f k v d h =
    ground (arith, sum_of-update_absent ks f k v, sum_of-update ks f k v d.1)

-- A debit between two of the accounts leaves their total as it was.
pub total-debited :
    (ks : List Pubkey) (from to : Pubkey) (amount : ℕ) (w : World)
    → Distinct ks
    → contains from ks ≡ true
    → contains to ks ≡ true
    → from ≢ to
    → amount ≤ w.lamports from
    → sum_of ks (debited from to amount w).lamports ≡ sum_of ks w.lamports
total-debited ks from to amount w d hf ht ne le =
    let first = update w.lamports from (w.lamports from - amount) in
    ground (
      arith,
      sum_of-update ks w.lamports from (w.lamports from - amount) d hf,
      sum_of-update ks first to (w.lamports to + amount) d ht,
    )

-- The debit on every branch, for a payer apart from the payee: it is paid in full and conserves
-- the two accounts' total above the payer's floor, or the balance does not cover the amount and
-- the floor and nothing changes, or the payee's balance would overflow and it is an error.
pub try_debit-cases :
    (from to : Pubkey) (amount floor : ℕ) (w : World)
    → from ≢ to
    → ((w' : World) × (try_debit_program_owned from to amount floor w ≡ ok (true, w'))
        × (w'.lamports from + amount ≡ w.lamports from)
        × (w'.lamports to ≡ w.lamports to + amount)
        × (floor ≤ w'.lamports from))
      ⊎ ((w.lamports from < amount + floor)
          × (try_debit_program_owned from to amount floor w ≡ ok (false, w)))
      ⊎ ((u64_size ≤ w.lamports to + amount)
          × (try_debit_program_owned from to amount floor w ≡ err (intents lamport_overflow)))
try_debit-cases from to amount floor w ne =
    elim (Bool-cases (leb (amount + floor) (w.lamports from))) [
      | inr e ↦
          let short : w.lamports from < amount + floor = ground (arith, e) in
          inr (inl (short, try_debit_refused from to amount floor w short))
      | inl e ↦
          let covered : amount + floor ≤ w.lamports from = ground (arith, e) in
          elim (Bool-cases (ltb (w.lamports to + amount) u64_size)) [
            | inl f ↦ inl (
              debited from to amount w,
              try_debit_paid from to amount floor w covered (ground (arith, f)),
              ground (arith, covered, ne),
              ground (arith, covered, ne),
              ground (arith, covered, ne),
            )
            | inr f ↦
                let over : u64_size ≤ w.lamports to + amount = ground (arith, f) in
                inr (inr (over, try_debit_overflow from to amount floor w covered over))
          ]
    ]
