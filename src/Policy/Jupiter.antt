-- ===== src/Policy/Jupiter.antt =====
-- Jupiter's route data is built by the client: the program only asks that the bytes of the amount
-- occur in it after the discriminator (policy.rs, `require_jupiter_in_amount`).
use grokchain_programs.Base.{
  ℕ, suc, ◌≤◌, ◌≡◌, refl, Bool, true, false, ◌||◌, ◌&&◌, ◌==◌, List, [], ◌∷◌, ◌++◌, arith, leb,
  length, length-append, length-le_bytes, take, drop, u64_bytes, not, ◌↔◌, ap, Bool-cases, inl, inr,
  zero, ◌∙◌, sym, subst, le→leb, take-length,
}
use grokchain_programs.Errors.{jupiter_empty_data_forbidden, jupiter_in_amount_mismatch}
use grokchain_programs.Runtime.World.{Result, ok}
use grokchain_programs.Runtime.Check.{◌>>◌, require}

abbrev pub is_empty : List ℕ → Bool
is_empty [] = true
is_empty (x ∷ xs) = false

-- Equality of byte slices.
abbrev pub bytes_eq : List ℕ → List ℕ → Bool
bytes_eq [] [] = true
bytes_eq [] (y ∷ ys) = false
bytes_eq (x ∷ xs) [] = false
bytes_eq (x ∷ xs) (y ∷ ys) = (x == y) && bytes_eq xs ys

-- `hay.windows(8).any(|w| w == needle)`: a window is eight bytes from some position on.
unfoldable pub has_window : List ℕ → List ℕ → Bool
has_window [] needle = false
has_window (x ∷ xs) needle =
    (leb 8 (length (x ∷ xs)) && bytes_eq (take 8 (x ∷ xs)) needle) || has_window xs needle

unfoldable pub require_nonempty_jupiter_data : List ℕ → Result (Unit {0})
require_nonempty_jupiter_data payload = do
  require (not (is_empty payload)) jupiter_empty_data_forbidden
  require (leb 8 (length payload)) jupiter_empty_data_forbidden

unfoldable pub require_jupiter_in_amount : List ℕ → ℕ → Result (Unit {0})
unfolding require_nonempty_jupiter_data has_window
require_jupiter_in_amount payload in_amount = do
  require_nonempty_jupiter_data payload
  require (has_window (drop 8 payload) (u64_bytes in_amount)) jupiter_in_amount_mismatch

pub bytes_eq-eq : (xs ys : List ℕ) → bytes_eq xs ys ≡ true → xs ≡ ys
bytes_eq-eq [] [] h = refl
bytes_eq-eq [] (y ∷ ys) h = cc
bytes_eq-eq (x ∷ xs) [] h = cc
bytes_eq-eq (x ∷ xs) (y ∷ ys) h = ground (arith, bytes_eq-eq xs ys)

pub bytes_eq_refl : (xs : List ℕ) → bytes_eq xs xs ≡ true
bytes_eq_refl [] = refl
bytes_eq_refl (x ∷ xs) = ground (arith, bytes_eq_refl xs)

-- The needle stands in the bytes, after some of them and before the others.
abbrev pub Occurs : List ℕ → List ℕ → Type 0
Occurs needle bytes = (before : List ℕ) × (after : List ℕ) × (bytes ≡ before ++ needle ++ after)

take-append : (n : ℕ) (xs : List ℕ) → xs ≡ take n xs ++ drop n xs
take-append zero xs = refl
take-append (suc n) [] = refl
take-append (suc n) (x ∷ xs) = ap (λ l. x ∷ l) (take-append n xs)

second_of : (a b c : Bool) → ((a && b) || c) ≡ true → c ≡ false → b ≡ true
second_of a b c h e = ground arith

both_hold : (a b c : Bool) → a ≡ true → b ≡ true → ((a && b) || c) ≡ true
both_hold a b c ha hb = ground arith

has_window-Occurs : (bytes needle : List ℕ) → has_window bytes needle ≡ true → Occurs needle bytes
unfolding has_window
has_window-Occurs [] needle h = cc
has_window-Occurs (x ∷ xs) needle h = elim (Bool-cases (has_window xs needle)) [
  | inl e ↦
      let (before, after, r) = has_window-Occurs xs needle e in
      (x ∷ before, after, ap (λ l. x ∷ l) r)
  | inr e ↦
      let same = bytes_eq-eq (take 8 (x ∷ xs)) needle (
        second_of (leb 8 (length (x ∷ xs))) (bytes_eq (take 8 (x ∷ xs)) needle)
          (has_window xs needle) h e) in
      ([], drop 8 (x ∷ xs), take-append 8 (x ∷ xs) ∙ ap (λ l. l ++ drop 8 (x ∷ xs)) same)
]

Occurs-has_window :
    (needle before after : List ℕ)
    → length needle ≡ 8
    → has_window (before ++ needle ++ after) needle ≡ true
unfolding has_window
Occurs-has_window [] before after n = absurd (omega (arith, n))
Occurs-has_window (y ∷ ys) [] after n =
    let all = (y ∷ ys) ++ after in
    let first : take 8 all ≡ y ∷ ys =
      subst (λ k. take k all ≡ y ∷ ys) n (take-length (y ∷ ys) after) in
    both_hold (leb 8 (length all)) (bytes_eq (take 8 all) (y ∷ ys))
      (has_window (ys ++ after) (y ∷ ys))
      (le→leb 8 (length all) (omega (arith, length-append (y ∷ ys) after, n)))
      (subst (λ l. bytes_eq l (y ∷ ys) ≡ true) (sym first) (bytes_eq_refl (y ∷ ys)))
Occurs-has_window (y ∷ ys) (x ∷ before) after n =
    ground (arith, Occurs-has_window (y ∷ ys) before after n)

-- Route data is accepted exactly when it has at least eight bytes and, after the first eight, the
-- eight little-endian bytes of the amount occur somewhere.
pub require_jupiter_in_amount_iff :
    (payload : List ℕ) (in_amount : ℕ)
    → (require_jupiter_in_amount payload in_amount ≡ ok tt)
      ↔ ((8 ≤ length payload) × Occurs (u64_bytes in_amount) (drop 8 payload))
unfolding require_jupiter_in_amount require_nonempty_jupiter_data
require_jupiter_in_amount_iff payload in_amount = (
  λ h. (
    ground (arith, h),
    has_window-Occurs (drop 8 payload) (u64_bytes in_amount) (ground (arith, h)),
  ),
  λ (long, (before, after, e)).
      let found =
        subst (λ l. has_window l (u64_bytes in_amount) ≡ true) (sym e)
          (Occurs-has_window (u64_bytes in_amount) before after (length-le_bytes 8 in_amount)) in
      accept payload long found,
)
  where
    accept :
        (payload : List ℕ)
        → 8 ≤ length payload
        → has_window (drop 8 payload) (u64_bytes in_amount) ≡ true
        → require_jupiter_in_amount payload in_amount ≡ ok tt
    accept [] long found = absurd (omega (arith, long))
    accept (x ∷ xs) long found = ground (arith, long, found)
