-- ===== src/Subscription/Clock.antt =====
-- Which period a moment falls in.
use native.Mathlib.Nat.{mod-lt, div-add-mod', div-eq_of_lt-le, lt_of_mul-lt-mul_right}
use grokchain_programs.Base.{
  ℕ, zero, ◌+◌, ◌-◌, ◌*◌, ◌/◌, suc, ◌≤◌, ◌<◌, ◌≡◌, arith, ℤ, pos, negsuc, ◌-ℤ◌, ◌≤ℤ◌, ◌<ℤ◌,
  pos_part, neg_part, leb_ℤ, fits_i64, ◌⊎◌, inl, inr, Bool-cases, ◌↔◌, subst,
}
use grokchain_programs.Errors.{subscription_period_too_short, subscription_not_started}
use grokchain_programs.Subscription.Period.{current_period}
use grokchain_programs.Runtime.World.{ok, err, aborted, intents}

div_bounds : (d k : ℕ) → 0 < k → ((d / k) * k ≤ d) × (d < (d / k + 1) * k)
div_bounds d k h = (omega (arith, div-add-mod' d k), omega (arith, div-add-mod' d k, mod-lt d h))

-- Period `n` of a subscription is the `n`-th stretch of `period` seconds after its start.
abbrev pub InPeriod : ℤ → ℤ → ℤ → ℕ → Type 0
InPeriod now start period n =
    (pos_part start + n * pos_part period + neg_part now ≤ pos_part now + neg_part start)
    × (pos_part now + neg_part start < pos_part start + (n + 1) * pos_part period + neg_part now)

-- The seconds since the start.
abbrev pub elapsed : ℤ → ℤ → ℕ
elapsed now start = (pos_part now + neg_part start) - (neg_part now + pos_part start)

current_period-elapsed :
    (now start period p : ℤ)
    → current_period now start period ≡ ok p
    → (start ≤ℤ now)
      × (0 < pos_part period)
      × (elapsed now start < 0x8000_0000_0000_0000)
      × (p ≡ pos (elapsed now start / pos_part period))
unfolding current_period
current_period-elapsed now start (negsuc k) p h = ground arith
current_period-elapsed now start (pos k) p h = ground arith

-- Whenever `current_period` returns, it returns the number of the period that the moment is in:
-- the moment is no earlier than that period's start and before the next one's.
pub current_period-InPeriod :
    (now start period p : ℤ)
    → current_period now start period ≡ ok p
    → (n : ℕ) × (p ≡ pos n) × InPeriod now start period n
current_period-InPeriod now start period p h =
    let (after, positive, _, e) = current_period-elapsed now start period p h in
    let (low, high) = div_bounds (elapsed now start) (pos_part period) positive in
    (
      elapsed now start / pos_part period,
      e,
      (omega (arith, low, after), omega (arith, high, after)),
    )

-- With a positive period length and no overflow, `current_period` returns `n` exactly when the
-- moment is in period `n`.
pub current_period_iff :
    (now start period : ℤ) (n : ℕ)
    → pos 0 <ℤ period
    → elapsed now start < 0x8000_0000_0000_0000
    → (current_period now start period ≡ ok (pos n)) ↔ InPeriod now start period n
unfolding current_period
current_period_iff now start (negsuc k) n positive small = absurd (omega (arith, positive))
current_period_iff now start (pos k) n positive small = (
  λ h.
      let (m, e, i) = current_period-InPeriod now start (pos k) (pos n) h in
      let same : m ≡ n = ground (arith, e) in subst (InPeriod now start (pos k)) same i,
  λ (low, high).
      let d =
        div-eq_of_lt-le {k = n} k {m = elapsed now start} (omega (arith, low, high))
          (omega (arith, low, high)) in
      (ground (arith, low, d)),
)

-- `current_period` on every branch: a period length that is not positive and a moment before the
-- start are refused with their errors, a moment 2 ^ 63 seconds or more after the start aborts, and
-- any other has the elapsed seconds divided by the length.
pub current_period-cases :
    (now start period : ℤ)
    → ((period ≤ℤ pos 0)
        × (current_period now start period ≡ err (intents subscription_period_too_short)))
      ⊎ ((pos 0 <ℤ period)
          × (now <ℤ start)
          × (current_period now start period ≡ err (intents subscription_not_started)))
      ⊎ ((pos 0 <ℤ period)
          × (start ≤ℤ now)
          × (0x8000_0000_0000_0000 ≤ elapsed now start)
          × (current_period now start period ≡ err aborted))
      ⊎ ((pos 0 <ℤ period)
          × (start ≤ℤ now)
          × (elapsed now start < 0x8000_0000_0000_0000)
          × (current_period now start period ≡ ok (pos (elapsed now start / pos_part period))))
unfolding current_period
current_period-cases now start (negsuc k) = inl (ground arith)
current_period-cases now start (pos zero) = inl (ground arith)
current_period-cases now start (pos (suc k)) = elim (Bool-cases (leb_ℤ start now)) [
  | inl e ↦ elim (Bool-cases (fits_i64 (now -ℤ start))) [
    | inl f ↦ inr (inr (inr (ground arith)))
    | inr f ↦ inr (inr (inl (ground arith)))
  ]
  | inr e ↦ inr (inl (ground arith))
]

-- The clock does not run backwards: when `current_period` returns at two moments, the later one is
-- not in an earlier period.
pub current_period-mono :
    (now later start period p q : ℤ)
    → now ≤ℤ later
    → current_period now start period ≡ ok p
    → current_period later start period ≡ ok q
    → p ≤ℤ q
current_period-mono now later start period p q h hp hq =
    let (n, en, (nl, _)) = current_period-InPeriod now start period p hp in
    let (m, em, (_, mh)) = current_period-InPeriod later start period q hq in
    let less =
      lt_of_mul-lt-mul_right (pos_part period) {m = n} {n = m + 1} (omega (arith, nl, mh, h)) in
    ground (arith, less, en, em)
