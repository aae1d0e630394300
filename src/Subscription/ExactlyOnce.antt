-- ===== src/Subscription/ExactlyOnce.antt =====
-- Retrying is safe: over any run of payments and a cancellation, no period is paid twice.
use grokchain_programs.Base.{
  suc, ◌+◌, ◌≤◌, ◌≡◌, refl, ap, ◌∙◌, subst, true, false, ℤ, ◌<ℤ◌, List, [], ◌∷◌, length, arith,
  u32_max,
}
use grokchain_programs.State.{Subscription, PaySubscriptionArgs}
use grokchain_programs.Subscription.Manage.{CancelSubscription, cancel}
use grokchain_programs.Subscription.Pay.{PaySubscription, pay}
use grokchain_programs.Subscription.Settlement.{pay_advances}
use grokchain_programs.Runtime.World.{World, Runtime, ok}

-- A run of one subscription's account: the periods that `pay` has paid, in order. Every step has
-- its own clock, world and accounts; only the subscription is handed on.
pub data Run : Subscription → List ℤ → Subscription → Type 0 where
  idle : (s : Subscription) → Run s [] s
  paying :
      (rt : Runtime) (ctx : PaySubscription) (args : PaySubscriptionArgs) (w w' : World)
      (s' s'' : Subscription) (later : List ℤ)
      → pay rt ctx args w ≡ ok (s', w')
      → Run s' later s''
      → Run ctx.subscription.value (args.period ∷ later) s''
  cancelling :
      (rt : Runtime) (ctx : CancelSubscription) (w w' : World) (s' s'' : Subscription)
      (later : List ℤ)
      → cancel rt ctx w ≡ ok (s', w')
      → Run s' later s''
      → Run ctx.subscription.value later s''

-- Each is greater than the one before it.
abbrev pub Ascending : ℤ → List ℤ → Type 0
Ascending last [] = Unit {0}
Ascending last (p ∷ ps) = (last <ℤ p) × Ascending p ps

cancel_inv :
    (rt : Runtime) (ctx : CancelSubscription) (w w' : World) (s' : Subscription)
    → cancel rt ctx w ≡ ok (s', w')
    → (ctx.subscription.value.active ≡ true)
      × (s' ≡ record ctx.subscription.value { active = false })
unfolding cancel
cancel_inv rt ctx w w' s' h = ground arith

-- Exactly once: in any run, every payment is for a later period than all before it, so no period
-- is ever paid twice, whatever the scheduler retries.
pub Run-Ascending :
    (s s'' : Subscription) (paid : List ℤ) → Run s paid s'' → Ascending s.last_paid_period paid
Run-Ascending s s'' paid (idle t) = tt
Run-Ascending s0 s1 paid (paying rt ctx args w w' s' s'' later h r) =
    let (active, unpaid, advanced) = pay_advances rt ctx args w w' s' h in
    (
      unpaid,
      subst (λ q. Ascending q later) (ap (λ x. x.last_paid_period) advanced)
          (Run-Ascending s' s'' later r),
    )
Run-Ascending s0 s1 paid (cancelling rt ctx w w' s' s'' later h r) =
    let (active, advanced) = cancel_inv rt ctx w w' s' h in
    subst (λ q. Ascending q later) (ap (λ x. x.last_paid_period) advanced)
      (Run-Ascending s' s'' later r)

-- As long as the counter stays within a u32, `payments` has grown over a run by exactly the number
-- of payments made.
pub Run-payments :
    (s s'' : Subscription) (paid : List ℤ)
    → Run s paid s''
    → s.payments + length paid ≤ u32_max
    → s''.payments ≡ s.payments + length paid
Run-payments s s'' paid (idle t) small = omega arith
Run-payments s0 s1 paid (paying rt ctx args w w' s' s'' later h r) small =
    let (active, unpaid, advanced) = pay_advances rt ctx args w w' s' h in
    let e : s'.payments ≡ suc ctx.subscription.value.payments =
      ap (λ x. x.payments) advanced ∙ ground (arith, small) in
    Run-payments s' s'' later r (omega (arith, e, small)) ∙ omega (arith, e)
Run-payments s0 s1 paid (cancelling rt ctx w w' s' s'' later h r) small =
    let (active, advanced) = cancel_inv rt ctx w w' s' h in
    let e : s'.payments ≡ ctx.subscription.value.payments = ap (λ x. x.payments) advanced in
    Run-payments s' s'' later r (omega (arith, e, small)) ∙ omega (arith, e)

-- Over a run that begins with a cancelled subscription there is no payment, and the subscription
-- stays as it is.
pub Run-cancelled :
    (s s'' : Subscription) (paid : List ℤ)
    → Run s paid s''
    → s.active ≡ false
    → (paid ≡ []) × (s'' ≡ s)
Run-cancelled s s'' paid (idle t) inactive = (refl, refl)
Run-cancelled s0 s1 paid (paying rt ctx args w w' s' s'' later h r) inactive =
    let (active, _, _) = pay_advances rt ctx args w w' s' h in cc
Run-cancelled s0 s1 paid (cancelling rt ctx w w' s' s'' later h r) inactive =
    let (active, _) = cancel_inv rt ctx w w' s' h in cc
