-- ===== src/Runtime/Monad.antt =====
-- Instructions as actions on the world that may fail. A failed instruction has no effect, since
-- the runtime reverts the transaction, so an error carries no world.
use grokchain_programs.Base.{
  ◌≡◌, refl, Bool, true, false, List, ◌∷◌, ◌==◌, not, Option, if◌then◌else◌, arith, inl, inr, ap,
  ◌∙◌,
}
use grokchain_programs.Errors.{IntentsError}
use grokchain_programs.Events.{Event}
use grokchain_programs.Runtime.Address.{Pubkey}
use grokchain_programs.Runtime.Check
use grokchain_programs.Runtime.Check.{Result-cases}
use grokchain_programs.Runtime.World.{World, Result, ok, err, Runtime, Instruction}

abbrev pub Action : Type 0 → Type 0
Action A = World → Result (A × World)

abbrev pub pure : {A : Type 0} → A → Action A
pure a w = ok (a, w)

infixl 5 ◌>>=◌ ◌>>◌
abbrev pub ◌>>=◌ : {A B : Type 0} → Action A → (A → Action B) → Action B
◌>>=◌ m f w = elim (m w) [ ok (a, w') ↦ f a w' | err e ↦ err e ]

abbrev pub ◌>>◌ : {B : Type 0} → Action (Unit {0}) → Action B → Action B
m >> k = m >>= λ _. k

-- A check as an action.
abbrev pub lift : {A : Type 0} → Result A → Action A
lift (ok a) w = ok (a, w)
lift (err e) w = err e

-- `require!`, `require_keys_eq!` and `require_keys_neq!`.
abbrev pub require : Bool → IntentsError → Action (Unit {0})
require b e = lift (Check.require b e)

abbrev pub require_keys_eq : Pubkey → Pubkey → IntentsError → Action (Unit {0})
require_keys_eq a b = require (a == b)

abbrev pub require_keys_neq : Pubkey → Pubkey → IntentsError → Action (Unit {0})
require_keys_neq a b = require (not (a == b))

-- `.ok_or(error!(...))?`
abbrev pub ok_or : {A : Type 0} → Option A → IntentsError → Action A
ok_or o e = lift (Check.ok_or o e)

abbrev pub when : Bool → Action (Unit {0}) → Action (Unit {0})
when true a = a
when false a = pure tt

abbrev pub gets : {A : Type 0} → (World → A) → Action A
gets f w = ok (f w, w)

abbrev pub modify : (World → World) → Action (Unit {0})
modify f w = ok (tt, f w)

-- `emit!`
abbrev pub emit : Event → Action (Unit {0})
emit e = modify λ w. record w { log = e ∷ w.log }

-- `invoke_signed`; `invoke` is the case of no derived signers.
abbrev pub invoke_signed : Runtime → Instruction → List Pubkey → Action (Unit {0})
invoke_signed rt ix signers w = elim (rt.invoke ix signers w) [
  | ok w' ↦ ok (tt, w')
  | err e ↦ err e
]

-- A function changed at one point.
abbrev pub update {ℓ} : {A : Type ℓ} → (Pubkey → A) → Pubkey → A → Pubkey → A
update f p v q = if q == p then v else f q

-- Inversion of a bind that succeeded, for proofs that keep the parts shut.
pub >>=-eq-ok :
    {A B : Type 0} (m : Action A) (f : A → Action B) {w : World} {r : B × World}
    → (m >>= f) w ≡ ok r
    → (a : A) × (w' : World) × (m w ≡ ok (a, w')) × (f a w' ≡ ok r)
>>=-eq-ok {A} {B} m f {w} {r} = invert (m w) refl
  where
    invert :
        (x : Result (A × World))
        → m w ≡ x
        → (elim x [ ok (a, w') ↦ f a w' | err e ↦ err e ]) ≡ ok r
        → (a : A) × (w' : World) × (m w ≡ ok (a, w')) × (f a w' ≡ ok r)
    invert (ok (a, w')) e h = (a, w', e, h)
    invert (err e') e h = cc

pub >>-eq-ok :
    {B : Type 0} (m : Action (Unit {0})) (k : Action B) {w : World} {r : B × World}
    → (m >> k) w ≡ ok r
    → (v : World) × (m w ≡ ok (tt, v)) × (k v ≡ ok r)
>>-eq-ok m k h = let (_, v, e, r) = >>=-eq-ok m (λ _. k) h in (v, e, r)

-- A check that comes first has passed, and has changed nothing.
pub lift-eq-ok :
    {B : Type 0} (c : Result (Unit {0})) (k : Action B) {w : World} {r : B × World}
    → (lift c >> k) w ≡ ok r
    → (c ≡ ok tt) × (k w ≡ ok r)
lift-eq-ok (ok tt) k h = (refl, h)
lift-eq-ok (err e) k h = cc

pub invoke_signed_inv :
    (rt : Runtime) (ix : Instruction) (signers : List Pubkey) (w w' : World)
    → invoke_signed rt ix signers w ≡ ok (tt, w')
    → rt.invoke ix signers w ≡ ok w'
invoke_signed_inv rt ix signers w w' h = elim (Result-cases (rt.invoke ix signers w)) [
  | inl (v, e) ↦ ground (arith, e, h)
  | inr (x, e) ↦ ground (arith, e, h)
]

-- A computation without effect that comes next has succeeded, and has changed nothing.
pub lift-value :
    {A : Type 0} (c : Result A) {a : A} {w w' : World}
    → lift c w ≡ ok (a, w')
    → (c ≡ ok a) × (w' ≡ w)
lift-value (ok b) h = ground arith
lift-value (err e) h = ground arith

pub written :
    (e : Event) (w w' : World) → emit e w ≡ ok (tt, w') → w' ≡ record w { log = e ∷ w.log }
written e w w' h = ground arith

-- A step that succeeds, and what follows it.
pub >>=_then :
    {A B : Type 0} (m : Action A) (f : A → Action B) {a : A} {w v : World} {r : Result (B × World)}
    → m w ≡ ok (a, v)
    → f a v ≡ r
    → (m >>= f) w ≡ r
>>=_then {A} m f e h =
    ap {A = Result (A × World)} (λ x. elim x [ ok (a, v) ↦ f a v | err e' ↦ err e' ]) e ∙ h

pub >>_then :
    {B : Type 0} (m : Action (Unit {0})) (k : Action B) {w v : World} {r : Result (B × World)}
    → m w ≡ ok (tt, v)
    → k v ≡ r
    → (m >> k) w ≡ r
>>_then m k = >>=_then m (λ _. k)

-- The same invocation, of equal instructions in equal worlds.
pub invoked_as :
    (rt : Runtime) {ix ix' : Instruction} (signers : List Pubkey) (w v w' v' : World)
    → rt.invoke ix signers w ≡ ok w'
    → ix ≡ ix'
    → w ≡ v
    → w' ≡ v'
    → rt.invoke ix' signers v ≡ ok v'
invoked_as rt signers w v w' v' h i e e' = cc
