-- ===== src/Merchants/Laws.antt =====
-- The list of merchants: who is on it after each operation, and what holds of it at all times.
use grokchain_programs.Base.{
  ◌≤◌, ◌<◌, ◌≡◌, refl, true, false, not, ◌||◌, ◌&&◌, List, [], ◌∷◌, ◌++◌, length, length-append,
  contains, ◌==◌, arith, ◌⊎◌, inl, inr, Bool-cases,
}
use grokchain_programs.Constants.{max_merchants, seed_merchants}
use grokchain_programs.Common.Root.{check_root, IsRoot, check_root-IsRoot}
use grokchain_programs.Events.{Event}
use grokchain_programs.Custody.Totals.{Distinct}
use grokchain_programs.Errors.{merchant_not_listed, merchant_already_listed}
use grokchain_programs.Common.Ownership.{Belongs}
use grokchain_programs.State.{MerchantRegistry}
use grokchain_programs.Merchants.{UpdateMerchantRegistry, add, remove, retain_others, check_update}
use grokchain_programs.Runtime.Address.{Pubkey}
use grokchain_programs.Runtime.World.{World, Runtime, Result, ok, err, intents}

-- A registry that `init`, `add` and `remove` can have produced.
abbrev pub IsRegistry : MerchantRegistry → Type 0
IsRegistry reg = Distinct reg.merchants × (length reg.merchants ≤ max_merchants)

contains-append :
    (k m : Pubkey) (ms : List Pubkey) → contains k (ms ++ (m ∷ [])) ≡ ((k == m) || contains k ms)
contains-append k m [] = ground arith
contains-append k m (x ∷ ms) = ground (arith, contains-append k m ms)

Distinct-append :
    (m : Pubkey) (ms : List Pubkey)
    → Distinct ms
    → contains m ms ≡ false
    → Distinct (ms ++ (m ∷ []))
Distinct-append m [] d h = (refl, tt)
Distinct-append m (x ∷ ms) d h =
    (ground (arith, contains-append x m ms), Distinct-append m ms d.1 (ground arith))

pub contains-retain :
    (k m : Pubkey) (ms : List Pubkey)
    → contains k (retain_others m ms) ≡ (not (k == m) && contains k ms)
contains-retain k m [] = ground arith
contains-retain k m (x ∷ ms) = ground (arith, contains-retain k m ms)

Distinct-retain : (m : Pubkey) (ms : List Pubkey) → Distinct ms → Distinct (retain_others m ms)
Distinct-retain m [] d = tt
Distinct-retain m (x ∷ ms) d = elim (Bool-cases (x == m)) [
  | inl e ↦ rw e (Distinct-retain m ms d.1)
  | inr e ↦ rw e (ground (arith, contains-retain x m ms), Distinct-retain m ms d.1)
]

length-retain : (m : Pubkey) (ms : List Pubkey) → length (retain_others m ms) ≤ length ms
length-retain m [] = omega arith
length-retain m (x ∷ ms) = ground (arith, length-retain m ms)

-- Removing shortens the list exactly when the merchant was on it.
length-retain_absent :
    (m : Pubkey) (ms : List Pubkey)
    → contains m ms ≡ false
    → length (retain_others m ms) ≡ length ms
length-retain_absent m [] h = refl
length-retain_absent m (x ∷ ms) h = ground (arith, length-retain_absent m ms)

length-retain_present :
    (m : Pubkey) (ms : List Pubkey) → contains m ms ≡ true → length (retain_others m ms) < length ms
length-retain_present m [] h = cc
length-retain_present m (x ∷ ms) h = ground (arith, length-retain_present m ms, length-retain m ms)

-- The registry is the one that the root who signed may change: it belongs to the root's grok
-- account, and records the root.
abbrev pub RunsRegistry : Runtime → UpdateMerchantRegistry → Type 0
RunsRegistry rt ctx =
    IsRoot ctx.signed
    × Belongs rt seed_merchants ctx.grok_account ctx.merchant_registry.key
        ctx.merchant_registry.value.bump ctx.merchant_registry.value.grok_account
    × (ctx.merchant_registry.value.root ≡ ctx.root.key)

pub check_update-RunsRegistry :
    (rt : Runtime) (ctx : UpdateMerchantRegistry) (w w' : World)
    → check_update rt ctx w ≡ ok (tt, w')
    → RunsRegistry rt ctx × (w' ≡ w)
unfolding check_update
check_update-RunsRegistry rt ctx w w' h = elim (root_checked (check_root rt ctx.signed) refl) [
  | inl e ↦ (
    (check_root-IsRoot rt ctx.signed e, (ground arith, ground arith), ground arith),
    ground arith,
  )
  | inr (x, e) ↦ ground arith
]
  where
    root_checked :
        (r : Result (Unit {0}))
        → check_root rt ctx.signed ≡ r
        → (check_root rt ctx.signed ≡ ok tt) ⊎ ((x : _) × (check_root rt ctx.signed ≡ err x))
    root_checked (ok tt) e = inl e
    root_checked (err x) e = inr (x, e)

add-made :
    (rt : Runtime) (ctx : UpdateMerchantRegistry) (merchant : Pubkey) (w w' : World)
    (reg : MerchantRegistry)
    → add rt ctx merchant w ≡ ok (reg, w')
    → (check_update rt ctx w ≡ ok (tt, w))
      × (length ctx.merchant_registry.value.merchants < max_merchants)
      × (contains merchant ctx.merchant_registry.value.merchants ≡ false)
      × (reg ≡ record ctx.merchant_registry.value {
        merchants = ctx.merchant_registry.value.merchants ++ (merchant ∷ []);
      })
unfolding add check_update
add-made rt ctx merchant w w' reg h = ground arith

pub remove-made :
    (rt : Runtime) (ctx : UpdateMerchantRegistry) (merchant : Pubkey) (w w' : World)
    (reg : MerchantRegistry)
    → remove rt ctx merchant w ≡ ok (reg, w')
    → (check_update rt ctx w ≡ ok (tt, w))
      × (length (retain_others merchant ctx.merchant_registry.value.merchants)
          < length ctx.merchant_registry.value.merchants)
      × (reg ≡ record ctx.merchant_registry.value {
        merchants = retain_others merchant ctx.merchant_registry.value.merchants;
      })
unfolding remove check_update
remove-made rt ctx merchant w w' reg h = ground arith

-- `add` that succeeds on a registry with its invariant (no merchant twice, at most 32): the root
-- signed, the registry belongs to the root's grok account and keeps the invariant, the listed merchants are those from before and the new
-- one, and the registry keeps its mint and its account.
pub add-contains :
    (rt : Runtime) (ctx : UpdateMerchantRegistry) (merchant k : Pubkey) (w w' : World)
    (reg : MerchantRegistry)
    → IsRegistry ctx.merchant_registry.value
    → add rt ctx merchant w ≡ ok (reg, w')
    → RunsRegistry rt ctx
      × IsRegistry reg
      × (contains k reg.merchants
          ≡ ((k == merchant) || contains k ctx.merchant_registry.value.merchants))
      × (reg.mint ≡ ctx.merchant_registry.value.mint)
      × (reg.grok_account ≡ ctx.merchant_registry.value.grok_account)
add-contains rt ctx merchant k w w' reg r h =
    let ms = ctx.merchant_registry.value.merchants in
    let (checked, room, new, made) = add-made rt ctx merchant w w' reg h in
    rw made (
      (check_update-RunsRegistry rt ctx w w checked).0,
      (Distinct-append merchant ms r.0 new, omega (arith, length-append ms (merchant ∷ []), room)),
      contains-append k merchant ms,
      refl,
      refl,
    )

-- `remove` that succeeds on a registry with its invariant: the root signed, the registry belongs to
-- the root's grok account and keeps the invariant and its mint, the merchant was listed and is not any more, and every other merchant is
-- listed as before.
pub remove-contains :
    (rt : Runtime) (ctx : UpdateMerchantRegistry) (merchant k : Pubkey) (w w' : World)
    (reg : MerchantRegistry)
    → IsRegistry ctx.merchant_registry.value
    → remove rt ctx merchant w ≡ ok (reg, w')
    → RunsRegistry rt ctx
      × IsRegistry reg
      × (contains merchant ctx.merchant_registry.value.merchants ≡ true)
      × (contains k reg.merchants
          ≡ (not (k == merchant) && contains k ctx.merchant_registry.value.merchants))
      × (reg.mint ≡ ctx.merchant_registry.value.mint)
remove-contains rt ctx merchant k w w' reg r h =
    let ms = ctx.merchant_registry.value.merchants in
    let (checked, shorter, made) = remove-made rt ctx merchant w w' reg h in
    rw made (
      (check_update-RunsRegistry rt ctx w w checked).0,
      (Distinct-retain merchant ms r.0, omega (arith, length-retain merchant ms, r.1)),
      elim (Bool-cases (contains merchant ms)) [
        | inl e ↦ e
        | inr e ↦ absurd (omega (arith, length-retain_absent merchant ms e, shorter))
      ],
      contains-retain k merchant ms,
      refl,
    )

-- On accounts that pass the checks and a registry with room, `add` of a listed merchant and
-- `remove` of one that is not listed fail, each with its own error.
pub update_refused :
    (rt : Runtime) (ctx : UpdateMerchantRegistry) (listed unlisted : Pubkey) (w : World)
    → check_update rt ctx w ≡ ok (tt, w)
    → length ctx.merchant_registry.value.merchants < max_merchants
    → contains listed ctx.merchant_registry.value.merchants ≡ true
    → contains unlisted ctx.merchant_registry.value.merchants ≡ false
    → (add rt ctx listed w ≡ err (intents merchant_already_listed))
      × (remove rt ctx unlisted w ≡ err (intents merchant_not_listed))
unfolding add remove
update_refused rt ctx listed unlisted w c room on off = (
  ground arith,
  ground (arith, length-retain_absent unlisted ctx.merchant_registry.value.merchants off),
)

retain-append :
    (m : Pubkey) (ms : List Pubkey) → contains m ms ≡ false → retain_others m (ms ++ (m ∷ [])) ≡ ms
retain-append m [] h = ground arith
retain-append m (x ∷ ms) h = ground (arith, retain-append m ms)

-- The accounts of an update after the registry has changed.
abbrev pub with_registry : UpdateMerchantRegistry → MerchantRegistry → UpdateMerchantRegistry
with_registry ctx reg = record ctx {
  merchant_registry = record ctx.merchant_registry { value = reg };
}

check_update-with_merchants :
    (rt : Runtime) (ctx : UpdateMerchantRegistry) (ms : List Pubkey) (w w' : World)
    → check_update rt ctx w ≡ ok (tt, w)
    → check_update rt (with_registry ctx (record ctx.merchant_registry.value { merchants = ms })) w'
      ≡ ok (tt, w')
unfolding check_update
check_update-with_merchants rt ctx ms w w' h = ground arith

-- A merchant that has been added can be removed again, and that gives back the registry.
pub remove-add :
    (rt : Runtime) (ctx : UpdateMerchantRegistry) (merchant : Pubkey) (w w' : World)
    (reg : MerchantRegistry)
    → add rt ctx merchant w ≡ ok (reg, w')
    → (w'' : World) × (remove rt (with_registry ctx reg) merchant w'
        ≡ ok (ctx.merchant_registry.value, w''))
unfolding remove
remove-add rt ctx merchant w w' reg h =
    let ms = ctx.merchant_registry.value.merchants in
    let (checked, room, new, made) = add-made rt ctx merchant w w' reg h in
    let again = check_update-with_merchants rt ctx (ms ++ (merchant ∷ [])) w w' checked in
    rw made (
      record w' {
        log =
            Event.merchant_removed ctx.merchant_registry.key
              ctx.merchant_registry.value.grok_account ctx.merchant_registry.value.root merchant
              (length ms)
            ∷ w'.log;
      },
      ground (arith, again, retain-append merchant ms new, length-append ms (merchant ∷ [])),
    )
