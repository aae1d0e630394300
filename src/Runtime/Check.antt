-- ===== src/Runtime/Check.antt =====
-- Checks that read no state: they succeed or end the instruction with an error.
use grokchain_programs.Base.{
  Bool, ◌==◌, not, Option, none, some, if◌then◌else◌, ◌≡◌, refl, ◌⊎◌, inl, inr,
}
use grokchain_programs.Errors.{IntentsError}
use grokchain_programs.Runtime.Address.{Pubkey}
use grokchain_programs.Runtime.World.{
  Error, intents, anchor, AnchorError, Result, ok, err, AccountInfo,
}

infixl 5 ◌>>=◌ ◌>>◌
abbrev pub ◌>>=◌ : {A B : Type 0} → Result A → (A → Result B) → Result B
ok a >>= f = f a
err e >>= f = err e

abbrev pub ◌>>◌ : {B : Type 0} → Result (Unit {0}) → Result B → Result B
m >> k = m >>= λ _. k

-- `require!`, `require_keys_eq!` and `require_keys_neq!`.
abbrev pub require : Bool → IntentsError → Result (Unit {0})
require b e = if b then ok tt else err (intents e)

abbrev pub require_keys_eq : Pubkey → Pubkey → IntentsError → Result (Unit {0})
require_keys_eq a b = require (a == b)

abbrev pub require_keys_neq : Pubkey → Pubkey → IntentsError → Result (Unit {0})
require_keys_neq a b = require (not (a == b))

-- A check that Anchor makes.
abbrev pub constrain : Bool → AnchorError → Result (Unit {0})
constrain b e = if b then ok tt else err (anchor e)

-- `.ok_or(error!(...))?`
abbrev pub ok_or : {A : Type 0} → Option A → IntentsError → Result A
ok_or none e = err (intents e)
ok_or (some a) e = ok a

-- `Signer<'info>`: the account has signed the transaction.
abbrev pub check_signer : AccountInfo → Result (Unit {0})
check_signer a = constrain a.is_signer AnchorError.account_not_signer

abbrev pub check_optional_signer : Option AccountInfo → Result (Unit {0})
check_optional_signer none = ok tt
check_optional_signer (some a) = check_signer a

pub Result-cases :
    {A : Type 0} (r : Result A) → ((a : A) × (r ≡ ok a)) ⊎ ((e : Error) × (r ≡ err e))
Result-cases (ok a) = inl (a, refl)
Result-cases (err e) = inr (e, refl)
