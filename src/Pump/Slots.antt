-- ===== src/Pump/Slots.antt =====
-- How the accounts of pump.fun's instructions are handed on (`build_pump_ix` and
-- `build_pump_create_ix` of programs/grok_chain_intents/src/instructions/pump.rs).
use grokchain_programs.Base.{
  ℕ, suc, ◌≡◌, ◌≢◌, ◌⊎◌, inl, inr, true, ◌==◌, Option, none, some, List, [], ◌∷◌, All, get_elem?,
  arith, Bool-cases, subst,
}
use grokchain_programs.Common.Checks.{reject_paymaster_in_remaining}
use grokchain_programs.Constants.{pump_user_index, pump_create_user_index, pump_create_mint_index}
use grokchain_programs.Pump.Accounts.{account_at, build_metas, trade_meta, create_meta}
use grokchain_programs.Token.Route.{meta_of}
use grokchain_programs.Runtime.Address.{Pubkey}
use grokchain_programs.Runtime.World.{AccountInfo, AccountMeta, Result, ok}
use grokchain_programs.Runtime.Check.{Result-cases}

-- Two lists of the same length, related position by position; `i` is the position of the first.
abbrev pub Pairwise : {A B : Type 0} → (ℕ → A → B → Type 0) → ℕ → List A → List B → Type 0
Pairwise R i [] [] = Unit
Pairwise R i [] (y ∷ ys) = ⊥
Pairwise R i (x ∷ xs) [] = ⊥
Pairwise R i (x ∷ xs) (y ∷ ys) = R i x y × Pairwise R (suc i) xs ys

-- The account at position `i` is handed on under its own address. In the user's slot it is the
-- trader, who signs and is writable; in the new coin's slot, if there is one, it signs by itself and
-- is writable; elsewhere it has the flags that it has in the transaction.
abbrev pub Handed : Pubkey → ℕ → Option ℕ → ℕ → AccountInfo → AccountMeta → Type 0
Handed trader user minted i a m =
    (m.pubkey ≡ a.key)
    × (((i ≡ user) × (a.key ≡ trader) × (m.is_signer ≡ true) × (m.is_writable ≡ true))
        ⊎ (((minted ≡ some i)
              × (a.is_signer ≡ true)
              × (m.is_signer ≡ true)
              × (m.is_writable ≡ true))
            ⊎ ((i ≢ user)
                × (minted ≢ some i)
                × (m.is_signer ≡ a.is_signer)
                × (m.is_writable ≡ a.is_writable))))

meta_of_lem :
    (a : AccountInfo) (m : AccountMeta)
    → ok (meta_of a) ≡ ok m
    → (m.pubkey ≡ a.key) × (m.is_signer ≡ a.is_signer) × (m.is_writable ≡ a.is_writable)
meta_of_lem a m h = elim (Bool-cases a.is_writable) [
  | inl e ↦ (ground (arith, e, h), ground (arith, e, h), ground (arith, e, h))
  | inr e ↦ (ground (arith, e, h), ground (arith, e, h), ground (arith, e, h))
]

pub trade_meta-Handed :
    (trader : Pubkey) (i : ℕ) (a : AccountInfo) (m : AccountMeta)
    → trade_meta trader i a ≡ ok m
    → Handed trader pump_user_index none i a m
unfolding trade_meta
trade_meta-Handed trader i a m h = elim (Bool-cases (i == pump_user_index)) [
  | inl e ↦ (
    ground (arith, e, h),
    inl (ground (arith, e), ground (arith, e, h), ground (arith, e, h), ground (arith, e, h)),
  )
  | inr e ↦
      let (key, signs, writes) = meta_of_lem a m (ground (arith, e, h)) in
      (key, inr (inr (ground (arith, e), (λ q. cc), signs, writes)))
]

pub create_meta-Handed :
    (trader : Pubkey) (i : ℕ) (a : AccountInfo) (m : AccountMeta)
    → create_meta trader i a ≡ ok m
    → Handed trader pump_create_user_index (some pump_create_mint_index) i a m
unfolding create_meta
create_meta-Handed trader i a m h = elim (Bool-cases (i == pump_create_mint_index)) [
  | inl e ↦ (
    ground (arith, e, h),
    inr (inl (ground (arith, e), ground (arith, e, h), ground (arith, e, h), ground (arith, e, h))),
  )
  | inr d ↦ elim (Bool-cases (i == pump_create_user_index)) [
    | inl e ↦ (
      ground (arith, d, e, h),
      inl (
        ground (arith, e),
        ground (arith, d, e, h),
        ground (arith, d, e, h),
        ground (arith, d, e, h),
      ),
    )
    | inr e ↦
        let (key, signs, writes) = meta_of_lem a m (ground (arith, d, e, h)) in
        (key, inr (inr (ground (arith, e), (λ q. ground (arith, d, q)), signs, writes)))
  ]
]

pub build_metas-Handed :
    (R : ℕ → AccountInfo → AccountMeta → Type 0) (meta : ℕ → AccountInfo → Result AccountMeta)
    → ((i : ℕ) (a : AccountInfo) (m : AccountMeta) → meta i a ≡ ok m → R i a m)
    → (i : ℕ) (accounts : List AccountInfo) (metas : List AccountMeta)
    → build_metas meta i accounts ≡ ok metas
    → Pairwise R i accounts metas
unfolding build_metas
build_metas-Handed R meta each i [] [] h = tt
build_metas-Handed R meta each i [] (m ∷ ms) h = cc
build_metas-Handed R meta each i (a ∷ rest) metas h = elim (Result-cases (meta i a)) [
  | inl (m, e) ↦ elim (Result-cases (build_metas meta (suc i) rest)) [
    | inl (ms, f) ↦
        let same : m ∷ ms ≡ metas = ground (arith, e, f, h) in
        subst (Pairwise R i (a ∷ rest)) same
          (each i a m e, build_metas-Handed R meta each (suc i) rest ms f)
    | inr (x, f) ↦ ground (arith, e, f, h)
  ]
  | inr (x, e) ↦ ground (arith, e, h)
]

-- No account is the paymaster.
abbrev pub AvoidsPaymaster : Option Pubkey → List AccountInfo → Type 0
AvoidsPaymaster none accounts = Unit
AvoidsPaymaster (some pm) accounts = All (λ a. a.key ≢ pm) accounts

pub reject_paymaster-AvoidsPaymaster :
    (accounts : List AccountInfo) (pm : Option Pubkey)
    → reject_paymaster_in_remaining accounts pm ≡ ok tt
    → AvoidsPaymaster pm accounts
unfolding reject_paymaster_in_remaining
reject_paymaster-AvoidsPaymaster accounts none h = tt
reject_paymaster-AvoidsPaymaster [] (some pm) h = tt
reject_paymaster-AvoidsPaymaster (a ∷ rest) (some pm) h =
    (ground arith, reject_paymaster-AvoidsPaymaster rest (some pm) (ground arith))

pub account_at_inv :
    (accounts : List AccountInfo) (i : ℕ) (a : AccountInfo)
    → account_at accounts i ≡ ok a
    → get_elem? accounts i ≡ some a
unfolding account_at
account_at_inv accounts i a h = ground arith
