-- ===== src/Token/Handing.antt =====
-- What an adapter hands to the program that it calls: the remaining accounts, of which only the
-- trader gains a signature.
use grokchain_programs.Base.{
  ◌≡◌, ◌⊎◌, refl, ◌==◌, Option, List, [], ◌∷◌, map, All, All-weaken, arith, inl, inr, Bool-cases,
  subst,
}
use grokchain_programs.Common.Checks.{reject_protected_remaining}
use grokchain_programs.Intents.Isolation.{IsUnprotected, Signed, reject-head}
use grokchain_programs.Token.Route.{jupiter_metas}
use grokchain_programs.Runtime.Address.{Pubkey}
use grokchain_programs.Runtime.World.{AccountInfo, AccountMeta, ok}

-- The account is neither the vault nor the paymaster, and it is the trader or has the flags that
-- the transaction gives it.
abbrev pub Hands : Pubkey → Option Pubkey → Pubkey → List AccountInfo → AccountMeta → Type 0
Hands vault pm trader accounts meta =
    IsUnprotected vault pm meta.pubkey × ((meta.pubkey ≡ trader) ⊎ Signed accounts meta)

later_account :
    (vault : Pubkey) (pm : Option Pubkey) (trader : Pubkey) (a : AccountInfo)
    (rest : List AccountInfo) (meta : AccountMeta)
    → Hands vault pm trader rest meta
    → Hands vault pm trader (a ∷ rest) meta
later_account vault pm trader a rest meta (u, inl t) = (u, inl t)
later_account vault pm trader a rest meta (u, inr s) = (u, inr (inr s))

pub jupiter_metas-Hands :
    (vault : Pubkey) (pm : Option Pubkey) (trader : Pubkey) (accounts : List AccountInfo)
    → reject_protected_remaining accounts vault pm ≡ ok tt
    → All (Hands vault pm trader accounts) (jupiter_metas accounts trader)
jupiter_metas-Hands vault pm trader [] h = tt
jupiter_metas-Hands vault pm trader (a ∷ rest) h =
    let (here, there) = reject-head a rest vault pm h in
    let later =
      All-weaken {Q = Hands vault pm trader (a ∷ rest)} (jupiter_metas rest trader)
        (later_account vault pm trader a rest) (jupiter_metas-Hands vault pm trader rest there) in
    elim (Bool-cases (a.key == trader)) [
      | inl e ↦ rw e ((subst (IsUnprotected vault pm) (ground (arith, e)) here, inl refl), later)
      | inr e ↦ elim (Bool-cases a.is_writable) [
        | inl f ↦ rw (e, f) ((here, inr (inl (refl, refl, ground (arith, f)))), later)
        | inr f ↦ rw (e, f) ((here, inr (inl (refl, refl, ground (arith, f)))), later)
      ]
    ]

-- The accounts stand in the order of the transaction.
pub jupiter_metas-keys :
    (trader : Pubkey) (accounts : List AccountInfo)
    → map (λ m. m.pubkey) (jupiter_metas accounts trader) ≡ map (λ a. a.key) accounts
jupiter_metas-keys trader [] = refl
jupiter_metas-keys trader (a ∷ rest) =
    let later = jupiter_metas-keys trader rest in
    elim (Bool-cases (a.key == trader)) [
      | inl e ↦ ground (arith, e, later)
      | inr e ↦ elim (Bool-cases a.is_writable) [
        | inl f ↦ ground (arith, e, f, later)
        | inr f ↦ ground (arith, e, f, later)
      ]
    ]
