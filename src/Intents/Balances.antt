-- ===== src/Intents/Balances.antt =====
-- The balances and the grant after an intent that spends.
use grokchain_programs.Base.{
  ℕ, ◌+◌, ◌≤◌, ◌≡◌, ◌≢◌, true, inl, inr, some, List, arith, contains, ◌∙◌,
}
use grokchain_programs.CoreCpi.Metering.{metered}
use grokchain_programs.Common.Mouth.{Mouth}
use grokchain_programs.Custody.Laws.{debited}
use grokchain_programs.Custody.Totals.{Distinct, sum_of, total-debited}
use grokchain_programs.Events.{Event}
use grokchain_programs.State.{Paymaster, spend_vault_space}
use grokchain_programs.Intents.Effects.{Spends}
use grokchain_programs.Runtime.Address.{Pubkey}
use grokchain_programs.Runtime.World.{World, Runtime, Account, AccountInfo}

-- The sponsor's accounts, when both are given, have a property.
abbrev pub ForSponsor {ℓ} : Mouth → (Pubkey → Pubkey → Type ℓ) → Type ℓ
ForSponsor m P =
    (pm : Account Paymaster) (fp : AccountInfo)
    → m.paymaster ≡ some pm
    → m.fee_payer ≡ some fp
    → P pm.key fp.key

module _ (rt : Runtime) (m : Mouth) (dest : Pubkey) (amount sponsor : ℕ) (event : Event)
    (w w' : World) (s : Spends rt m dest amount sponsor event w w') where
  -- Reimbursing a sponsor touches no grant.
  pub Spends-metered :
      ((w'.grants m.grant.key).spent_lamports ≡ (w.grants m.grant.key).spent_lamports + amount)
      × ((w'.grants m.grant.key).spent_lamports ≤ (w'.grants m.grant.key).spend_cap_lamports)
  Spends-metered = elim s.reimburses [
    | inl (_, r) ↦ rw (s.logged, r) (ground (arith, s.within_cap))
    | inr (pm, fp, _, _, _, r) ↦ rw (s.logged, r) (ground (arith, s.within_cap))
  ]

  pub Spends-cap :
      (w'.grants m.grant.key).spend_cap_lamports ≡ (w.grants m.grant.key).spend_cap_lamports
  Spends-cap = elim s.reimburses [
    | inl (_, r) ↦ rw (s.logged, r) (ground arith)
    | inr (pm, fp, _, _, _, r) ↦ rw (s.logged, r) (ground arith)
  ]

  -- The vault pays exactly the amount, and keeps its rent.
  pub Spends-vault :
      m.spend_vault.key ≢ dest
      → ForSponsor m (λ pm fp. (m.spend_vault.key ≢ pm) × (m.spend_vault.key ≢ fp))
      → (w'.lamports m.spend_vault.key + amount ≡ w.lamports m.spend_vault.key)
        × (rt.minimum_balance spend_vault_space ≤ w'.lamports m.spend_vault.key)
  Spends-vault ne apart = elim s.reimburses [
    | inl (_, r) ↦ rw (s.logged, r) (ground (arith, s.above_rent))
    | inr (pm, fp, p, f, _, r) ↦ rw (s.logged, r) (ground (arith, s.above_rent, apart pm fp p f))
  ]

  -- No other account changes its balance.
  pub Spends-others :
      (k : Pubkey)
      → k ≢ m.spend_vault.key
      → k ≢ dest
      → ForSponsor m (λ pm fp. (k ≢ pm) × (k ≢ fp))
      → w'.lamports k ≡ w.lamports k
  Spends-others k v d apart = elim s.reimburses [
    | inl (_, r) ↦ rw (s.logged, r) (ground arith)
    | inr (pm, fp, p, f, _, r) ↦ rw (s.logged, r) (ground (arith, apart pm fp p f))
  ]

  -- Over any accounts that include those involved, the total is conserved.
  pub Spends-total :
      (ks : List Pubkey)
      → Distinct ks
      → contains m.spend_vault.key ks ≡ true
      → contains dest ks ≡ true
      → m.spend_vault.key ≢ dest
      → ForSponsor m (λ pm fp. (contains pm ks ≡ true) × (contains fp ks ≡ true) × (pm ≢ fp))
      → sum_of ks w'.lamports ≡ sum_of ks w.lamports
  Spends-total ks d v t ne apart = elim s.reimburses [
    | inl (_, r) ↦
        rw (s.logged, r) (paid (metered m.grant.key amount w) (ground (arith, s.above_rent)))
    | inr (pm, fp, p, f, i, r) ↦
        let (hp, hf, hne) = apart pm fp p f in
        rw (s.logged, r)
          (total-debited ks pm.key fp.key sponsor
              (debited m.spend_vault.key dest amount (metered m.grant.key amount w)) d hp hf hne
              (omega (arith, i.covered))
            ∙ paid (metered m.grant.key amount w) (ground (arith, s.above_rent)))
  ]
    where
      paid :
          (v : World)
          → amount ≤ v.lamports m.spend_vault.key
          → sum_of ks (debited m.spend_vault.key dest amount v).lamports ≡ sum_of ks v.lamports
      paid v' le = total-debited ks m.spend_vault.key dest amount v' d v t ne le
