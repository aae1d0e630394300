-- ===== src/Common/Sponsor.antt =====
-- What a vault debit and a reimbursement that succeed have checked and done.
use grokchain_programs.Base.{
  ℕ, ◌+◌, ◌≤◌, ◌<◌, ◌≡◌, ◌⊎◌, inl, inr, refl, true, false, Option, none, some, ◌∷◌, arith, u64_size,
  Bool-cases, ◌==◌,
}
use grokchain_programs.Events.{Event}
use grokchain_programs.State.{Paymaster, SpendVault, paymaster_space, spend_vault_space}
use grokchain_programs.Custody.Laws.{debited}
use grokchain_programs.Custody.{try_debit_program_owned}
use grokchain_programs.Common.{debit_spend_vault, reimburse_sponsor, reimburse_relayer}
use grokchain_programs.Runtime.Address.{Pubkey}
use grokchain_programs.Runtime.World.{World, Runtime, Account, AccountInfo, Grant, ok}

pub debit_spend_vault_inv :
    (rt : Runtime) (vault : Account SpendVault) (dest : Pubkey) (amount : ℕ) (w w' : World)
    → debit_spend_vault rt vault dest amount w ≡ ok (tt, w')
    → (w' ≡ debited vault.key dest amount w)
      × (amount + rt.minimum_balance spend_vault_space ≤ w.lamports vault.key)
      × (w.lamports dest + amount < u64_size)
unfolding debit_spend_vault try_debit_program_owned
debit_spend_vault_inv rt vault dest amount w w' h = ground arith

-- The world after a reimbursement.
abbrev pub reimbursed : Account Grant → Account Paymaster → AccountInfo → ℕ → World → World
reimbursed grant pm fp sponsor w = record (debited pm.key fp.key sponsor w) {
  log = Event.sponsored pm.key fp.key sponsor grant.key grant.value.generation ∷ w.log;
}

-- What a reimbursement of `sponsor` lamports by `pm` to `fp` has checked.
pub record IsReimbursed (rt : Runtime) (grant : Account Grant) (pm : Account Paymaster)
    (fp : AccountInfo) (sponsor : ℕ) (w : World) : Type 0 where
  pub eligible : grant.value.sponsor_eligible ≡ true
  pub running : pm.value.paused ≡ false
  pub relayer : fp.key ≡ pm.value.relayer
  pub covered : sponsor + rt.minimum_balance paymaster_space ≤ w.lamports pm.key

reimburse_relayer_inv :
    (rt : Runtime) (grant : Account Grant) (pm : Account Paymaster) (fp : AccountInfo) (sponsor : ℕ)
    (w w' : World)
    → reimburse_relayer rt grant (some pm) (some fp) sponsor w ≡ ok (tt, w')
    → IsReimbursed rt grant pm fp sponsor w × (w' ≡ reimbursed grant pm fp sponsor w)
unfolding try_debit_program_owned
reimburse_relayer_inv rt grant pm fp sponsor w w' h = ground arith

-- A sponsored intent that succeeds has moved nothing (no sponsor amount), or the relayer was paid.
abbrev pub Reimburses :
    Runtime
    → Account Grant
    → Option (Account Paymaster)
    → Option AccountInfo
    → ℕ
    → World
    → World
    → Type 0
Reimburses rt grant paymaster fee_payer sponsor w w' =
    ((sponsor ≡ 0) × (w' ≡ w))
    ⊎ ((pm : Account Paymaster) × (fp : AccountInfo) × (paymaster ≡ some pm)
        × (fee_payer ≡ some fp)
        × IsReimbursed rt grant pm fp sponsor w
        × (w' ≡ reimbursed grant pm fp sponsor w))

pub reimburse_sponsor_inv :
    (rt : Runtime) (grant : Account Grant) (paymaster : Option (Account Paymaster))
    (fee_payer : Option AccountInfo) (sponsor : ℕ) (w w' : World)
    → reimburse_sponsor rt grant paymaster fee_payer sponsor w ≡ ok (tt, w')
    → Reimburses rt grant paymaster fee_payer sponsor w w'
unfolding reimburse_sponsor
reimburse_sponsor_inv rt grant none fee_payer sponsor w w' h = inl (ground arith)
reimburse_sponsor_inv rt grant (some pm) none sponsor w w' h = inl (ground arith)
reimburse_sponsor_inv rt grant (some pm) (some fp) sponsor w w' h =
    elim (Bool-cases (sponsor == 0)) [
      | inl e ↦ inl (ground arith)
      | inr e ↦
          let (i, r) = reimburse_relayer_inv rt grant pm fp sponsor w w' (ground arith) in
          inr (pm, fp, refl, refl, i, r)
    ]
