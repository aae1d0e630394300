-- ===== src/Custodians/Laws.antt =====
-- Only the root takes lamports out of the vault and the paymaster, and never below their rent; and
-- a paused paymaster sponsors nothing.
use grokchain_programs.Base.{
  ℕ, ◌+◌, ◌≤◌, ◌<◌, ◌≡◌, ◌≢◌, true, some, arith, u64_size, inl, inr, ltb, subst, ap,
}
use grokchain_programs.Errors.{IntentsError, zero_amount}
use grokchain_programs.Common.Root.{check_root, IsRoot, check_root-IsRoot}
use grokchain_programs.CoreCpi.Metering.{MetersGrants}
use grokchain_programs.Custodians.Vault.{
  ManageSpendVault, withdraw_spend_vault, check_manage_spend_vault,
}
use grokchain_programs.Custodians.Sponsor.{
  ManagePaymaster, withdraw_paymaster, check_manage_paymaster, pause,
}
use grokchain_programs.Custody.{try_debit_program_owned}
use grokchain_programs.Events.{Event}
use grokchain_programs.Intents.Effects.{pay-Spends}
use grokchain_programs.Intents.Pay.{Pay, pay}
use grokchain_programs.Common.Ownership.{Belongs}
use grokchain_programs.Constants.{seed_spend_vault, seed_paymaster}
use grokchain_programs.State.{PayArgs, Paymaster, spend_vault_space, paymaster_space}
use grokchain_programs.Runtime.Address.{Pubkey}
use grokchain_programs.Runtime.World.{World, Runtime, ok}
use grokchain_programs.Runtime.Check.{Result-cases}
use grokchain_programs.Runtime.Monad.{Action, ◌>>=◌, ◌>>◌, require, emit, >>=-eq-ok}

-- The vault is the one that the root who signed may manage: it belongs to the root's grok account,
-- and records the root.
abbrev pub RunsVault : Runtime → ManageSpendVault → Type 0
RunsVault rt ctx =
    IsRoot ctx.signed
    × Belongs rt seed_spend_vault ctx.grok_account ctx.spend_vault.key ctx.spend_vault.value.bump
        ctx.spend_vault.value.grok_account
    × (ctx.spend_vault.value.root ≡ ctx.root.key)

-- The same for the paymaster.
abbrev pub RunsPaymaster : Runtime → ManagePaymaster → Type 0
RunsPaymaster rt ctx =
    IsRoot ctx.signed
    × Belongs rt seed_paymaster ctx.grok_account ctx.paymaster.key ctx.paymaster.value.bump
        ctx.paymaster.value.grok_account
    × (ctx.paymaster.value.root ≡ ctx.root.key)

pub check_manage_spend_vault-RunsVault :
    (rt : Runtime) (ctx : ManageSpendVault) (w w' : World)
    → check_manage_spend_vault rt ctx w ≡ ok (tt, w')
    → RunsVault rt ctx × (w' ≡ w)
unfolding check_manage_spend_vault
check_manage_spend_vault-RunsVault rt ctx w w' h = elim (Result-cases (check_root rt ctx.signed)) [
  | inl (_, e) ↦ (
    (
      check_root-IsRoot rt ctx.signed e,
      (ground (arith, e, h), ground (arith, e, h)),
      ground (arith, e, h),
    ),
    ground (arith, e, h),
  )
  | inr (x, e) ↦ ground (arith, e, h)
]

pub check_manage_paymaster-RunsPaymaster :
    (rt : Runtime) (ctx : ManagePaymaster) (w w' : World)
    → check_manage_paymaster rt ctx w ≡ ok (tt, w')
    → RunsPaymaster rt ctx × (w' ≡ w)
unfolding check_manage_paymaster
check_manage_paymaster-RunsPaymaster rt ctx w w' h =
    elim (Result-cases (check_root rt ctx.signed)) [
      | inl (_, e) ↦ (
        (
          check_root-IsRoot rt ctx.signed e,
          (ground (arith, e, h), ground (arith, e, h)),
          ground (arith, e, h),
        ),
        ground (arith, e, h),
      )
      | inr (x, e) ↦ ground (arith, e, h)
    ]

-- The part that both withdrawals share.
abbrev take_out : Pubkey → Pubkey → ℕ → ℕ → IntentsError → Event → Action (Unit {0})
take_out from to lamports floor refusal event = do
  require (ltb 0 lamports) zero_amount
  paid ← try_debit_program_owned from to lamports floor
  require paid refusal
  emit event

-- Lamports taken out of one account for another: the amount is positive, the payer keeps its floor
-- and has exactly the amount less, the other exactly the amount more, and an account apart from
-- the two keeps its balance.
abbrev pub TakesOut : Pubkey → Pubkey → ℕ → ℕ → Pubkey → World → World → Type 0
TakesOut from to lamports floor k w w' =
    (0 < lamports)
    × (w'.lamports from + lamports ≡ w.lamports from)
    × (floor ≤ w'.lamports from)
    × (w'.lamports to ≡ w.lamports to + lamports)
    × (w'.lamports k ≡ w.lamports k)

take_out_inv :
    (from to : Pubkey) (lamports floor : ℕ) (refusal : IntentsError) (event : Event) (k : Pubkey)
    (w w' : World)
    → from ≢ to
    → k ≢ from
    → k ≢ to
    → take_out from to lamports floor refusal event w ≡ ok (tt, w')
    → TakesOut from to lamports floor k w w'
unfolding try_debit_program_owned
take_out_inv from to lamports floor refusal event k w w' apart other other' h = ground arith

-- A withdrawal from the vault that succeeds, when the vault is not the root's own account: the root
-- signed, the vault belongs to the root's grok account, the amount is positive, the vault has exactly the amount less and keeps its rent, the
-- root has exactly the amount more, and an account apart from both keeps its balance.
pub withdraw_spend_vault-TakesOut :
    (rt : Runtime) (ctx : ManageSpendVault) (lamports : ℕ) (k : Pubkey) (w w' : World)
    → ctx.spend_vault.key ≢ ctx.root.key
    → k ≢ ctx.spend_vault.key
    → k ≢ ctx.root.key
    → withdraw_spend_vault rt ctx lamports w ≡ ok (tt, w')
    → RunsVault rt ctx
      × TakesOut ctx.spend_vault.key ctx.root.key lamports
          (rt.minimum_balance spend_vault_space)
          k
          w
          w'
unfolding withdraw_spend_vault
withdraw_spend_vault-TakesOut rt ctx lamports k w w' apart other other' h =
    let (_, w1, e1, h1) = >>=-eq-ok (check_manage_spend_vault rt ctx) _ h in
    let (root, same) = check_manage_spend_vault-RunsVault rt ctx w w1 e1 in
    (
      root,
      subst
          (λ v.
            TakesOut ctx.spend_vault.key ctx.root.key lamports
              (rt.minimum_balance spend_vault_space) k v w')
          same (take_out_inv _ _ lamports _ _ _ k w1 w' apart other other' h1),
    )

-- A withdrawal from the paymaster that succeeds, when the paymaster is not the root's own account:
-- the root signed, the paymaster belongs to the root's grok account, the amount is positive, the paymaster has exactly the amount less and keeps its
-- rent, the root has exactly the amount more, and an account apart from both keeps its balance.
pub withdraw_paymaster-TakesOut :
    (rt : Runtime) (ctx : ManagePaymaster) (lamports : ℕ) (k : Pubkey) (w w' : World)
    → ctx.paymaster.key ≢ ctx.root.key
    → k ≢ ctx.paymaster.key
    → k ≢ ctx.root.key
    → withdraw_paymaster rt ctx lamports w ≡ ok (tt, w')
    → RunsPaymaster rt ctx
      × TakesOut ctx.paymaster.key ctx.root.key lamports (rt.minimum_balance paymaster_space) k w w'
unfolding withdraw_paymaster
withdraw_paymaster-TakesOut rt ctx lamports k w w' apart other other' h =
    let (_, w1, e1, h1) = >>=-eq-ok (check_manage_paymaster rt ctx) _ h in
    let (root, same) = check_manage_paymaster-RunsPaymaster rt ctx w w1 e1 in
    (
      root,
      subst
          (λ v.
            TakesOut ctx.paymaster.key ctx.root.key lamports (rt.minimum_balance paymaster_space) k
              v w')
          same (take_out_inv _ _ lamports _ _ _ k w1 w' apart other other' h1),
    )

pause_inv :
    (rt : Runtime) (ctx : ManagePaymaster) (w w' : World) (pm : Paymaster)
    → pause rt ctx w ≡ ok (pm, w')
    → pm.paused ≡ true
unfolding pause
pause_inv rt ctx w w' pm h = ground arith

-- Once the root has paused the paymaster, no `pay` that uses it and asks for a reimbursement
-- succeeds, in whatever world, on a CORE that keeps its contract and for an amount that is a u64.
pub pause-pay :
    (rt rt' : Runtime) (admin : ManagePaymaster) (pm : Paymaster) (ctx : Pay) (args : PayArgs)
    (v v' w w' : World)
    → MetersGrants rt'
    → args.amount_lamports < u64_size
    → 0 < args.sponsor_lamports
    → pause rt admin v ≡ ok (pm, v')
    → ctx.mouth.paymaster ≡ some (record admin.paymaster { value = pm })
    → ¬ (pay rt' ctx args w ≡ ok (tt, w'))
pause-pay rt rt' admin pm ctx args v v' w w' core small asked paused used h =
    let (_, _, _, s) = pay-Spends rt' ctx args w w' core small h in
    let stopped = pause_inv rt admin v v' pm paused in
    elim s.reimburses [
      | inl (nothing, _) ↦ absurd (omega (arith, nothing, asked))
      | inr (p, fp, e, _, i, _) ↦
          let same : p.value ≡ pm = ground (arith, e, used) in
          ground (arith, i.running, ap (λ x. x.paused) same, stopped)
    ]
