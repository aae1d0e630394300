-- ===== src/Intents/Refusals.antt =====
-- Without CORE's consent nothing is spent; `deploy` spends nothing in any case.
use grokchain_programs.Base.{ℕ, ◌≡◌, ◌≢◌, [], arith, inl, inr}
use grokchain_programs.CoreCpi.{check_grant_ix, check_grant}
use grokchain_programs.CoreCpi.Metering.{MetersGrants, check_grant_inv}
use grokchain_programs.Common.{reimburse_sponsor}
use grokchain_programs.Common.Checks.{precheck_sponsor}
use grokchain_programs.Common.Mouth.{Mouth, check_mouth}
use grokchain_programs.Common.Sponsor.{reimburse_sponsor_inv}
use grokchain_programs.Intents.Pay.{Pay, pay}
use grokchain_programs.Intents.Deploy.{deploy}
use grokchain_programs.Intents.Balances.{ForSponsor}
use grokchain_programs.Policy.{require_pay_amount, deploy_check_grant_amount}
use grokchain_programs.State.{PayArgs, DeployArgs}
use grokchain_programs.Runtime.Address.{Pubkey}
use grokchain_programs.Runtime.World.{World, Runtime, ok, err, Error}
use grokchain_programs.Runtime.Monad.{>>-eq-ok, lift-eq-ok}

check_grant_refused :
    (rt : Runtime) (core grok grant agent target : Pubkey) (amount : ℕ) (e : Error) (w w' : World)
    → rt.invoke (check_grant_ix rt grok grant agent target amount) [] w ≡ err e
    → ¬ (check_grant rt core grok grant agent target amount w ≡ ok (tt, w'))
unfolding check_grant
check_grant_refused rt core grok grant agent target amount e w w' refused h = ground arith

-- When CORE refuses the spend, with whatever error, `pay` does not succeed.
pub pay_refused :
    (rt : Runtime) (ctx : Pay) (args : PayArgs) (e : Error) (w w' : World)
    → rt.invoke
        (check_grant_ix rt ctx.mouth.grok_account.key ctx.mouth.grant.key ctx.mouth.agent.key
          ctx.mouth.intents_program args.amount_lamports)
        []
        w
      ≡ err e
    → ¬ (pay rt ctx args w ≡ ok (tt, w'))
unfolding pay
pay_refused rt ctx args e w w' refused h =
    let (c0, h0) = lift-eq-ok (check_mouth rt ctx.mouth) _ h in
    let (c1, h1) = lift-eq-ok (require_pay_amount args.amount_lamports) _ h0 in
    let (c2, h2) =
      lift-eq-ok (precheck_sponsor args.sponsor_lamports ctx.paymaster ctx.fee_payer) _ h1 in
    let (v, e3, _) = >>-eq-ok (check_grant rt _ _ _ _ _ args.amount_lamports) _ h2 in
    check_grant_refused rt _ _ _ _ _ _ e w v refused e3

-- `deploy` that succeeds, on a CORE that keeps its contract, meters nothing: the grant's counter
-- and the vault's balance are as they were, when the vault is not one of the sponsor's accounts.
pub deploy_spends_nothing :
    (rt : Runtime) (m : Mouth) (args : DeployArgs) (w w' : World)
    → MetersGrants rt
    → ForSponsor m (λ pm fp. (m.spend_vault.key ≢ pm) × (m.spend_vault.key ≢ fp))
    → deploy rt m args w ≡ ok (tt, w')
    → ((w'.grants m.grant.key).spent_lamports ≡ (w.grants m.grant.key).spent_lamports)
      × (w'.lamports m.spend_vault.key ≡ w.lamports m.spend_vault.key)
unfolding deploy
deploy_spends_nothing rt m args w w' core apart h =
    let (_, h0) = lift-eq-ok (check_mouth rt m) _ h in
    let (_, h1) =
      lift-eq-ok (precheck_sponsor args.sponsor_lamports m.paymaster m.fee_payer) _ h0 in
    let (w1, e1, h2) = >>-eq-ok (check_grant rt _ _ _ _ _ deploy_check_grant_amount) _ h1 in
    let (w2, e2, h3) = >>-eq-ok (reimburse_sponsor rt m.grant m.paymaster m.fee_payer _) _ h2 in
    let (r1, _) = check_grant_inv rt _ _ _ _ _ 0 w w1 core (ground arith) e1 in
    let r2 = reimburse_sponsor_inv rt m.grant m.paymaster m.fee_payer _ w1 w2 e2 in
    elim r2 [
      | inl (_, r) ↦ ground (arith, r, r1, h3)
      | inr (pm, fp, p, f, _, r) ↦ ground (arith, r, r1, h3, apart pm fp p f)
    ]
