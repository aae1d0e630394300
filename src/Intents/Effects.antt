-- ===== src/Intents/Effects.antt =====
-- What an intent that spends from the vault has done when it succeeds.
use grokchain_programs.Base.{ℕ, ◌+◌, ◌≤◌, ◌<◌, ◌≡◌, subst, ap, ◌∙◌, ◌∷◌, arith, u64_size}
use grokchain_programs.CoreCpi.{check_grant}
use grokchain_programs.CoreCpi.Metering.{MetersGrants, metered, check_grant_inv}
use grokchain_programs.Common.{reimburse_sponsor, debit_spend_vault}
use grokchain_programs.Common.Mouth.{Mouth, check_mouth, IsAuthorised, check_mouth_inv}
use grokchain_programs.Common.Sponsor.{debit_spend_vault_inv, reimburse_sponsor_inv, Reimburses}
use grokchain_programs.Common.Checks.{precheck_sponsor, precheck_sponsor_inv}
use grokchain_programs.Constants.{max_sponsor_lamports}
use grokchain_programs.Policy.{require_pay_amount, require_swap_amounts}
use grokchain_programs.Custody.Laws.{debited}
use grokchain_programs.Events.{Event}
use grokchain_programs.State.{PayArgs, SwapArgs, spend_vault_space}
use grokchain_programs.Intents.Pay.{Pay, pay}
use grokchain_programs.Intents.Swap.{Swap, swap}
use grokchain_programs.Runtime.Address.{Pubkey}
use grokchain_programs.Runtime.World.{World, Runtime, ok}
use grokchain_programs.Runtime.Monad.{Action, ◌>>◌, emit, >>-eq-ok, lift-eq-ok}

-- The part that `pay` and `swap` share, and its effect: the grant is metered within its cap, the
-- vault pays the destination above its rent, and the relayer is reimbursed or nothing is.
module _ (rt : Runtime) (m : Mouth) (dest : Pubkey) (amount sponsor : ℕ) (event : Event) where
  abbrev spend : Action (Unit {0})
  spend = do
    check_grant rt m.grok_chain_core_program m.grok_account.key m.grant.key m.agent.key
        m.intents_program amount
    debit_spend_vault rt m.spend_vault dest amount
    reimburse_sponsor rt m.grant m.paymaster m.fee_payer sponsor
    emit event

  pub record Spends (w w' : World) : Type 0 where
    pub within_cap :
        (w.grants m.grant.key).spent_lamports + amount ≤ (w.grants m.grant.key).spend_cap_lamports
    pub above_rent : amount + rt.minimum_balance spend_vault_space ≤ w.lamports m.spend_vault.key
    pub fits : w.lamports dest + amount < u64_size
    pub last : World
    pub reimburses :
        Reimburses rt m.grant m.paymaster m.fee_payer sponsor
          (debited m.spend_vault.key dest amount (metered m.grant.key amount w))
          last
    pub logged : w' ≡ record last { log = event ∷ last.log }

  spend-Spends :
      (w w' : World) → MetersGrants rt → amount < u64_size → spend w ≡ ok (tt, w') → Spends w w'
  spend-Spends w w' core small h =
      let (w1, e1, h1) = >>-eq-ok (check_grant rt _ _ _ _ _ amount) _ h in
      let (w2, e2, h2) = >>-eq-ok (debit_spend_vault rt m.spend_vault dest amount) _ h1 in
      let (w3, e3, h3) =
        >>-eq-ok (reimburse_sponsor rt m.grant m.paymaster m.fee_payer sponsor) _ h2 in
      let (r1, c) = check_grant_inv rt _ _ _ _ _ amount w w1 core small e1 in
      let (r2, above, fits) = debit_spend_vault_inv rt m.spend_vault dest amount w1 w2 e2 in
      let r3 = reimburse_sponsor_inv rt m.grant m.paymaster m.fee_payer sponsor w2 w3 e3 in
      record {
        within_cap = c;
        above_rent =
            subst
              (λ v. amount + rt.minimum_balance spend_vault_space ≤ v.lamports m.spend_vault.key) r1
              above;
        fits = subst (λ v. v.lamports dest + amount < u64_size) r1 fits;
        last = w3;
        reimburses =
            subst (λ v. Reimburses rt m.grant m.paymaster m.fee_payer sponsor v w3)
              (r2 ∙ ap (debited m.spend_vault.key dest amount) r1) r3;
        logged = cc;
      }

-- `pay` that succeeds: the accounts were authorised, the amount was positive, the sponsor's part
-- within its limit, and the money moved as `Spends` says.
pub pay-Spends :
    (rt : Runtime) (ctx : Pay) (args : PayArgs) (w w' : World)
    → MetersGrants rt
    → args.amount_lamports < u64_size
    → pay rt ctx args w ≡ ok (tt, w')
    → IsAuthorised ctx.mouth
      × (0 < args.amount_lamports)
      × (args.sponsor_lamports ≤ max_sponsor_lamports)
      × Spends rt ctx.mouth ctx.recipient args.amount_lamports args.sponsor_lamports
          (Event.paid ctx.spend_vault.key ctx.recipient args.amount_lamports ctx.agent.key
            ctx.grant.key ctx.grant.value.generation)
          w
          w'
unfolding pay
pay-Spends rt ctx args w w' core small h =
    let (c0, h0) = lift-eq-ok (check_mouth rt ctx.mouth) _ h in
    let (c1, h1) = lift-eq-ok (require_pay_amount args.amount_lamports) _ h0 in
    let (c2, h2) =
      lift-eq-ok (precheck_sponsor args.sponsor_lamports ctx.paymaster ctx.fee_payer) _ h1 in
    (
      check_mouth_inv rt ctx.mouth c0,
      unfold require_pay_amount in (ground arith),
      precheck_sponsor_inv args.sponsor_lamports ctx.paymaster ctx.fee_payer c2,
      spend-Spends rt ctx.mouth ctx.recipient args.amount_lamports args.sponsor_lamports _ w w' core
          small h2,
    )

-- The same for `swap`, whose amount is also at least the stated minimum.
pub swap-Spends :
    (rt : Runtime) (ctx : Swap) (args : SwapArgs) (w w' : World)
    → MetersGrants rt
    → args.amount_in_lamports < u64_size
    → swap rt ctx args w ≡ ok (tt, w')
    → IsAuthorised ctx.mouth
      × ((0 < args.amount_in_lamports) × (args.min_out_lamports ≤ args.amount_in_lamports))
      × (args.sponsor_lamports ≤ max_sponsor_lamports)
      × Spends rt ctx.mouth ctx.out_destination args.amount_in_lamports args.sponsor_lamports
          (Event.swapped ctx.spend_vault.key ctx.out_destination args.amount_in_lamports
            args.min_out_lamports ctx.agent.key ctx.grant.key ctx.grant.value.generation)
          w
          w'
unfolding swap
swap-Spends rt ctx args w w' core small h =
    let (c0, h0) = lift-eq-ok (check_mouth rt ctx.mouth) _ h in
    let (c1, h1) =
      lift-eq-ok (require_swap_amounts args.amount_in_lamports args.min_out_lamports) _ h0 in
    let (c2, h2) =
      lift-eq-ok (precheck_sponsor args.sponsor_lamports ctx.paymaster ctx.fee_payer) _ h1 in
    (
      check_mouth_inv rt ctx.mouth c0,
      unfold require_swap_amounts in (ground arith),
      precheck_sponsor_inv args.sponsor_lamports ctx.paymaster ctx.fee_payer c2,
      spend-Spends rt ctx.mouth ctx.out_destination args.amount_in_lamports args.sponsor_lamports _
          w w' core small h2,
    )
