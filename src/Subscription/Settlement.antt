-- ===== src/Subscription/Settlement.antt =====
-- What a subscription payment that succeeds has checked and done.
use grokchain_programs.Base.{ℕ, ◌+◌, ◌≤◌, ◌<◌, ◌≡◌, true, ℤ, ◌<ℤ◌, subst, [], ◌∷◌, u64_size}
use grokchain_programs.CoreCpi.Metering.{MetersGrants, metered, check_grant_inv}
use grokchain_programs.State.{Subscription, PaySubscriptionArgs}
use grokchain_programs.Subscription.Pay.{
  PaySubscription, pay, transfer_of, trader_signer, paid_for, paid_event,
}
use grokchain_programs.Subscription.Period.{current_period}
use grokchain_programs.Runtime.World.{World, Runtime, ok}
use grokchain_programs.Subscription.Parts.{
  IsNamed, IsTokenProgram, IsTransfer, pay-Parts, finish_inv,
}

-- A settled payment: the accounts are those of one grok account and the agent of its grant signed,
-- the period is the current one and was not paid before, the merchant is on the list of this grok
-- account's registry, the tokens go from the trader's account to an account of the merchant's, both
-- owned by the token program that is called, the grant is metered by the amount within its cap, and
-- that program has carried out the transfer that the trader's derived address signed.
pub record IsSettled (rt : Runtime) (ctx : PaySubscription) (period : ℤ) (w w' : World)
    (sub : Subscription) : Type 0 where
  pub named : IsNamed rt ctx
  pub active : ctx.subscription.value.active ≡ true
  pub current :
      current_period rt.unix_timestamp ctx.subscription.value.start_unix
        ctx.subscription.value.period_seconds
      ≡ ok period
  pub unpaid : ctx.subscription.value.last_paid_period <ℤ period
  pub transfer : IsTransfer ctx w
  pub token_program : IsTokenProgram ctx.token_program ctx.source ctx.destination w
  pub within_cap :
      (w.grants ctx.grant.key).spent_lamports + ctx.subscription.value.amount
      ≤ (w.grants ctx.grant.key).spend_cap_lamports
  pub decimals : ℕ
  pub transferred : World
  pub invoked :
      rt.invoke
        (transfer_of ctx decimals)
        (trader_signer rt ctx.grok_account ∷ [])
        (metered ctx.grant.key ctx.subscription.value.amount w)
      ≡ ok transferred
  pub logged : w' ≡ record transferred { log = paid_event ctx period ∷ transferred.log }
  pub advanced : sub ≡ paid_for ctx.subscription.value period

-- Whenever the subscription's `pay` succeeds, on a CORE that keeps its contract and for an amount
-- that is a u64, the payment is settled in the sense of `IsSettled`: the grant, the subscription,
-- the registry and the trader are those of the grok account that is named, the grant's agent
-- signed, the period is the current one and was not paid, the merchant is on the registry's list
-- and owns the destination, the grant has metered the amount within its cap, and one of the two
-- token programs, which owns both token accounts, has succeeded with the transfer that the trader's
-- derived address signed.
pub pay_period-IsSettled :
    (rt : Runtime) (ctx : PaySubscription) (args : PaySubscriptionArgs) (w w' : World)
    (sub : Subscription)
    → MetersGrants rt
    → ctx.subscription.value.amount < u64_size
    → pay rt ctx args w ≡ ok (sub, w')
    → IsSettled rt ctx args.period w w' sub
pay_period-IsSettled rt ctx args w w' sub core small h =
    let p = pay-Parts rt ctx args w w' sub h in
    let (metering, within) = check_grant_inv rt _ _ _ _ _ _ w p.granted core small p.checked in
    let (v, invoked, logged, advanced, owned) =
      finish_inv rt ctx args.period p.decimals p.granted w' sub p.finished in
    record {
      named = p.named;
      active = p.active;
      current = p.current;
      unpaid = p.unpaid;
      transfer = p.transfer;
      token_program =
          subst (IsTokenProgram ctx.token_program ctx.source ctx.destination) metering owned;
      within_cap = within;
      decimals = p.decimals;
      transferred = v;
      invoked =
          subst
            (λ u.
              rt.invoke (transfer_of ctx p.decimals) (trader_signer rt ctx.grok_account ∷ []) u
              ≡ ok v)
            metering invoked;
      logged = logged;
      advanced = advanced;
    }

-- The part of that which needs nothing of CORE.
pub pay_advances :
    (rt : Runtime) (ctx : PaySubscription) (args : PaySubscriptionArgs) (w w' : World)
    (sub : Subscription)
    → pay rt ctx args w ≡ ok (sub, w')
    → (ctx.subscription.value.active ≡ true)
      × (ctx.subscription.value.last_paid_period <ℤ args.period)
      × (sub ≡ paid_for ctx.subscription.value args.period)
pay_advances rt ctx args w w' sub h =
    let p = pay-Parts rt ctx args w w' sub h in
    let (_, _, _, advanced, _) =
      finish_inv rt ctx args.period p.decimals p.granted w' sub p.finished in
    (p.active, p.unpaid, advanced)
