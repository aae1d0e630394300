-- ===== src/Subscription/Lifecycle.antt =====
-- Creating, and the payments that are refused.
use grokchain_programs.Base.{
  ◌<◌, ◌≡◌, refl, true, pos, ◌<ℤ◌, ◌≤ℤ◌, contains, arith, inl, inr, Option,
}
use grokchain_programs.Errors.{subscription_already_paid}
use grokchain_programs.Common.Root.{Root, check_root, IsRoot, check_root-IsRoot}
use grokchain_programs.Common.Checks.{precheck_sponsor}
use grokchain_programs.Policy.{require_sponsor_accounts, require_sponsor_cap}
use grokchain_programs.Common.Mouth.{check_grok_account}
use grokchain_programs.Common.Ownership.{IsAccountOfRoot, Belongs}
use grokchain_programs.Common.Root.{check_derived}
use grokchain_programs.Constants.{seed_merchants, intents_id}
use grokchain_programs.Subscription.Manage.{check_registry, subscription_seeds}
use grokchain_programs.State.{Subscription, SubscriptionArgs, PaySubscriptionArgs, Paymaster}
use grokchain_programs.Subscription.Manage.{CreateSubscription, create}
use grokchain_programs.Subscription.Period.{current_period, min_period_seconds}
use grokchain_programs.Subscription.Pay.{PaySubscription, pay, check_pay, payable_period}
use grokchain_programs.Runtime.World.{World, Runtime, Account, AccountInfo, ok, err, intents}
use grokchain_programs.Runtime.Check.{Result-cases}

-- A subscription as `create` makes it: the root of the grok account that is named has signed, the
-- subscription records that root and that account and stands at the address that the account, the
-- merchant and the mint derive, the merchant is on the list of the account's registry, the charge is positive and comes at most once a day, nothing is charged for the past,
-- and no period is paid yet, so that period 0 is the first that can be.
pub record IsCreated (rt : Runtime) (ctx : CreateSubscription) (args : SubscriptionArgs)
    (sub : Subscription) : Type 0 where
  pub by_root : IsRoot ctx.signed
  pub account_of_root : IsAccountOfRoot rt ctx.grok_account
  pub root : sub.root ≡ ctx.root.key
  pub account : sub.grok_account ≡ ctx.grok_account.key
  pub derived :
      (ctx.subscription, sub.bump)
      ≡ rt.find_program_address
          (subscription_seeds ctx.grok_account.key sub.merchant sub.mint)
          intents_id
  pub registry :
      Belongs rt seed_merchants ctx.grok_account ctx.merchant_registry.key
        ctx.merchant_registry.value.bump ctx.merchant_registry.value.grok_account
  pub approved : contains sub.merchant ctx.merchant_registry.value.merchants ≡ true
  pub registered : ctx.merchant_registry.value.mint ≡ sub.mint
  pub merchant : sub.merchant ≡ args.merchant
  pub mint : sub.mint ≡ ctx.mint
  pub amount : sub.amount ≡ args.amount
  pub positive : 0 < sub.amount
  pub period : sub.period_seconds ≡ args.period_seconds
  pub slow : min_period_seconds ≤ℤ sub.period_seconds
  pub not_past : rt.unix_timestamp ≤ℤ sub.start_unix
  pub not_before : args.start_unix ≤ℤ sub.start_unix
  pub unpaid : sub.last_paid_period <ℤ pos 0
  pub none_paid : sub.payments ≡ 0
  pub active : sub.active ≡ true

root-account :
    (rt : Runtime) (r : Root) → check_root rt r ≡ ok tt → IsAccountOfRoot rt r.grok_account
unfolding check_root check_grok_account
root-account rt r h = ground arith

create_root :
    (rt : Runtime) (ctx : CreateSubscription) (args : SubscriptionArgs) (w w' : World)
    (sub : Subscription)
    → create rt ctx args w ≡ ok (sub, w')
    → check_root rt ctx.signed ≡ ok tt
unfolding create
create_root rt ctx args w w' sub h = elim (Result-cases (check_root rt ctx.signed)) [
  | inl (_, e) ↦ e
  | inr (x, e) ↦ absurd (ground (arith, e, h))
]

create_derived :
    (rt : Runtime) (ctx : CreateSubscription) (args : SubscriptionArgs) (w w' : World)
    (sub : Subscription)
    → create rt ctx args w ≡ ok (sub, w')
    → (ctx.subscription, sub.bump)
      ≡ rt.find_program_address
          (subscription_seeds ctx.grok_account.key sub.merchant sub.mint)
          intents_id
unfolding create check_derived
create_derived rt ctx args w w' sub h = ground arith

create_registry :
    (rt : Runtime) (ctx : CreateSubscription) (args : SubscriptionArgs) (w w' : World)
    (sub : Subscription)
    → create rt ctx args w ≡ ok (sub, w')
    → Belongs rt seed_merchants ctx.grok_account ctx.merchant_registry.key
        ctx.merchant_registry.value.bump ctx.merchant_registry.value.grok_account
unfolding create check_registry
create_registry rt ctx args w w' sub h = (ground arith, ground arith)

-- Whenever `create` succeeds, the subscription is as `IsCreated` says: it records the root who
-- signed and the grok account of that root, it stands at the address derived for the account, the
-- merchant and the mint, the merchant and the mint are those of the account's registry, the amount
-- is positive and due at most once a day, from no earlier than now, and it is active with no period
-- paid.
pub create-IsCreated :
    (rt : Runtime) (ctx : CreateSubscription) (args : SubscriptionArgs) (w w' : World)
    (sub : Subscription)
    → create rt ctx args w ≡ ok (sub, w')
    → IsCreated rt ctx args sub
unfolding create
create-IsCreated rt ctx args w w' sub h = record {
  by_root = check_root-IsRoot rt ctx.signed (create_root rt ctx args w w' sub h);
  account_of_root = root-account rt ctx.signed (create_root rt ctx args w w' sub h);
  root = ground arith;
  account = ground arith;
  derived = create_derived rt ctx args w w' sub h;
  registry = create_registry rt ctx args w w' sub h;
  approved = ground arith;
  registered = ground arith;
  merchant = ground arith;
  mint = ground arith;
  amount = ground arith;
  positive = ground arith;
  period = ground arith;
  slow = ground arith;
  not_past = ground arith;
  not_before = ground arith;
  unpaid = ground arith;
  none_paid = ground arith;
  active = ground arith;
}

-- On accounts that pass Anchor's checks and for an active subscription, a retry for the current
-- period when it is already paid is refused with `SubscriptionAlreadyPaid`.
pub pay_already_paid :
    (rt : Runtime) (ctx : PaySubscription) (args : PaySubscriptionArgs) (w : World)
    → check_pay rt ctx w ≡ ok (tt, w)
    → ctx.subscription.value.active ≡ true
    → current_period rt.unix_timestamp ctx.subscription.value.start_unix
        ctx.subscription.value.period_seconds
      ≡ ok args.period
    → args.period ≤ℤ ctx.subscription.value.last_paid_period
    → pay rt ctx args w ≡ err (intents subscription_already_paid)
unfolding pay payable_period
pay_already_paid rt ctx args w checked active current paid = ground arith

precheck_sponsor_zero :
    (paymaster : Option (Account Paymaster)) (fee_payer : Option AccountInfo)
    → precheck_sponsor 0 paymaster fee_payer ≡ ok tt
unfolding precheck_sponsor require_sponsor_accounts require_sponsor_cap
precheck_sponsor_zero paymaster fee_payer = refl

-- A subscription payment that succeeds has the same result, world and events included, as the same
-- payment with no sponsor's part: nobody is reimbursed.
pub pay_ignores_sponsor :
    (rt : Runtime) (ctx : PaySubscription) (args : PaySubscriptionArgs) (w : World)
    (r : Subscription × World)
    → pay rt ctx args w ≡ ok r
    → pay rt ctx (record args { sponsor_lamports = 0 }) w ≡ ok r
unfolding pay
pay_ignores_sponsor rt ctx args w r h =
    let free = precheck_sponsor_zero ctx.paymaster ctx.fee_payer in
    elim (Result-cases (check_pay rt ctx w)) [
      | inr (x, e) ↦ ground (arith, e, h)
      | inl (v, e) ↦
          elim (Result-cases
            (payable_period ctx.subscription.value args.period rt.unix_timestamp)) [
              | inr (x, f) ↦ ground (arith, e, f, h)
              | inl (p, f) ↦
                  elim (Result-cases
                    (precheck_sponsor args.sponsor_lamports ctx.paymaster ctx.fee_payer)) [
                      | inr (x, g) ↦ ground (arith, e, f, g, h)
                      | inl (u, g) ↦ ground (arith, e, f, g, free, h)
                    ]
            ]
    ]
