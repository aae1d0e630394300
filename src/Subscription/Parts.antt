-- ===== src/Subscription/Parts.antt =====
-- The parts of a subscription payment that succeeds, taken from `pay`.
use grokchain_programs.Base.{
  ℕ, ◌≤◌, ◌≡◌, true, ℤ, ◌<ℤ◌, eq_of_parts, ◌∙◌, ap, sym, subst, [], ◌∷◌, contains, arith, inl, inr,
  ◌⊎◌,
}
use grokchain_programs.Common.Mouth.{seed_grant, check_grok_account, check_grant_account}
use grokchain_programs.Common.Checks.{precheck_sponsor}
use grokchain_programs.CoreCpi.{check_grant}
use grokchain_programs.Common.Ownership.{IsAccountOfRoot, Belongs}
use grokchain_programs.Constants.{
  token_program_id, token_2022_program_id, seed_merchants, seed_pump_trader, intents_id,
}
use grokchain_programs.Subscription.Manage.{check_registry, check_subscription, subscription_seeds}
use grokchain_programs.State.{Subscription, PaySubscriptionArgs}
use grokchain_programs.Subscription.Pay.{
  PaySubscription, pay, check_pay, payable_period, check_transfer, check_token_program, transfer_of,
  trader_signer, paid_for, paid_event,
}
use grokchain_programs.Subscription.Period.{current_period}
use grokchain_programs.Subscription.TokenAccount.{token_account_fields, mint_decimals, fields_of}
use grokchain_programs.Runtime.Address.{Pubkey, text, address}
use grokchain_programs.Runtime.World.{World, Runtime, Result, ok, err}
use grokchain_programs.Runtime.Check.{Result-cases}
use grokchain_programs.Runtime.Monad.{Action, ◌>>◌, lift, emit, pure, invoke_signed, >>=-eq-ok}

pub payable_period_inv :
    (sub : Subscription) (period now p : ℤ)
    → payable_period sub period now ≡ ok p
    → (sub.active ≡ true)
      × (current_period now sub.start_unix sub.period_seconds ≡ ok p)
      × (period ≡ p)
      × (sub.last_paid_period <ℤ p)
unfolding payable_period
payable_period_inv sub period now p h =
    elim (Result-cases (current_period now sub.start_unix sub.period_seconds)) [
      | inl (c, e) ↦ (
        ground (arith, e),
        e ∙ ground (arith, e),
        eq_of_parts period p (ground (arith, e)),
        ground (arith, e),
      )
      | inr (x, e) ↦ ground (arith, e)
    ]

-- The payment's conditions on the accounts it moves tokens between.
pub record IsTransfer (ctx : PaySubscription) (w : World) : Type 0 where
  pub approved :
      contains ctx.subscription.value.merchant ctx.merchant_registry.value.merchants ≡ true
  pub registered : ctx.merchant_registry.value.mint ≡ ctx.subscription.value.mint
  pub source_mint : (fields_of (w.bytes ctx.source)).mint ≡ ctx.subscription.value.mint
  pub source_owner : (fields_of (w.bytes ctx.source)).owner ≡ ctx.pump_trader
  pub covered : ctx.subscription.value.amount ≤ (fields_of (w.bytes ctx.source)).amount
  pub destination_mint : (fields_of (w.bytes ctx.destination)).mint ≡ ctx.subscription.value.mint
  pub destination_owner :
      (fields_of (w.bytes ctx.destination)).owner ≡ ctx.subscription.value.merchant

token_account_fields_inv :
    (k : Pubkey) (w w' : World) (f : _)
    → token_account_fields k w ≡ ok (f, w')
    → (f ≡ fields_of (w.bytes k)) × (w' ≡ w)
unfolding token_account_fields
token_account_fields_inv k w w' f h = ground arith

mint_decimals_inv : (k : Pubkey) (w w' : World) (d : ℕ) → mint_decimals k w ≡ ok (d, w') → w' ≡ w
unfolding mint_decimals
mint_decimals_inv k w w' d h = ground arith

check_transfer_inv :
    (ctx : PaySubscription) (w w' : World) (decimals : ℕ)
    → check_transfer ctx w ≡ ok (decimals, w')
    → IsTransfer ctx w × (w' ≡ w)
unfolding check_transfer token_account_fields mint_decimals
check_transfer_inv ctx w w' d h = (
  record {
    approved = ground arith;
    registered = ground arith;
    source_mint = ground arith;
    source_owner = ground arith;
    covered = ground arith;
    destination_mint = ground arith;
    destination_owner = ground arith;
  },
  ground arith,
)

-- The accounts of a payment are those of one grok account, which CORE derives for its root: the agent signed and holds its grant,
-- and the subscription, the registry and the trader are derived from it.
pub record IsNamed (rt : Runtime) (ctx : PaySubscription) : Type 0 where
  pub account : IsAccountOfRoot rt ctx.grok_account
  pub signed : ctx.agent.is_signer ≡ true
  pub grant_key :
      ctx.grant.key
      ≡ rt.create_program_address
          (text seed_grant ∷ address ctx.grok_account.key ∷ address ctx.agent.key ∷ [])
          ctx.grant.value.bump
          rt.core_id
  pub grant_agent : ctx.grant.value.agent ≡ ctx.agent.key
  pub grant_account : ctx.grant.value.grok_account ≡ ctx.grok_account.key
  pub subscription_key :
      ctx.subscription.key
      ≡ rt.create_program_address
          (subscription_seeds ctx.grok_account.key ctx.subscription.value.merchant
            ctx.subscription.value.mint)
          ctx.subscription.value.bump
          intents_id
  pub subscription_account : ctx.subscription.value.grok_account ≡ ctx.grok_account.key
  pub registry :
      Belongs rt seed_merchants ctx.grok_account ctx.merchant_registry.key
        ctx.merchant_registry.value.bump ctx.merchant_registry.value.grok_account
  pub trader :
      ctx.pump_trader
      ≡ (rt.find_program_address
          (text seed_pump_trader ∷ address ctx.grok_account.key ∷ [])
          intents_id).0

check_pay_inv :
    (rt : Runtime) (ctx : PaySubscription) (w w' : World)
    → check_pay rt ctx w ≡ ok (tt, w')
    → IsNamed rt ctx × (w' ≡ w)
unfolding check_pay check_grant_account check_grok_account check_subscription check_registry
check_pay_inv rt ctx w w' h = (
  record {
    account = ground arith;
    signed = ground arith;
    grant_key = ground arith;
    grant_agent = ground arith;
    grant_account = ground arith;
    subscription_key = ground arith;
    subscription_account = ground arith;
    registry = (ground arith, ground arith);
    trader = ground arith;
  },
  ground arith,
)

-- The program that is called is one of the two token programs, and it owns both token accounts.
abbrev pub IsTokenProgram : Pubkey → Pubkey → Pubkey → World → Type 0
IsTokenProgram program source destination w =
    ((program ≡ token_program_id) ⊎ (program ≡ token_2022_program_id))
    × (w.owner source ≡ program)
    × (w.owner destination ≡ program)

check_token_program_inv :
    (ctx : PaySubscription) (w w' : World)
    → check_token_program ctx w ≡ ok (tt, w')
    → IsTokenProgram ctx.token_program ctx.source ctx.destination w × (w' ≡ w)
unfolding check_token_program
check_token_program_inv ctx w w' h = (ground arith, ground arith)

lift_inv :
    {A : Type 0} (r : Result A) (w w' : World) (a : A)
    → lift r w ≡ ok (a, w')
    → (r ≡ ok a) × (w' ≡ w)
lift_inv (ok b) w w' a h = (ground (arith, h), ground (arith, h))
lift_inv (err e) w w' a h = cc

-- The last part of `pay`, once the grant is metered.
abbrev pub finish : Runtime → PaySubscription → ℤ → ℕ → Action Subscription
finish rt ctx period decimals = do
  check_token_program ctx
  invoke_signed rt (transfer_of ctx decimals) (trader_signer rt ctx.grok_account ∷ [])
  emit (paid_event ctx period)
  pure (paid_for ctx.subscription.value period)

pub finish_inv :
    (rt : Runtime) (ctx : PaySubscription) (period : ℤ) (decimals : ℕ) (w w' : World)
    (sub : Subscription)
    → finish rt ctx period decimals w ≡ ok (sub, w')
    → (v : World) × (rt.invoke (transfer_of ctx decimals) (trader_signer rt ctx.grok_account ∷ []) w
        ≡ ok v)
      × (w' ≡ record v { log = paid_event ctx period ∷ v.log })
      × (sub ≡ paid_for ctx.subscription.value period)
      × IsTokenProgram ctx.token_program ctx.source ctx.destination w
finish_inv rt ctx period decimals w w' sub h =
    let (_, w1, e1, h1) = >>=-eq-ok (check_token_program ctx) _ h in
    let (owned, same) = check_token_program_inv ctx w w1 e1 in
    elim (Result-cases
      (rt.invoke (transfer_of ctx decimals) (trader_signer rt ctx.grok_account ∷ []) w1)) [
        | inl (v, e) ↦ (
          v,
          subst
              (λ u.
                rt.invoke (transfer_of ctx decimals) (trader_signer rt ctx.grok_account ∷ []) u
                ≡ ok v)
              same e,
          ground (arith, e, h1),
          ground (arith, e, h1),
          owned,
        )
        | inr (x, e) ↦ absurd (ground (arith, e, h1))
      ]

-- What `pay` has established by the time it calls CORE, and the two parts that change the world.
pub record Parts (rt : Runtime) (ctx : PaySubscription) (period : ℤ) (w w' : World)
    (sub : Subscription) : Type 0 where
  pub named : IsNamed rt ctx
  pub active : ctx.subscription.value.active ≡ true
  pub current :
      current_period rt.unix_timestamp ctx.subscription.value.start_unix
        ctx.subscription.value.period_seconds
      ≡ ok period
  pub unpaid : ctx.subscription.value.last_paid_period <ℤ period
  pub transfer : IsTransfer ctx w
  pub decimals : ℕ
  pub granted : World
  pub checked :
      check_grant rt ctx.grok_chain_core_program ctx.grok_account.key ctx.grant.key ctx.agent.key
        ctx.intents_program ctx.subscription.value.amount w
      ≡ ok (tt, granted)
  pub finished : finish rt ctx period decimals granted ≡ ok (sub, w')

pub pay-Parts :
    (rt : Runtime) (ctx : PaySubscription) (args : PaySubscriptionArgs) (w w' : World)
    (sub : Subscription)
    → pay rt ctx args w ≡ ok (sub, w')
    → Parts rt ctx args.period w w' sub
unfolding pay
pay-Parts rt ctx args w w' sub h =
    let (_, w1, e1, h1) = >>=-eq-ok (check_pay rt ctx) _ h in
    let (named, r1) = check_pay_inv rt ctx w w1 e1 in
    let (p, w2, e2, h2) = >>=-eq-ok (lift (payable_period _ args.period rt.unix_timestamp)) _ h1 in
    let (d2, r2) = lift_inv _ w1 w2 p e2 in
    let (active, current, stated, unpaid) = payable_period_inv _ args.period _ p d2 in
    let (_, w3, e3, h3) = >>=-eq-ok (lift (precheck_sponsor _ ctx.paymaster ctx.fee_payer)) _ h2 in
    let (_, r3) = lift_inv _ w2 w3 tt e3 in
    let (decimals, w4, e4, h4) = >>=-eq-ok (check_transfer ctx) _ h3 in
    let (transfer, r4) = check_transfer_inv ctx w3 w4 decimals e4 in
    let (_, w5, e5, h5) =
      >>=-eq-ok (check_grant rt _ ctx.grok_account.key ctx.grant.key ctx.agent.key _ _) _ h4 in
    let start : w3 ≡ w = r3 ∙ r2 ∙ r1 in
    record {
      named = named;
      active = active;
      current = current ∙ ap ok (sym stated);
      unpaid = subst (λ q. ctx.subscription.value.last_paid_period <ℤ q) (sym stated) unpaid;
      transfer = subst (IsTransfer ctx) start transfer;
      decimals = decimals;
      granted = w5;
      checked = ap (check_grant rt _ _ _ _ _ _) (sym (r4 ∙ start)) ∙ e5;
      finished = subst (λ q. finish rt ctx q decimals w5 ≡ ok (sub, w')) (sym stated) h5;
    }
