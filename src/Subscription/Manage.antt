-- ===== src/Subscription/Manage.antt =====
-- Creating and cancelling a subscription (`create`, `cancel` and their account structs).
use grokchain_programs.Base.{
  ℕ, true, false, List, [], ◌∷◌, contains, ltb, ◌==◌, ltb_ℤ, leb_ℤ, if◌then◌else◌,
}
use grokchain_programs.Errors.{
  zero_amount, subscription_period_too_short, pay_token_mint_not_registered,
  pay_token_payee_not_allowed, subscription_inactive, grok_account_mismatch, unauthorized_root,
}
use grokchain_programs.Constants.{intents_id, seed_merchants, seed_subscription}
use grokchain_programs.Common.Mouth.{check_seeds}
use grokchain_programs.Common.Root.{Root, check_root, check_derived}
use grokchain_programs.Events.{Event}
use grokchain_programs.State.{MerchantRegistry, Subscription, SubscriptionArgs}
use grokchain_programs.Subscription.Period.{period_none, min_period_seconds}
use grokchain_programs.Runtime.Address.{Pubkey, text, address, Seed}
use grokchain_programs.Runtime.World.{Runtime, Account, GrokAccount, Result}
use grokchain_programs.Runtime.Check
use grokchain_programs.Runtime.Monad.{Action, pure, ◌>>◌, lift, require, require_keys_eq, emit}

-- `CreateSubscription`: `subscription` is the address that the instruction creates.
pub record CreateSubscription : Type 0 where
  pub signed : Root
  pub open signed use *
  pub merchant_registry : Account MerchantRegistry
  pub mint : Pubkey
  pub subscription : Pubkey
  pub bump : ℕ

-- `CancelSubscription`.
pub record CancelSubscription : Type 0 where
  pub signed : Root
  pub open signed use *
  pub subscription : Account Subscription

abbrev pub subscription_seeds : Pubkey → Pubkey → Pubkey → List Seed
subscription_seeds grok_account merchant mint =
    text seed_subscription ∷ address grok_account ∷ address merchant ∷ address mint ∷ []

-- The registry is this account's.
unfoldable pub check_registry :
    Runtime → Account GrokAccount → Account MerchantRegistry → Result (Unit {0})
check_registry rt grok_account reg =
    Check.◌>>◌
      (check_seeds rt reg.key (text seed_merchants ∷ address grok_account.key ∷ []) reg.value.bump
        intents_id)
      (Check.require (reg.value.grok_account == grok_account.key) grok_account_mismatch)

-- The subscription is this account's.
unfoldable pub check_subscription :
    Runtime → Account GrokAccount → Account Subscription → Result (Unit {0})
check_subscription rt grok_account sub =
    Check.◌>>◌
      (check_seeds rt sub.key
        (subscription_seeds grok_account.key sub.value.merchant sub.value.mint) sub.value.bump
        intents_id)
      (Check.require (sub.value.grok_account == grok_account.key) grok_account_mismatch)

-- `create`: the subscription as it is created.
unfoldable pub create : Runtime → CreateSubscription → SubscriptionArgs → Action Subscription
create rt ctx args = do
  lift (check_root rt ctx.signed)
  lift (check_registry rt ctx.grok_account ctx.merchant_registry)
  lift (
      check_derived rt ctx.subscription ctx.bump
        (subscription_seeds ctx.grok_account.key args.merchant ctx.mint))
  require (ltb 0 args.amount) zero_amount
  require (leb_ℤ min_period_seconds args.period_seconds) subscription_period_too_short
  let registry = ctx.merchant_registry.value
  require_keys_eq registry.mint ctx.mint pay_token_mint_not_registered
  require (contains args.merchant registry.merchants) pay_token_payee_not_allowed
  let start = if ltb_ℤ rt.unix_timestamp args.start_unix then args.start_unix else rt.unix_timestamp
  emit (
      Event.subscription_created ctx.subscription ctx.grok_account.key ctx.root.key args.merchant
        ctx.mint args.amount args.period_seconds start)
  pure (record {
    grok_account = ctx.grok_account.key;
    root = ctx.root.key;
    merchant = args.merchant;
    mint = ctx.mint;
    amount = args.amount;
    period_seconds = args.period_seconds;
    start_unix = start;
    last_paid_period = period_none;
    payments = 0;
    active = true;
    bump = ctx.bump;
  })

-- `cancel`: the subscription, inactive.
unfoldable pub cancel : Runtime → CancelSubscription → Action Subscription
cancel rt ctx = do
  lift (check_root rt ctx.signed)
  lift (check_subscription rt ctx.grok_account ctx.subscription)
  require (ctx.subscription.value.root == ctx.root.key) unauthorized_root
  let sub = ctx.subscription.value
  require sub.active subscription_inactive
  emit (
      Event.subscription_cancelled ctx.subscription.key sub.grok_account sub.root sub.merchant
        sub.payments sub.last_paid_period)
  pure (record sub { active = false })
