-- ===== src/Subscription/Pay.antt =====
-- Paying the current period of a subscription (`pay` and `PaySubscription` of subscription.rs).
use grokchain_programs.Base.{
  ℕ, ◌&&◌, ℤ, Option, none, some, [], ◌∷◌, contains, leb, ◌==◌, ltb_ℤ, eqb_ℤ, saturating_add_u32,
}
use grokchain_programs.Errors.{
  subscription_inactive, subscription_period_mismatch, subscription_already_paid,
  pay_token_mint_not_registered, pay_token_payee_not_allowed, pay_token_mint_mismatch,
  pay_token_source_owner_not_trader, pay_token_insufficient, invalid_token_program,
  grok_account_mismatch,
}
use grokchain_programs.Constants.{intents_id, seed_pump_trader, seed_paymaster}
use grokchain_programs.Common.Mouth.{check_seeds, check_grok_account, check_grant_account}
use grokchain_programs.Common.Checks.{precheck_sponsor}
use grokchain_programs.CoreCpi.{check_grant}
use grokchain_programs.Events.{Event}
use grokchain_programs.State.{MerchantRegistry, Subscription, PaySubscriptionArgs, Paymaster}
use grokchain_programs.Subscription.Manage.{check_registry, check_subscription}
use grokchain_programs.Subscription.Period.{current_period}
use grokchain_programs.Subscription.TokenAccount.{
  token_account_fields, mint_decimals, transfer_checked, is_token_program,
}
use grokchain_programs.Runtime.Address.{Pubkey, text, address}
use grokchain_programs.Runtime.World.{
  Runtime, Account, AccountInfo, Grant, GrokAccount, Instruction, AnchorError, Result, ok,
}
use grokchain_programs.Runtime.Check
use grokchain_programs.Runtime.Monad.{
  Action, pure, ◌>>=◌, ◌>>◌, lift, require, require_keys_eq, gets, emit, invoke_signed,
}

-- `PaySubscription`.
pub record PaySubscription : Type 0 where
  pub agent : AccountInfo
  pub grok_account : Account GrokAccount
  pub grant : Account Grant
  pub grok_chain_core_program : Pubkey
  pub intents_program : Pubkey
  pub subscription : Account Subscription
  pub merchant_registry : Account MerchantRegistry
  pub pump_trader : Pubkey
  pub source : Pubkey
  pub destination : Pubkey
  pub mint : Pubkey
  pub token_program : Pubkey
  pub reference : Option Pubkey
  pub paymaster : Option (Account Paymaster)
  pub fee_payer : Option AccountInfo

-- The paymaster's constraints here: this account's, with no condition on its root.
unfoldable pub check_payer :
    Runtime → Account GrokAccount → Option (Account Paymaster) → Result (Unit {0})
check_payer rt grok_account none = ok tt
check_payer rt grok_account (some pm) =
    Check.◌>>◌
      (check_seeds rt pm.key (text seed_paymaster ∷ address grok_account.key ∷ []) pm.value.bump
        intents_id)
      (Check.require (pm.value.grok_account == grok_account.key) grok_account_mismatch)

-- The trader's derived address and bump.
abbrev pub derived_trader : Runtime → Account GrokAccount → Pubkey × ℕ
derived_trader rt grok_account =
    rt.find_program_address (text seed_pump_trader ∷ address grok_account.key ∷ []) intents_id

-- The address that signs the transfer.
abbrev pub trader_signer : Runtime → Account GrokAccount → Pubkey
trader_signer rt grok_account =
    rt.create_program_address (text seed_pump_trader ∷ address grok_account.key ∷ [])
      (derived_trader rt grok_account).1 intents_id

-- Anchor's checks.
unfoldable pub check_pay : Runtime → PaySubscription → Action (Unit {0})
check_pay rt ctx = do
  lift (Check.check_signer ctx.agent)
  lift (Check.constrain (ctx.grok_chain_core_program == rt.core_id) AnchorError.invalid_program_id)
  lift (Check.check_optional_signer ctx.fee_payer)
  lift (check_grok_account rt ctx.grok_account)
  lift (check_grant_account rt ctx.grok_account ctx.agent ctx.grant)
  lift (Check.constrain (ctx.intents_program == intents_id) AnchorError.constraint_address)
  lift (check_subscription rt ctx.grok_account ctx.subscription)
  lift (check_registry rt ctx.grok_account ctx.merchant_registry)
  lift (
      Check.constrain (ctx.pump_trader == (derived_trader rt ctx.grok_account).0)
        AnchorError.constraint_seeds)
  lift (check_payer rt ctx.grok_account ctx.paymaster)

-- The first part of `pay`: is this the current period, and not yet paid?
unfoldable pub payable_period : Subscription → ℤ → ℤ → Result ℤ
payable_period sub period now = Check.◌>>◌ (Check.require sub.active subscription_inactive) (
    Check.◌>>=◌ (current_period now sub.start_unix sub.period_seconds) λ current.
      Check.◌>>◌ (Check.require (eqb_ℤ period current) subscription_period_mismatch) (
        Check.◌>>◌ (Check.require (ltb_ℤ sub.last_paid_period current) subscription_already_paid)
          (ok current)))

-- The merchant's and the token accounts' checks; it returns the mint's decimals.
unfoldable pub check_transfer : PaySubscription → Action ℕ
check_transfer ctx = do
  let sub = ctx.subscription.value
  let registry = ctx.merchant_registry.value
  require_keys_eq registry.mint sub.mint pay_token_mint_not_registered
  require (contains sub.merchant registry.merchants) pay_token_payee_not_allowed
  src ← token_account_fields ctx.source
  require_keys_eq src.mint sub.mint pay_token_mint_mismatch
  require_keys_eq src.owner ctx.pump_trader pay_token_source_owner_not_trader
  require (leb sub.amount src.amount) pay_token_insufficient
  dst ← token_account_fields ctx.destination
  require_keys_eq dst.mint sub.mint pay_token_mint_mismatch
  require_keys_eq dst.owner sub.merchant pay_token_payee_not_allowed
  mint_decimals ctx.mint

-- The token program is one of the two, and it owns both token accounts.
unfoldable pub check_token_program : PaySubscription → Action (Unit {0})
check_token_program ctx = do
  require (is_token_program ctx.token_program) invalid_token_program
  source_owner ← gets (λ w. w.owner ctx.source)
  destination_owner ← gets (λ w. w.owner ctx.destination)
  require (source_owner == ctx.token_program && destination_owner == ctx.token_program)
      invalid_token_program

-- The instruction that `pay` sends to the token program.
abbrev pub transfer_of : PaySubscription → ℕ → Instruction
transfer_of ctx decimals =
    transfer_checked ctx.token_program ctx.source ctx.subscription.value.mint ctx.destination
      ctx.pump_trader ctx.subscription.value.amount decimals

-- The subscription after a payment.
abbrev pub paid_for : Subscription → ℤ → Subscription
paid_for sub period = record sub {
  last_paid_period = period;
  payments = saturating_add_u32 sub.payments 1;
}

abbrev pub paid_event : PaySubscription → ℤ → Event
paid_event ctx period =
    let sub = ctx.subscription.value in
    Event.subscription_paid ctx.subscription.key ctx.grok_account.key sub.merchant sub.mint
      sub.amount period (saturating_add_u32 sub.payments 1) ctx.reference ctx.agent.key
      ctx.grant.key ctx.grant.value.generation

-- `pay_subscription`: Anchor's checks, then `pay`, which returns the subscription as it is written.
unfoldable pub pay : Runtime → PaySubscription → PaySubscriptionArgs → Action Subscription
pay rt ctx args = do
  check_pay rt ctx
  period ← lift (payable_period ctx.subscription.value args.period rt.unix_timestamp)
  lift (precheck_sponsor args.sponsor_lamports ctx.paymaster ctx.fee_payer)
  decimals ← check_transfer ctx
  check_grant rt ctx.grok_chain_core_program ctx.grok_account.key ctx.grant.key ctx.agent.key
      ctx.intents_program ctx.subscription.value.amount
  check_token_program ctx
  invoke_signed rt (transfer_of ctx decimals) (trader_signer rt ctx.grok_account ∷ [])
  emit (paid_event ctx period)
  pure (paid_for ctx.subscription.value period)
