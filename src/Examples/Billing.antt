-- ===== src/Examples/Billing.antt =====
-- A subscription on the small chain.
use grokchain_programs.Base.{
  ℕ, zero, suc, ◌≡◌, refl, true, false, List, [], ◌∷◌, ◌++◌, some, none, arith, ℤ, pos, negsuc,
  le_bytes, u64_bytes, ◌==◌, if◌then◌else◌,
}
use grokchain_programs.Common.Checks.{precheck_sponsor}
use grokchain_programs.Common.Mouth.{check_grok_account, check_grant_account}
use grokchain_programs.Common.Root.{check_root}
use grokchain_programs.Constants.{token_program_id, intents_id}
use grokchain_programs.CoreCpi.{check_grant, check_grant_ix}
use grokchain_programs.Examples.Chain.{
  chain, chain-MetersGrants, core, world, world_after, grok, grant, signer, hash, paymaster,
}
use grokchain_programs.Policy.{require_sponsor_accounts, require_sponsor_cap}
use grokchain_programs.State.{MerchantRegistry, Subscription, PaySubscriptionArgs}
use grokchain_programs.Subscription.ExactlyOnce.{
  Run, idle, paying, cancelling, Ascending, Run-Ascending, Run-cancelled,
}
use grokchain_programs.Subscription.Lifecycle.{pay_ignores_sponsor}
use grokchain_programs.Subscription.Removal.{remove-pay}
use grokchain_programs.Merchants.{UpdateMerchantRegistry, remove, retain_others, check_update}
use grokchain_programs.Subscription.Manage.{
  CancelSubscription, cancel, check_registry, check_subscription, subscription_seeds,
}
use grokchain_programs.Subscription.Pay.{
  PaySubscription, pay, check_pay, check_payer, payable_period, check_transfer, check_token_program,
}
use grokchain_programs.Subscription.Period.{current_period}
use grokchain_programs.Subscription.Settlement.{IsSettled, pay_period-IsSettled}
use grokchain_programs.Subscription.TokenAccount.{
  token_account_fields, mint_decimals, transfer_checked, fields_of,
}
use grokchain_programs.Runtime.Address.{Pubkey, text, address}
use grokchain_programs.Runtime.World.{World, Account, ok}

-- The 32 bytes of an address, and zeros.
abbrev rev_onto : List ℕ → List ℕ → List ℕ
rev_onto [] ys = ys
rev_onto (x ∷ xs) ys = rev_onto xs (x ∷ ys)

abbrev pub zeros : ℕ → List ℕ
zeros zero = []
zeros (suc n) = 0 ∷ zeros n

abbrev pub token_account : Pubkey → Pubkey → ℕ → List ℕ
token_account mint owner amount =
    rev_onto (le_bytes 32 mint) []
    ++ rev_onto (le_bytes 32 owner) []
    ++ u64_bytes amount
    ++ zeros 93

abbrev pub trader : Pubkey
trader = hash (text "pump-trader" ∷ address grok.key ∷ [])

-- The trader's tokens are in account 90, the merchant's (41) in account 91; the mint is 80.
abbrev pub token_world : World
token_world = record world {
  owner = λ k. token_program_id;
  bytes = λ k.
      if k == 90
      then token_account 80 trader 5_000
      else if k == 91
      then token_account 80 41 0
      else zeros 44 ++ (6 ∷ zeros 37);
}

abbrev pub registry : Account MerchantRegistry
registry = record {
  key = hash (text "merchants" ∷ address grok.key ∷ []);
  value = record {
    grok_account = grok.key;
    root = 10;
    mint = 80;
    bump = 255;
    merchants = 41 ∷ 42 ∷ [];
  };
}

-- It began ten days and an hour ago.
abbrev pub subscription : Subscription
subscription = record {
  grok_account = grok.key;
  root = 10;
  merchant = 41;
  mint = 80;
  amount = 1_000;
  period_seconds = pos 86_400;
  start_unix = pos 1_699_132_400;
  last_paid_period = negsuc 0;
  payments = 0;
  active = true;
  bump = 255;
}

abbrev pub subscription_key : Pubkey
subscription_key = hash (subscription_seeds grok.key 41 80)

abbrev paying_for : Subscription → PaySubscription
paying_for sub = record {
  agent = signer 20;
  grok_account = grok;
  grant = grant;
  grok_chain_core_program = core;
  intents_program = intents_id;
  subscription = record { key = subscription_key; value = sub };
  merchant_registry = registry;
  pump_trader = trader;
  source = 90;
  destination = 91;
  mint = 80;
  token_program = token_program_id;
  reference = none;
  paymaster = some paymaster;
  fee_payer = some (signer 30);
}

abbrev period_10 : PaySubscriptionArgs
period_10 = record { period = pos 10; sponsor_lamports = 5_000 }

abbrev paid : Subscription
paid = record subscription { last_paid_period = pos 10; payments = 1 }

pay_succeeds :
    pay chain (paying_for subscription) period_10 token_world
    ≡ ok (paid, world_after (pay chain (paying_for subscription) period_10 token_world))
unfolding pay check_pay check_grok_account check_grant_account check_subscription check_registry
    check_payer payable_period current_period precheck_sponsor require_sponsor_accounts
    require_sponsor_cap check_transfer token_account_fields mint_decimals fields_of check_grant
    check_grant_ix check_token_program transfer_checked
pay_succeeds = refl

pay_period-IsSettled_example :
    IsSettled chain
      (paying_for subscription)
      (pos 10)
      token_world
      (world_after (pay chain (paying_for subscription) period_10 token_world))
      paid
pay_period-IsSettled_example =
    pay_period-IsSettled chain (paying_for subscription) period_10 token_world
      (world_after (pay chain (paying_for subscription) period_10 token_world)) paid
      chain-MetersGrants (omega arith) pay_succeeds

abbrev cancelling_it : Subscription → CancelSubscription
cancelling_it sub = record {
  signed = record { root = signer 10; grok_account = grok };
  subscription = record { key = subscription_key; value = sub };
}

abbrev cancelled : Subscription
cancelled = record paid { active = false }

cancel_succeeds :
    cancel chain (cancelling_it paid) world
    ≡ ok (cancelled, world_after (cancel chain (cancelling_it paid) world))
unfolding cancel check_root check_grok_account check_subscription
cancel_succeeds = refl

-- Period 10 is paid and the subscription is cancelled.
billing : Run subscription (pos 10 ∷ []) cancelled
billing =
    paying chain (paying_for subscription) period_10 token_world
      (world_after (pay chain (paying_for subscription) period_10 token_world)) paid cancelled []
      pay_succeeds
      (cancelling chain (cancelling_it paid) world
        (world_after (cancel chain (cancelling_it paid) world)) cancelled cancelled []
        cancel_succeeds (idle cancelled))

Run-Ascending_example : Ascending (negsuc 0) (pos 10 ∷ [])
Run-Ascending_example = Run-Ascending subscription cancelled (pos 10 ∷ []) billing

abbrev no_periods : List ℤ
no_periods = []

Run-cancelled_example : (no_periods ≡ []) × (cancelled ≡ cancelled)
Run-cancelled_example = Run-cancelled cancelled cancelled [] (idle cancelled) refl

-- The root removes the merchant of the subscription.
abbrev admin : UpdateMerchantRegistry
admin = record {
  signed = record { root = signer 10; grok_account = grok };
  merchant_registry = registry;
}

abbrev emptied : MerchantRegistry
emptied = record registry.value { merchants = retain_others 41 registry.value.merchants }

abbrev after_removal : PaySubscription
after_removal = record (paying_for subscription) {
  merchant_registry = record registry { value = emptied };
}

remove_succeeds :
    remove chain admin 41 token_world
    ≡ ok (emptied, world_after (remove chain admin 41 token_world))
unfolding remove check_update check_root check_grok_account
remove_succeeds = refl

remove-pay_example : ¬ (
    pay chain after_removal period_10 token_world
    ≡ ok (paid, world_after (pay chain (paying_for subscription) period_10 token_world)))
remove-pay_example =
    remove-pay chain chain admin 41 emptied after_removal period_10 token_world
      (world_after (remove chain admin 41 token_world)) token_world
      (world_after (pay chain (paying_for subscription) period_10 token_world)) paid remove_succeeds
      refl refl

pay_ignores_sponsor_example :
    pay chain (paying_for subscription) (record period_10 { sponsor_lamports = 0 }) token_world
    ≡ ok (paid, world_after (pay chain (paying_for subscription) period_10 token_world))
pay_ignores_sponsor_example =
    pay_ignores_sponsor chain (paying_for subscription) period_10 token_world
      (paid, world_after (pay chain (paying_for subscription) period_10 token_world)) pay_succeeds
