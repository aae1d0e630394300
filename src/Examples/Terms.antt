-- ===== src/Examples/Terms.antt =====
-- Creating a subscription, and its clock, on the small chain.
use grokchain_programs.Base.{
  ◌≤◌, ◌<◌, ◌≡◌, ◌↔◌, ◌⊎◌, refl, arith, ℤ, pos, negsuc, ◌/◌, pos_part, ◌≤ℤ◌, ◌<ℤ◌,
}
use grokchain_programs.Common.Mouth.{check_grok_account}
use grokchain_programs.Common.Root.{check_root, check_derived}
use grokchain_programs.Errors.{subscription_period_too_short, subscription_not_started}
use grokchain_programs.Examples.Chain.{chain, world, world_after, grok, signer}
use grokchain_programs.State.{Subscription, SubscriptionArgs}
use grokchain_programs.Subscription.Clock.{
  current_period_iff, current_period-cases, InPeriod, elapsed,
}
use grokchain_programs.Subscription.Lifecycle.{IsCreated, create-IsCreated}
use grokchain_programs.Subscription.Manage.{CreateSubscription, create, check_registry}
use grokchain_programs.Subscription.Period.{current_period}
use grokchain_programs.Runtime.World.{ok, err, intents, aborted}
use grokchain_programs.Examples.Billing.{registry, subscription, subscription_key}

abbrev creating : CreateSubscription
creating = record {
  signed = record { root = signer 10; grok_account = grok };
  merchant_registry = registry;
  mint = 80;
  subscription = subscription_key;
  bump = 255;
}

abbrev terms : SubscriptionArgs
terms = record {
  merchant = 41;
  amount = 1_000;
  period_seconds = pos 86_400;
  start_unix = pos 1_690_000_000;
}

abbrev created : Subscription
created = record subscription { start_unix = pos 1_700_000_000 }

create_succeeds :
    create chain creating terms world
    ≡ ok (created, world_after (create chain creating terms world))
unfolding create check_root check_grok_account check_registry check_derived
create_succeeds = refl

create-IsCreated_example : IsCreated chain creating terms created
create-IsCreated_example =
    create-IsCreated chain creating terms world (world_after (create chain creating terms world))
      created create_succeeds

current_period_iff_example :
    (current_period (pos 1_700_000_000) (pos 1_699_132_400) (pos 86_400) ≡ ok (pos 10))
    ↔ InPeriod (pos 1_700_000_000) (pos 1_699_132_400) (pos 86_400) 10
current_period_iff_example =
    current_period_iff (pos 1_700_000_000) (pos 1_699_132_400) (pos 86_400) 10 (omega arith)
      (omega arith)

abbrev Cases : ℤ → ℤ → ℤ → Type 0
Cases now start period =
    ((period ≤ℤ pos 0)
      × (current_period now start period ≡ err (intents subscription_period_too_short)))
    ⊎ ((pos 0 <ℤ period)
        × (now <ℤ start)
        × (current_period now start period ≡ err (intents subscription_not_started)))
    ⊎ ((pos 0 <ℤ period)
        × (start ≤ℤ now)
        × (0x8000_0000_0000_0000 ≤ elapsed now start)
        × (current_period now start period ≡ err aborted))
    ⊎ ((pos 0 <ℤ period)
        × (start ≤ℤ now)
        × (elapsed now start < 0x8000_0000_0000_0000)
        × (current_period now start period ≡ ok (pos (elapsed now start / pos_part period))))

current_period-cases_example : Cases (pos 1_700_000_000) (negsuc 99) (pos 86_400)
current_period-cases_example = current_period-cases (pos 1_700_000_000) (negsuc 99) (pos 86_400)
