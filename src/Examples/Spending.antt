-- ===== src/Examples/Spending.antt =====
-- Intents that spend, on the small chain.
use grokchain_programs.Base.{◌+◌, ◌≢◌, ◌≤◌, ◌<◌, ◌≡◌, refl, true, false, List, [], ◌∷◌, arith}
use grokchain_programs.CoreCpi.{check_grant, check_grant_ix}
use grokchain_programs.Common.{debit_spend_vault, reimburse_sponsor}
use grokchain_programs.Common.Checks.{precheck_sponsor, reject_protected_remaining}
use grokchain_programs.Common.Mouth.{
  check_mouth, check_grok_account, check_grant_account, check_spend_vault, check_paymaster,
  IsAuthorised,
}
use grokchain_programs.Constants.{max_sponsor_lamports, token_program_id}
use grokchain_programs.Custody.{try_debit_program_owned}
use grokchain_programs.Examples.Chain.{
  chain, chain-MetersGrants, mouth, world, world_after, vault, paymaster, grant, signer,
}
use grokchain_programs.Intents.Pay.{Pay, pay}
use grokchain_programs.Intents.Settlement.{pay-IsSettled, IsSettled, pay_conserves, pay_completes}
use grokchain_programs.Intents.Isolation.{call-IsCalled, IsCalled}
use grokchain_programs.Intents.Swap.{Swap, swap}
use grokchain_programs.Intents.Deploy.{deploy}
use grokchain_programs.Intents.Call.{Call, call}
use grokchain_programs.Custody.Totals.{sum_of}
use grokchain_programs.CoreCpi.Metering.{metered}
use grokchain_programs.Events.{Event}
use grokchain_programs.Policy.{
  require_pay_amount, require_swap_amounts, require_sponsor_accounts, require_sponsor_cap,
}
use grokchain_programs.State.{PayArgs, SwapArgs, DeployArgs, CallArgs}
use grokchain_programs.Runtime.Address.{Pubkey}
use grokchain_programs.Runtime.World.{World, AccountInfo, ok}

abbrev payment : Pay
payment = record { mouth = mouth; recipient = 40 }

abbrev amounts : PayArgs
amounts = record { amount_lamports = 300_000_000; sponsor_lamports = 5_000 }

abbrev unsponsored : PayArgs
unsponsored = record { amount_lamports = 300_000_000; sponsor_lamports = 0 }

abbrev accounts : List Pubkey
accounts = vault.key ∷ 40 ∷ paymaster.key ∷ 30 ∷ []

-- The world as CORE leaves it.
abbrev granted : World
granted = metered grant.key 300_000_000 world

pay_succeeds :
    pay chain payment amounts world ≡ ok (tt, world_after (pay chain payment amounts world))
unfolding pay check_mouth check_grok_account check_grant_account check_spend_vault check_paymaster
    require_pay_amount precheck_sponsor require_sponsor_accounts require_sponsor_cap check_grant
    check_grant_ix debit_spend_vault reimburse_sponsor try_debit_program_owned
pay_succeeds = refl

pay-IsSettled_example :
    IsAuthorised mouth
    × (0 < 300_000_000)
    × (5_000 ≤ max_sponsor_lamports)
    × IsSettled chain mouth 300_000_000 50 world (world_after (pay chain payment amounts world))
pay-IsSettled_example =
    pay-IsSettled chain payment amounts 50 world (world_after (pay chain payment amounts world))
      chain-MetersGrants (omega arith)
      (omega arith, omega arith, omega arith, λ pm fp p f. ground (arith, p, f)) pay_succeeds

pay_conserves_example :
    sum_of accounts (world_after (pay chain payment amounts world)).lamports
    ≡ sum_of accounts world.lamports
pay_conserves_example =
    pay_conserves chain payment amounts accounts world
      (world_after (pay chain payment amounts world)) chain-MetersGrants (omega arith)
      (refl, (refl, (refl, (refl, tt)))) refl refl (omega arith) (λ pm fp p f. ground (arith, p, f))
      pay_succeeds

pay_completes_example :
    (w' : World) × (pay chain payment unsponsored world ≡ ok (tt, w'))
    × (w'.lamports vault.key + 300_000_000 ≡ granted.lamports vault.key)
    × (w'.lamports 40 ≡ granted.lamports 40 + 300_000_000)
    × (w' ≡ record granted {
      lamports = w'.lamports;
      log = Event.paid vault.key 40 300_000_000 20 grant.key 1 ∷ [];
    })
    × ((k : Pubkey) → k ≢ vault.key → k ≢ 40 → w'.lamports k ≡ granted.lamports k)
unfolding check_mouth check_grok_account check_grant_account check_spend_vault check_paymaster
    check_grant_ix
pay_completes_example =
    pay_completes chain payment unsponsored world granted refl refl (omega arith) refl (omega arith)
      refl (omega arith) (omega arith)

-- An amount above the grant's cap.
abbrev too_much : PayArgs
too_much = record { amount_lamports = 600_000_000; sponsor_lamports = 0 }

abbrev exchange : Swap
exchange = record { mouth = mouth; out_destination = 40 }

abbrev rates : SwapArgs
rates = record {
  amount_in_lamports = 300_000_000;
  min_out_lamports = 200_000_000;
  sponsor_lamports = 5_000;
}

swap_succeeds :
    swap chain exchange rates world ≡ ok (tt, world_after (swap chain exchange rates world))
unfolding swap check_mouth check_grok_account check_grant_account check_spend_vault check_paymaster
    require_swap_amounts precheck_sponsor require_sponsor_accounts require_sponsor_cap check_grant
    check_grant_ix debit_spend_vault reimburse_sponsor try_debit_program_owned
swap_succeeds = refl

abbrev request : DeployArgs
request = record { sponsor_lamports = 5_000; program_id = 900 }

deploy_succeeds :
    deploy chain mouth request world ≡ ok (tt, world_after (deploy chain mouth request world))
unfolding deploy check_mouth check_grok_account check_grant_account check_spend_vault
    check_paymaster precheck_sponsor require_sponsor_accounts require_sponsor_cap check_grant
    check_grant_ix reimburse_sponsor try_debit_program_owned
deploy_succeeds = refl

-- A call of the token program with two accounts beside it, of which one signs.
abbrev program_account : AccountInfo
program_account = record {
  key = token_program_id;
  is_signer = false;
  is_writable = false;
  executable = true;
}

abbrev request_call : Call
request_call = record {
  mouth = mouth;
  recipient = 40;
  call_target = program_account;
  remaining_accounts = signer 61 ∷ program_account ∷ [];
}

abbrev call_args : CallArgs
call_args = record {
  amount_lamports = 1_000;
  sponsor_lamports = 0;
  target_program = token_program_id;
}

call_succeeds :
    call chain request_call call_args world
    ≡ ok (tt, world_after (call chain request_call call_args world))
unfolding call check_mouth check_grok_account check_grant_account check_spend_vault check_paymaster
    precheck_sponsor require_sponsor_accounts require_sponsor_cap check_grant check_grant_ix
    reimburse_sponsor try_debit_program_owned debit_spend_vault reject_protected_remaining
call_succeeds = refl

call-IsCalled_example :
    IsCalled chain request_call call_args world
      (world_after (call chain request_call call_args world))
call-IsCalled_example =
    call-IsCalled chain request_call call_args world
      (world_after (call chain request_call call_args world)) chain-MetersGrants (omega arith)
      call_succeeds
