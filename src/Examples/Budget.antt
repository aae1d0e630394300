-- ===== src/Examples/Budget.antt =====
-- A payment and a swap under one grant, on the small chain.
use grokchain_programs.Base.{◌+◌, ◌≤◌, ◌≡◌, refl, some, [], ◌∷◌, arith}
use grokchain_programs.CoreCpi.{check_grant, check_grant_ix}
use grokchain_programs.Common.{debit_spend_vault, reimburse_sponsor}
use grokchain_programs.Common.Checks.{precheck_sponsor}
use grokchain_programs.Common.Mouth.{
  check_mouth, check_grok_account, check_grant_account, check_spend_vault, check_paymaster,
}
use grokchain_programs.Custody.{try_debit_program_owned}
use grokchain_programs.Examples.Chain.{
  chain, chain-MetersGrants, mouth, world, world_after, vault, grant,
}
use grokchain_programs.Intents.Ledger.{
  ledger_of, spend_all, total, Spending, rested, paying, swapping, Spending-spend_all,
  Spending-total,
}
use grokchain_programs.Intents.Pay.{Pay, pay}
use grokchain_programs.Intents.Swap.{Swap, swap}
use grokchain_programs.Policy.{
  require_pay_amount, require_swap_amounts, require_sponsor_accounts, require_sponsor_cap,
}
use grokchain_programs.Program.Request.{Request}
use grokchain_programs.State.{PayArgs, SwapArgs, spend_vault_space}
use grokchain_programs.Runtime.World.{World, ok}

abbrev payment : Pay
payment = record { mouth = mouth; recipient = 40 }

abbrev paid : PayArgs
paid = record { amount_lamports = 300_000_000; sponsor_lamports = 5_000 }

abbrev exchange : Swap
exchange = record { mouth = mouth; out_destination = 41 }

abbrev swapped : SwapArgs
swapped = record {
  amount_in_lamports = 100_000_000;
  min_out_lamports = 90_000_000;
  sponsor_lamports = 0;
}

abbrev after_pay : World
after_pay = world_after (pay chain payment paid world)

abbrev after_swap : World
after_swap = world_after (swap chain exchange swapped after_pay)

pay_succeeds : pay chain payment paid world ≡ ok (tt, after_pay)
unfolding pay check_mouth check_grok_account check_grant_account check_spend_vault check_paymaster
    require_pay_amount precheck_sponsor require_sponsor_accounts require_sponsor_cap check_grant
    check_grant_ix debit_spend_vault reimburse_sponsor try_debit_program_owned
pay_succeeds = refl

swap_succeeds : swap chain exchange swapped after_pay ≡ ok (tt, after_swap)
unfolding pay swap check_mouth check_grok_account check_grant_account check_spend_vault
    check_paymaster require_pay_amount require_swap_amounts precheck_sponsor
    require_sponsor_accounts require_sponsor_cap check_grant check_grant_ix debit_spend_vault
    reimburse_sponsor try_debit_program_owned
swap_succeeds = refl

spending : Spending chain grant.key vault.key (300_000_000 ∷ 100_000_000 ∷ []) world after_swap
spending =
    paying payment paid world (omega arith) (omega arith, λ pm fp p f. ground (arith, p, f))
      pay_succeeds
      (swapping exchange swapped after_pay (omega arith)
        (omega arith, λ pm fp p f. ground (arith, p, f)) swap_succeeds rested)

Spending-spend_all_example :
    spend_all
      (chain.minimum_balance spend_vault_space)
      (300_000_000 ∷ 100_000_000 ∷ [])
      (ledger_of grant.key vault.key world)
    ≡ some (ledger_of grant.key vault.key after_swap)
Spending-spend_all_example = Spending-spend_all chain chain-MetersGrants spending

Spending-total_example :
    (after_swap.lamports vault.key + total (300_000_000 ∷ 100_000_000 ∷ [])
      ≡ world.lamports vault.key)
    × ((world.grants grant.key).spent_lamports + total (300_000_000 ∷ 100_000_000 ∷ [])
        ≤ (world.grants grant.key).spend_cap_lamports)
Spending-total_example =
    Spending-total chain grant.key vault.key (300_000_000 ∷ 100_000_000 ∷ []) world after_swap
      chain-MetersGrants (omega arith) spending
