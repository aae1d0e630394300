-- ===== src/Examples/Holding.antt =====
-- The root's withdrawals, the pause, the debit and the route data, on the small chain.
use grokchain_programs.Base.{
  ℕ, ◌+◌, ◌≤◌, ◌<◌, ◌≡◌, ◌↔◌, ◌⊎◌, refl, true, false, List, [], ◌∷◌, some, arith, u64_size, length,
  drop, u64_bytes,
}
use grokchain_programs.Common.Mouth.{check_grok_account}
use grokchain_programs.Common.Root.{Root, check_root}
use grokchain_programs.Custodians.Laws.{
  RunsVault, TakesOut, withdraw_spend_vault-TakesOut, pause-pay,
}
use grokchain_programs.Custodians.Sponsor.{
  ManagePaymaster, withdraw_paymaster, check_manage_paymaster, pause,
}
use grokchain_programs.Custodians.Vault.{
  ManageSpendVault, withdraw_spend_vault, check_manage_spend_vault,
}
use grokchain_programs.Custody.{try_debit_program_owned}
use grokchain_programs.Custody.Totals.{try_debit-cases}
use grokchain_programs.Errors.{lamport_overflow}
use grokchain_programs.Examples.Chain.{
  chain, chain-MetersGrants, world, world_after, grok, signer, vault, paymaster, mouth,
}
use grokchain_programs.Intents.Pay.{Pay, pay}
use grokchain_programs.Policy.Jupiter.{
  require_jupiter_in_amount, Occurs, require_jupiter_in_amount_iff,
}
use grokchain_programs.State.{PayArgs, Paymaster, spend_vault_space}
use grokchain_programs.Runtime.World.{World, ok, err, intents}

abbrev root : Root
root = record { root = signer 10; grok_account = grok }

abbrev vault_admin : ManageSpendVault
vault_admin = record { signed = root; spend_vault = vault }

abbrev paymaster_admin : ManagePaymaster
paymaster_admin = record { signed = root; paymaster = paymaster }

abbrev after_vault : World
after_vault = world_after (withdraw_spend_vault chain vault_admin 900_000_000 world)

withdraw_spend_vault_succeeds :
    withdraw_spend_vault chain vault_admin 900_000_000 world ≡ ok (tt, after_vault)
unfolding withdraw_spend_vault check_manage_spend_vault check_root check_grok_account
    try_debit_program_owned
withdraw_spend_vault_succeeds = refl

withdraw_spend_vault-TakesOut_example :
    RunsVault chain vault_admin
    × TakesOut vault.key 10 900_000_000
        (chain.minimum_balance spend_vault_space)
        50
        world
        after_vault
withdraw_spend_vault-TakesOut_example =
    withdraw_spend_vault-TakesOut chain vault_admin 900_000_000 50 world after_vault (omega arith)
      (omega arith) (omega arith) withdraw_spend_vault_succeeds

abbrev after_paymaster : World
after_paymaster = world_after (withdraw_paymaster chain paymaster_admin 40_000_000 world)

withdraw_paymaster_succeeds :
    withdraw_paymaster chain paymaster_admin 40_000_000 world ≡ ok (tt, after_paymaster)
unfolding withdraw_paymaster check_manage_paymaster check_root check_grok_account
    try_debit_program_owned
withdraw_paymaster_succeeds = refl

abbrev paused : Paymaster
paused = record paymaster.value { paused = true }

pause_succeeds :
    pause chain paymaster_admin world ≡ ok (paused, world_after (pause chain paymaster_admin world))
unfolding pause check_manage_paymaster check_root check_grok_account
pause_succeeds = refl

abbrev payment : Pay
payment = record {
  mouth = record mouth { paymaster = some (record paymaster { value = paused }) };
  recipient = 40;
}

abbrev sponsored : PayArgs
sponsored = record { amount_lamports = 300_000_000; sponsor_lamports = 5_000 }

pause-pay_example : ¬ (pay chain payment sponsored world ≡ ok (tt, world))
pause-pay_example =
    pause-pay chain chain paymaster_admin paused payment sponsored world
      (world_after (pause chain paymaster_admin world)) world world chain-MetersGrants (omega arith)
      (omega arith) pause_succeeds refl

try_debit-cases_example :
    ((w' : World) × (try_debit_program_owned vault.key 40 300_000_000 1_000_000 world
        ≡ ok (true, w'))
      × (w'.lamports vault.key + 300_000_000 ≡ world.lamports vault.key)
      × (w'.lamports 40 ≡ world.lamports 40 + 300_000_000)
      × (1_000_000 ≤ w'.lamports vault.key))
    ⊎ ((world.lamports vault.key < 300_000_000 + 1_000_000)
        × (try_debit_program_owned vault.key 40 300_000_000 1_000_000 world ≡ ok (false, world)))
    ⊎ ((u64_size ≤ world.lamports 40 + 300_000_000)
        × (try_debit_program_owned vault.key 40 300_000_000 1_000_000 world
            ≡ err (intents lamport_overflow)))
try_debit-cases_example = try_debit-cases vault.key 40 300_000_000 1_000_000 world (omega arith)

abbrev route : List ℕ
route = 1 ∷ 2 ∷ 3 ∷ 4 ∷ 5 ∷ 6 ∷ 7 ∷ 8 ∷ 9 ∷ 64 ∷ 66 ∷ 15 ∷ 0 ∷ 0 ∷ 0 ∷ 0 ∷ 0 ∷ 11 ∷ []

require_jupiter_in_amount_iff_example :
    (require_jupiter_in_amount route 1_000_000 ≡ ok tt)
    ↔ ((8 ≤ length route) × Occurs (u64_bytes 1_000_000) (drop 8 route))
require_jupiter_in_amount_iff_example = require_jupiter_in_amount_iff route 1_000_000
