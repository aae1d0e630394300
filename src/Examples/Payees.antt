-- ===== src/Examples/Payees.antt =====
-- The registry of merchants on the small chain.
use grokchain_programs.Base.{◌≡◌, refl, true, not, ◌||◌, ◌&&◌, [], ◌∷◌, arith, contains, ◌==◌}
use grokchain_programs.Common.Mouth.{check_grok_account}
use grokchain_programs.Common.Root.{check_root}
use grokchain_programs.Examples.Chain.{chain, world, world_after, grok, signer, hash}
use grokchain_programs.Merchants.{UpdateMerchantRegistry, add, remove, check_update}
use grokchain_programs.Merchants.Laws.{RunsRegistry, IsRegistry, add-contains, remove-contains}
use grokchain_programs.State.{MerchantRegistry}
use grokchain_programs.Runtime.Address.{text, address}
use grokchain_programs.Runtime.World.{ok}

abbrev registry : MerchantRegistry
registry = record {
  grok_account = grok.key;
  root = 10;
  mint = 80;
  bump = 255;
  merchants = 41 ∷ 42 ∷ [];
}

abbrev update : UpdateMerchantRegistry
update = record {
  signed = record { root = signer 10; grok_account = grok };
  merchant_registry = record {
    key = hash (text "merchants" ∷ address grok.key ∷ []);
    value = registry;
  };
}

abbrev grown : MerchantRegistry
grown = record registry { merchants = 41 ∷ 42 ∷ 43 ∷ [] }

add_succeeds : add chain update 43 world ≡ ok (grown, world_after (add chain update 43 world))
unfolding add check_update check_root check_grok_account
add_succeeds = refl

abbrev shrunk : MerchantRegistry
shrunk = record registry { merchants = 42 ∷ [] }

remove_succeeds :
    remove chain update 41 world ≡ ok (shrunk, world_after (remove chain update 41 world))
unfolding remove check_update check_root check_grok_account
remove_succeeds = refl

update_checked : check_update chain update world ≡ ok (tt, world)
unfolding check_update check_root check_grok_account
update_checked = refl

registry-IsRegistry : IsRegistry registry
registry-IsRegistry = ((refl, (refl, tt)), omega arith)

add-contains_example :
    RunsRegistry chain update
    × IsRegistry grown
    × (contains 43 grown.merchants ≡ ((43 == 43) || contains 43 registry.merchants))
    × (grown.mint ≡ registry.mint)
    × (grown.grok_account ≡ registry.grok_account)
add-contains_example =
    add-contains chain update 43 43 world (world_after (add chain update 43 world)) grown
      registry-IsRegistry add_succeeds

remove-contains_example :
    RunsRegistry chain update
    × IsRegistry shrunk
    × (contains 41 registry.merchants ≡ true)
    × (contains 42 shrunk.merchants ≡ (not (42 == 41) && contains 42 registry.merchants))
    × (shrunk.mint ≡ registry.mint)
remove-contains_example =
    remove-contains chain update 41 42 world (world_after (remove chain update 41 world)) shrunk
      registry-IsRegistry remove_succeeds
