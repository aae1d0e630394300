-- ===== src/Examples/Fees.antt =====
-- The sponsorship fee and its burn on a small chain whose Token-2022 burns what it is told to.
use grokchain_programs.Base.{◌≡◌, refl, [], ◌∷◌, ◌++◌, ◌==◌, if◌then◌else◌}
use grokchain_programs.Common.Root.{check_derived, IsRoot}
use grokchain_programs.Constants.{grok_token_mint, token_2022_program_id}
use grokchain_programs.Events.{Event}
use grokchain_programs.Examples.Billing.{token_account, zeros}
use grokchain_programs.Examples.Chain.{chain, grok, hash, signer, world, world_after}
use grokchain_programs.SponsorFee.Bounds.{unset, setting, IsFee, Settings-bounded}
use grokchain_programs.SponsorFee.Burn.{
  BurnCollectedFees, fee_vault_fields, grok_mint_decimals, check_burn, burnable,
  burn_collected_fees,
}
use grokchain_programs.SponsorFee.Config.{
  InitSponsorFee, SetSponsorFee, check_fee_root, init_sponsor_fee, set_sponsor_fee,
}
use grokchain_programs.SponsorFee.Destruction.{IsBurned, burn_collected_fees-IsBurned}
use grokchain_programs.State.{SponsorFeeConfig}
use grokchain_programs.Subscription.TokenAccount.{fields_of}
use grokchain_programs.Runtime.Address.{Pubkey, text, address}
use grokchain_programs.Runtime.Monad.{update}
use grokchain_programs.Runtime.World.{World, Runtime, ok}

abbrev config : SponsorFeeConfig
config = record { grok_account = grok.key; root = 10; fee_per_intent = 0; bump = 255 }

abbrev config_key : Pubkey
config_key = hash (text "sponsor-fee" ∷ address grok.key ∷ [])

abbrev creation : InitSponsorFee
creation = record {
  signed = record { root = signer 10; grok_account = grok };
  sponsor_fee = config_key;
  bump = 255;
}

abbrev change : SetSponsorFee
change = record {
  signed = record { root = signer 10; grok_account = grok };
  sponsor_fee = record { key = config_key; value = config };
}

abbrev dearer : SponsorFeeConfig
dearer = record config { fee_per_intent = 9_000_000 }

init_succeeds :
    init_sponsor_fee chain creation world
    ≡ ok (config, record world { log = Event.sponsor_fee_set grok.key 10 0 ∷ [] })
unfolding init_sponsor_fee check_fee_root check_derived
init_succeeds = refl

set_succeeds :
    set_sponsor_fee chain change 9_000_000 world
    ≡ ok (dearer, record world { log = Event.sponsor_fee_set grok.key 10 9_000_000 ∷ [] })
unfolding set_sponsor_fee check_fee_root
set_succeeds = refl

Settings-bounded_example :
    IsRoot creation.signed × (config.fee_per_intent ≡ 0) × IsFee grok.key 10 dearer
Settings-bounded_example =
    Settings-bounded chain creation config dearer world
      (record world { log = Event.sponsor_fee_set grok.key 10 0 ∷ [] }) init_succeeds
      (setting change 9_000_000 world
        (record world { log = Event.sponsor_fee_set grok.key 10 9_000_000 ∷ [] }) refl set_succeeds
        unset)

abbrev fee_owner : Pubkey
fee_owner = hash (text "fee-vault" ∷ address grok.key ∷ [])

-- The vault is account 95.
abbrev furnace : Runtime
furnace = record chain {
  invoke = λ ix signers w.
      ok (record w { bytes = update w.bytes 95 (token_account grok_token_mint fee_owner 0) });
}

abbrev fee_world : World
fee_world = record world {
  owner = λ k. token_2022_program_id;
  bytes = λ k.
      if k == 95 then token_account grok_token_mint fee_owner 640 else zeros 44 ++ (6 ∷ zeros 37);
}

abbrev burning : BurnCollectedFees
burning = record {
  burner = signer 70;
  grok_account = grok.key;
  mint = grok_token_mint;
  fee_vault = 95;
  fee_vault_authority = fee_owner;
  token_program = token_2022_program_id;
}

abbrev after_burn : World
after_burn = world_after (burn_collected_fees furnace burning fee_world)

burn_succeeds : burn_collected_fees furnace burning fee_world ≡ ok (tt, after_burn)
unfolding burn_collected_fees check_burn burnable fee_vault_fields grok_mint_decimals fields_of
burn_succeeds = refl

burn_collected_fees-IsBurned_example : IsBurned furnace burning fee_world after_burn
burn_collected_fees-IsBurned_example =
    burn_collected_fees-IsBurned furnace burning fee_world after_burn burn_succeeds
