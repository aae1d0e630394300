-- ===== src/Examples/Market.antt =====
-- The small chain with a market: a Jupiter that swaps the trader's tokens.
use grokchain_programs.Base.{
  true, false, [], ◌==◌, if◌then◌else◌, from_le_bytes, from_le_bytes-u64_bytes, u64_bytes, ◌||◌,
}
use grokchain_programs.Constants.{token_program_id, jupiter_v6_program_id, wsol_mint}
use grokchain_programs.CoreCpi.{check_grant_ix}
use grokchain_programs.CoreCpi.Metering.{MetersGrants}
use grokchain_programs.Examples.Billing.{token_account, trader}
use grokchain_programs.Examples.Chain.{chain, core, run_core, metered_by, world}
use grokchain_programs.Runtime.Address.{Pubkey}
use grokchain_programs.Runtime.Monad.{update}
use grokchain_programs.Runtime.World.{World, Runtime, AccountInfo, Instruction, Result, ok}

-- The swap: 1000 lamports' worth of wrapped SOL leave account 90, and 70 tokens of mint 82 come to
-- account 92.
abbrev swapped : World → World
swapped w = record w {
  bytes =
      update (update w.bytes 90 (token_account wsol_mint trader 4_000)) 92
        (token_account 82 trader 77);
}

abbrev run : Instruction → World → Result World
run ix w =
    if ix.program_id == core
    then run_core ix w
    else if ix.program_id == jupiter_v6_program_id
    then ok (swapped w)
    else ok w

abbrev pub market : Runtime
market = record chain { invoke = λ ix signers w. run ix w }

-- Its CORE is that of the small chain.
pub market-MetersGrants : MetersGrants market
unfolding check_grant_ix
market-MetersGrants = record {
  on_success = λ grok grant agent target amount w w' small h.
      metered_by grant w w' (from_le_bytes (u64_bytes amount)) amount
        (from_le_bytes-u64_bytes amount small) h;
}

-- The trader holds 20 million lamports, 5000 of wrapped SOL and 7 of mint 82.
abbrev pub market_world : World
market_world = record world {
  lamports = update world.lamports trader 20_000_000;
  owner = λ k. if k == 90 || k == 92 then token_program_id else 0;
  bytes = λ k.
      if k == 90
      then token_account wsol_mint trader 5_000
      else if k == 92
      then token_account 82 trader 7
      else [];
}

abbrev pub account : Pubkey → AccountInfo
account k = record { key = k; is_signer = false; is_writable = true; executable = false }
