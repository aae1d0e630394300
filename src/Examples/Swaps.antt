-- ===== src/Examples/Swaps.antt =====
-- A swap on the market.
use grokchain_programs.Base.{true, false, [], ◌∷◌, ◌++◌, u64_bytes}
use grokchain_programs.Constants.{jupiter_v6_program_id, wsol_mint}
use grokchain_programs.Examples.Billing.{trader}
use grokchain_programs.Examples.Chain.{mouth, world_after}
use grokchain_programs.Examples.Market.{market, market_world, account}
use grokchain_programs.State.{TokenBuyArgs}
use grokchain_programs.Token.Trade.{TokenTrade, trade}
use grokchain_programs.Runtime.World.{World}

abbrev swap_accounts : TokenTrade
swap_accounts = record {
  mouth = mouth;
  jupiter_program = record {
    key = jupiter_v6_program_id;
    is_signer = false;
    is_writable = false;
    executable = true;
  };
  remaining_accounts = account trader ∷ account 90 ∷ account 92 ∷ [];
}

abbrev order : TokenBuyArgs
order = record {
  in_amount = 1_000;
  min_out = 70;
  sponsor_lamports = 5_000;
  input_mint = wsol_mint;
  output_mint = 82;
  wrap_sol = false;
  jupiter_data = 1 ∷ 2 ∷ 3 ∷ 4 ∷ 5 ∷ 6 ∷ 7 ∷ 8 ∷ 0 ∷ u64_bytes 1_000 ++ 9 ∷ [];
}

abbrev after_swap : World
after_swap = world_after (trade market swap_accounts order false market_world)
