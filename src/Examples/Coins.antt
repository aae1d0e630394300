-- ===== src/Examples/Coins.antt =====
-- Trades and a new coin on pump.fun, on the market.
use grokchain_programs.Base.{
  ◌+◌, ◌≤◌, ◌≡◌, refl, true, false, List, [], ◌∷◌, ◌==◌, if◌then◌else◌, none, some, arith,
  get_elem?, utf8,
}
use grokchain_programs.Common.{reimburse_sponsor, require_pump_trader_ready}
use grokchain_programs.Common.Adapter.{check_adapter}
use grokchain_programs.Common.Checks.{precheck_sponsor, reject_paymaster_in_remaining}
use grokchain_programs.Common.Mouth.{
  check_grok_account, check_grant_account, check_spend_vault, check_paymaster,
}
use grokchain_programs.Constants.{
  pump_program_id, token_2022_program_id, associated_token_program_id, mayhem_program_id,
  system_program_id, pump_user_index, pump_create_user_index, pump_create_mint_index,
  pump_trader_space, pump_create_v2_disc,
}
use grokchain_programs.CoreCpi.{check_grant, check_grant_ix}
use grokchain_programs.Custody.{try_debit_program_owned}
use grokchain_programs.Events.{Event}
use grokchain_programs.Examples.Billing.{token_account, trader}
use grokchain_programs.Examples.Chain.{mouth, vault, grant, world_after, hash, signer}
use grokchain_programs.Examples.Market.{market, market-MetersGrants, market_world, account}
use grokchain_programs.Policy.{
  require_agent_not_fee_payer, require_pump_program, require_pump_user_not_vault,
  require_pump_user_is_trader, require_pump_trader_system_owned, require_pump_trader_prefunded,
  require_sponsor_accounts, require_sponsor_cap, pump_sell_check_grant_amount,
}
use grokchain_programs.Pump.Accounts.{
  account_at, build_metas, trade_meta, create_meta, validate_pump_pdas, validate_pump_create_pdas,
  build_pump_ix, build_pump_create_ix,
}
use grokchain_programs.Pump.Checks.{
  require_pump_account_count, require_nonempty_pump_data, require_pump_buy_amounts,
  require_pump_sell_amounts, require_pump_create_strings, require_pump_create_amounts,
  require_pump_mint_is_signer, require_pump_create_account_count, require_nonempty_pump_create_data,
}
use grokchain_programs.Pump.Encoding.{
  encode_pump_buy_v2, encode_pump_sell_v2, encode_borsh_string, encode_pump_create_v2, u8_of,
}
use grokchain_programs.Pump.Framing.{
  read_create, encode_pump_create_v2-read, encode_pump_create_v2_accepted,
}
use grokchain_programs.Pump.Outcome.{pump_buy-IsSent, pump_sell-IsSent, pump_create-IsSent}
use grokchain_programs.Pump.Sending.{IsAsked, IsSent}
use grokchain_programs.Pump.Trade.{
  PumpTrade, check_roles, check_user, check_program_slot, meter, check_prefunded, check_ata, send,
  reimburse, pump_buy, pump_sell, pump_create,
}
use grokchain_programs.State.{PumpBuyArgs, PumpSellArgs, PumpCreateArgs}
use grokchain_programs.Runtime.Address.{Pubkey, text, address, pubkey_bytes}
use grokchain_programs.Runtime.World.{World, AccountInfo, ok}

abbrev ata : Pubkey
ata = hash (address trader ∷ address token_2022_program_id ∷ address 82 ∷ [])

abbrev curve : Pubkey
curve = hash (text "bonding-curve" ∷ address 83 ∷ [])

abbrev sol_vault : Pubkey
sol_vault = hash (text "sol-vault" ∷ [])

abbrev other : AccountInfo
other = account 99

abbrev accounts : List AccountInfo → PumpTrade
accounts remaining = record {
  mouth = mouth;
  pump_program = record {
    key = pump_program_id;
    is_signer = false;
    is_writable = false;
    executable = true;
  };
  remaining_accounts = remaining;
}

-- The trader holds 7 of the coin 82 in its associated account.
abbrev pump_world : World
pump_world = record market_world { bytes = λ k. if k == ata then token_account 82 trader 7 else [] }

abbrev buy_accounts : PumpTrade
buy_accounts = accounts (
    account (hash (text "global" ∷ []))
    ∷ account 82
    ∷ other
    ∷ account token_2022_program_id
    ∷ other
    ∷ other
    ∷ other
    ∷ other
    ∷ other
    ∷ other
    ∷ account (hash (text "bonding-curve" ∷ address 82 ∷ []))
    ∷ other
    ∷ other
    ∷ account trader
    ∷ account ata
    ∷ other
    ∷ other
    ∷ other
    ∷ other
    ∷ other
    ∷ account (hash (text "user_volume_accumulator" ∷ address trader ∷ []))
    ∷ other
    ∷ other
    ∷ other
    ∷ other
    ∷ account (hash (text "__event_authority" ∷ []))
    ∷ account pump_program_id
    ∷ [])

abbrev buy_args : PumpBuyArgs
buy_args = record { amount = 500; max_sol_cost = 2_000_000; sponsor_lamports = 5_000 }

abbrev after_buy : World
after_buy = world_after (pump_buy market buy_accounts buy_args pump_world)

buy_succeeds : pump_buy market buy_accounts buy_args pump_world ≡ ok (tt, after_buy)
unfolding pump_buy require_pump_buy_amounts check_prefunded require_pump_trader_prefunded check_ata
    encode_pump_buy_v2 require_pump_account_count validate_pump_pdas require_nonempty_pump_data
    build_pump_ix trade_meta check_adapter check_grok_account check_grant_account check_spend_vault
    check_paymaster check_roles precheck_sponsor require_sponsor_accounts require_sponsor_cap
    require_agent_not_fee_payer require_pump_program check_user account_at require_pump_trader_ready
    require_pump_user_not_vault require_pump_user_is_trader require_pump_trader_system_owned
    check_program_slot reject_paymaster_in_remaining meter check_grant check_grant_ix send
    build_metas reimburse reimburse_sponsor try_debit_program_owned
buy_succeeds = refl

pump_buy-IsSent_example :
    IsAsked market buy_accounts pump_user_index
    × (2_000_000 + market.minimum_balance pump_trader_space ≤ pump_world.lamports trader)
    × (mint : AccountInfo) × (get_elem? buy_accounts.remaining_accounts 1 ≡ some mint)
    × IsSent market buy_accounts pump_user_index none 2_000_000 5_000
        (encode_pump_buy_v2 500 2_000_000)
        (Event.pump_bought vault.key trader mint.key 500 2_000_000 20 grant.key 1)
        pump_world
        after_buy
pump_buy-IsSent_example =
    pump_buy-IsSent market buy_accounts buy_args pump_world after_buy market-MetersGrants
      (omega arith) buy_succeeds

abbrev sell_accounts : PumpTrade
sell_accounts = accounts (
    account (hash (text "global" ∷ []))
    ∷ account 82
    ∷ other
    ∷ account token_2022_program_id
    ∷ other
    ∷ other
    ∷ other
    ∷ other
    ∷ other
    ∷ other
    ∷ account (hash (text "bonding-curve" ∷ address 82 ∷ []))
    ∷ other
    ∷ other
    ∷ account trader
    ∷ account ata
    ∷ other
    ∷ other
    ∷ other
    ∷ other
    ∷ account (hash (text "user_volume_accumulator" ∷ address trader ∷ []))
    ∷ other
    ∷ other
    ∷ other
    ∷ other
    ∷ account (hash (text "__event_authority" ∷ []))
    ∷ account pump_program_id
    ∷ [])

abbrev sell_args : PumpSellArgs
sell_args = record { amount = 500; min_sol_output = 90; sponsor_lamports = 0 }

abbrev after_sell : World
after_sell = world_after (pump_sell market sell_accounts sell_args pump_world)

sell_succeeds : pump_sell market sell_accounts sell_args pump_world ≡ ok (tt, after_sell)
unfolding pump_sell require_pump_sell_amounts encode_pump_sell_v2 require_pump_account_count
    validate_pump_pdas require_nonempty_pump_data build_pump_ix trade_meta check_adapter
    check_grok_account check_grant_account check_spend_vault check_paymaster check_roles
    precheck_sponsor require_sponsor_accounts require_sponsor_cap require_agent_not_fee_payer
    require_pump_program check_user account_at require_pump_trader_ready require_pump_user_not_vault
    require_pump_user_is_trader require_pump_trader_system_owned check_program_slot
    reject_paymaster_in_remaining meter check_grant check_grant_ix send build_metas reimburse
    reimburse_sponsor try_debit_program_owned
sell_succeeds = refl

pump_sell-IsSent_example :
    IsAsked market sell_accounts pump_user_index
    × (mint : AccountInfo) × (get_elem? sell_accounts.remaining_accounts 1 ≡ some mint)
    × IsSent market sell_accounts pump_user_index none pump_sell_check_grant_amount 0
        (encode_pump_sell_v2 500 90)
        (Event.pump_sold vault.key trader mint.key 500 90 20 grant.key 1)
        pump_world
        after_sell
pump_sell-IsSent_example =
    pump_sell-IsSent market sell_accounts sell_args pump_world after_sell market-MetersGrants
      sell_succeeds

abbrev create_accounts : PumpTrade
create_accounts = accounts (
    signer 83
    ∷ account (hash (text "mint-authority" ∷ []))
    ∷ account curve
    ∷ account (hash (address curve ∷ address token_2022_program_id ∷ address 83 ∷ []))
    ∷ account (hash (text "global" ∷ []))
    ∷ account trader
    ∷ account system_program_id
    ∷ account token_2022_program_id
    ∷ account associated_token_program_id
    ∷ account mayhem_program_id
    ∷ account (hash (text "global-params" ∷ []))
    ∷ account sol_vault
    ∷ account (hash (text "mayhem-state" ∷ address 83 ∷ []))
    ∷ account (hash (address sol_vault ∷ address token_2022_program_id ∷ address 83 ∷ []))
    ∷ account (hash (text "__event_authority" ∷ []))
    ∷ account pump_program_id
    ∷ [])

abbrev create_args : PumpCreateArgs
create_args = record {
  name = "Grok";
  symbol = "GROK";
  uri = "ipfs://é";
  is_mayhem_mode = true;
  is_cashback_enabled = false;
  max_sol_cost = 2_000_000;
  sponsor_lamports = 0;
}

abbrev after_create : World
after_create = world_after (pump_create market create_accounts create_args pump_world)

create_succeeds : pump_create market create_accounts create_args pump_world ≡ ok (tt, after_create)
unfolding pump_create require_pump_create_strings require_pump_create_amounts
    require_pump_create_account_count require_pump_mint_is_signer validate_pump_create_pdas
    check_prefunded require_pump_trader_prefunded require_nonempty_pump_create_data
    build_pump_create_ix create_meta encode_pump_create_v2 encode_borsh_string utf8 check_adapter
    check_grok_account check_grant_account check_spend_vault check_paymaster check_roles
    precheck_sponsor require_sponsor_accounts require_sponsor_cap require_agent_not_fee_payer
    require_pump_program check_user account_at require_pump_trader_ready require_pump_user_not_vault
    require_pump_user_is_trader require_pump_trader_system_owned check_program_slot
    reject_paymaster_in_remaining meter check_grant check_grant_ix send build_metas reimburse
    reimburse_sponsor try_debit_program_owned
create_succeeds = refl

pump_create-IsSent_example :
    IsAsked market create_accounts pump_create_user_index
    × (2_000_000 + market.minimum_balance pump_trader_space ≤ pump_world.lamports trader)
    × (mint : AccountInfo) × (get_elem? create_accounts.remaining_accounts pump_create_mint_index
        ≡ some mint)
    × (mint.is_signer ≡ true)
    × IsSent market create_accounts pump_create_user_index
        (some pump_create_mint_index)
        2_000_000
        0
        (encode_pump_create_v2 "Grok" "GROK" "ipfs://é" 10 true false)
        (Event.pump_created vault.key trader mint.key 10 2_000_000 true false 20 grant.key 1)
        pump_world
        after_create
pump_create-IsSent_example =
    pump_create-IsSent market create_accounts create_args pump_world after_create
      market-MetersGrants (omega arith) create_succeeds

texts_pass : require_pump_create_strings "Grok" "GROK" "ipfs://é" ≡ ok tt
unfolding require_pump_create_strings
texts_pass = refl

encode_pump_create_v2-read_example :
    read_create (encode_pump_create_v2 "Grok" "GROK" "ipfs://é" 10 true false)
    ≡ some (record {
      disc = pump_create_v2_disc;
      name = utf8 "Grok";
      symbol = utf8 "GROK";
      uri = utf8 "ipfs://é";
      creator = pubkey_bytes 10;
      flags = u8_of true ∷ u8_of false ∷ [];
    })
encode_pump_create_v2-read_example =
    encode_pump_create_v2-read "Grok" "GROK" "ipfs://é" 10 true false texts_pass

encode_pump_create_v2_accepted_example :
    require_nonempty_pump_create_data (encode_pump_create_v2 "Grok" "GROK" "ipfs://é" 10 true false)
    ≡ ok tt
encode_pump_create_v2_accepted_example =
    encode_pump_create_v2_accepted "Grok" "GROK" "ipfs://é" 10 true false
