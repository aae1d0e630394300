-- ===== src/Constants.antt =====
-- Constants of programs/grok_chain_intents/src/constants.rs and lib.rs. Addresses are the numbers
-- of their base-58 texts.
use grokchain_programs.Base.{ℕ, ◌+◌, List, [], ◌∷◌, String}
use grokchain_programs.Runtime.Address.{Pubkey}

-- `declare_id!`: this program.
abbrev pub intents_id : Pubkey
intents_id = 0x21dd5fdee090eeea157b0c692229f0216e9e276927029d99eeb9fb0a69bddece

-- `SEED_SPEND_VAULT` and the other seeds of the program's derived addresses.
abbrev pub seed_spend_vault : String
seed_spend_vault = "spend-vault"

abbrev pub seed_paymaster : String
seed_paymaster = "paymaster"

abbrev pub seed_pump_trader : String
seed_pump_trader = "pump-trader"

abbrev pub seed_merchants : String
seed_merchants = "merchants"

abbrev pub seed_subscription : String
seed_subscription = "subscription"

abbrev pub seed_sub_grant : String
seed_sub_grant = "sub-grant"

-- `MAX_MERCHANTS`.
abbrev pub max_merchants : ℕ
max_merchants = 32

-- `PUMP_TRADER_SPACE`.
abbrev pub pump_trader_space : ℕ
pump_trader_space = 0

-- `MAX_SPONSOR_LAMPORTS`: 0.01 SOL.
abbrev pub max_sponsor_lamports : ℕ
max_sponsor_lamports = 10_000_000

-- `CHECK_GRANT_DISCRIMINATOR`.
abbrev pub check_grant_discriminator : List ℕ
check_grant_discriminator = 223 ∷ 172 ∷ 131 ∷ 140 ∷ 15 ∷ 133 ∷ 209 ∷ 250 ∷ []

-- `TOKEN_2022_PROGRAM_ID`.
abbrev pub token_2022_program_id : Pubkey
token_2022_program_id = 0x6ddf6e1ee758fde18425dbce46ccddab61afc4d83b90d27febdf928d8a18bfc

-- `TOKEN_PROGRAM_ID`.
abbrev pub token_program_id : Pubkey
token_program_id = 0x6ddf6e1d765a193d9cbe146ceeb79ac1cb485ed5f5b37913a8cf5857eff00a9

-- `PUMP_PROGRAM_ID`, `WSOL_MINT`, `JUPITER_V6_PROGRAM_ID`.
abbrev pub pump_program_id : Pubkey
pump_program_id = 0x156e0f693665acf44db1568bf175baa5189cb97f5d2ff3b655d2bb6fd6d18b0

abbrev pub wsol_mint : Pubkey
wsol_mint = 0x69b8857feab8184fb687f634618c035dac439dc1aeb3b5598a0f00000000001

abbrev pub jupiter_v6_program_id : Pubkey
jupiter_v6_program_id = 0x479d55bf231c06eee74c56ece681507fdb1b2dea3f48e5102b1cda256bc138f

-- `system_program::ID`, the address whose bytes are all zero.
abbrev pub system_program_id : Pubkey
system_program_id = 0

-- `SEED_SPONSOR_FEE`, `SEED_FEE_VAULT`.
abbrev pub seed_sponsor_fee : String
seed_sponsor_fee = "sponsor-fee"

abbrev pub seed_fee_vault : String
seed_fee_vault = "fee-vault"

-- `GROK_TOKEN_MINT`.
abbrev pub grok_token_mint : Pubkey
grok_token_mint = 0x1cf6d55138bb8f3ae00749a9a63fa2011a288c3820fe01c0cdd99f8a1641ddaf

-- `MAYHEM_PROGRAM_ID`, `ASSOCIATED_TOKEN_PROGRAM_ID`.
abbrev pub mayhem_program_id : Pubkey
mayhem_program_id = 0x52ae5d7a7daa724a6eab0a7295491855ad4a0671660674c4e034559803d65a3

abbrev pub associated_token_program_id : Pubkey
associated_token_program_id = 0x8c97258f4e2489f1bb3d1029148e0d830b5a1399daff1084048e7bd8dbe9f859

-- The discriminators of pump.fun's instructions.
abbrev pub pump_buy_v2_disc : List ℕ
pump_buy_v2_disc = 184 ∷ 23 ∷ 238 ∷ 97 ∷ 103 ∷ 197 ∷ 211 ∷ 61 ∷ []

abbrev pub pump_sell_v2_disc : List ℕ
pump_sell_v2_disc = 93 ∷ 246 ∷ 130 ∷ 60 ∷ 231 ∷ 233 ∷ 64 ∷ 178 ∷ []

abbrev pub pump_create_v2_disc : List ℕ
pump_create_v2_disc = 214 ∷ 144 ∷ 76 ∷ 236 ∷ 95 ∷ 139 ∷ 49 ∷ 180 ∷ []

-- The account counts, indices and lengths of pump.fun's instructions.
abbrev pub pump_buy_v2_account_count : ℕ
pump_buy_v2_account_count = 27

abbrev pub pump_sell_v2_account_count : ℕ
pump_sell_v2_account_count = 26

abbrev pub pump_user_index : ℕ
pump_user_index = 13

abbrev pub pump_program_index_buy : ℕ
pump_program_index_buy = 26

abbrev pub pump_program_index_sell : ℕ
pump_program_index_sell = 25

abbrev pub pump_trade_ix_data_len : ℕ
pump_trade_ix_data_len = 24

abbrev pub pump_create_v2_account_count : ℕ
pump_create_v2_account_count = 16

abbrev pub pump_create_v2_account_count_with_quote : ℕ
pump_create_v2_account_count_with_quote = 19

abbrev pub pump_create_mint_index : ℕ
pump_create_mint_index = 0

abbrev pub pump_create_user_index : ℕ
pump_create_user_index = 5

abbrev pub pump_create_program_index : ℕ
pump_create_program_index = 15

abbrev pub pump_create_name_max : ℕ
pump_create_name_max = 32

abbrev pub pump_create_symbol_max : ℕ
pump_create_symbol_max = 13

abbrev pub pump_create_uri_max : ℕ
pump_create_uri_max = 200

abbrev pub pump_create_v2_ix_data_min : ℕ
pump_create_v2_ix_data_min = 8 + 4 + 4 + 4 + 32 + 1 + 1
