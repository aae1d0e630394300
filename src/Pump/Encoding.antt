-- ===== src/Pump/Encoding.antt =====
-- The data of the instructions that are sent to pump.fun (the encoders of constants.rs).
use grokchain_programs.Base.{
  ℕ, ◌%◌, Bool, String, List, [], ◌∷◌, ◌++◌, length, u64_bytes, le_bytes, utf8, if◌then◌else◌,
}
use grokchain_programs.Constants.{pump_buy_v2_disc, pump_sell_v2_disc, pump_create_v2_disc}
use grokchain_programs.Runtime.Address.{Pubkey, pubkey_bytes}

unfoldable pub encode_pump_buy_v2 : ℕ → ℕ → List ℕ
encode_pump_buy_v2 amount max_sol_cost =
    pump_buy_v2_disc ++ u64_bytes amount ++ u64_bytes max_sol_cost

unfoldable pub encode_pump_sell_v2 : ℕ → ℕ → List ℕ
encode_pump_sell_v2 amount min_sol_output =
    pump_sell_v2_disc ++ u64_bytes amount ++ u64_bytes min_sol_output

-- `bytes.len() as u32` is the length modulo 2 ^ 32.
unfoldable pub encode_borsh_string : String → List ℕ
encode_borsh_string s = le_bytes 4 (length (utf8 s) % 0x1_0000_0000) ++ utf8 s

-- `u8::from` of a bool.
abbrev pub u8_of : Bool → ℕ
u8_of b = if b then 1 else 0

unfoldable pub encode_pump_create_v2 : String → String → String → Pubkey → Bool → Bool → List ℕ
encode_pump_create_v2 name symbol uri creator is_mayhem_mode is_cashback_enabled =
    pump_create_v2_disc
    ++ (encode_borsh_string name
        ++ (encode_borsh_string symbol
            ++ (encode_borsh_string uri
                ++ (pubkey_bytes creator
                    ++ u8_of is_mayhem_mode ∷ u8_of is_cashback_enabled ∷ []))))
