-- ===== src/Pump/Accounts.antt =====
-- The accounts of pump.fun's instructions (`validate_pump_pdas`, `validate_pump_create_pdas`,
-- `build_pump_ix` and `build_pump_create_ix` of pump.rs).
use grokchain_programs.Base.{
  ℕ, suc, Bool, true, not, ◌||◌, List, [], ◌∷◌, none, some, length, get_elem?, ◌==◌, if◌then◌else◌,
}
use grokchain_programs.Errors.{
  pump_pda_mismatch, invalid_token_program, pump_user_must_be_trader, pump_empty_data_forbidden,
  pump_mint_must_be_signer,
}
use grokchain_programs.Constants.{
  pump_program_id, mayhem_program_id, associated_token_program_id, token_program_id,
  token_2022_program_id, system_program_id, pump_user_index, pump_create_user_index,
  pump_create_mint_index, pump_trade_ix_data_len,
}
use grokchain_programs.CoreCpi.{writable}
use grokchain_programs.Policy.Jupiter.{is_empty}
use grokchain_programs.Pump.Checks.{require_nonempty_pump_create_data}
use grokchain_programs.Token.Route.{meta_of}
use grokchain_programs.Runtime.Address.{Pubkey, Seed, text, address}
use grokchain_programs.Runtime.World.{
  Runtime, AccountInfo, AccountMeta, Instruction, Result, ok, err, aborted,
}
use grokchain_programs.Runtime.Check.{◌>>=◌, ◌>>◌, require, require_keys_eq}

-- `remaining[i]`: it aborts out of range.
unfoldable pub account_at : List AccountInfo → ℕ → Result AccountInfo
account_at accounts i = elim (get_elem? accounts i) [ some a ↦ ok a | none ↦ err aborted ]

-- `require_keys_eq!(remaining[i].key(), k, IntentsError::PumpPdaMismatch)`
abbrev pub require_at : List AccountInfo → ℕ → Pubkey → Result (Unit {0})
require_at accounts i k = do a ← account_at accounts i; require_keys_eq a.key k pump_pda_mismatch

-- The addresses that pump.fun and its programs derive.
abbrev pub pump_pda : Runtime → List Seed → Pubkey
pump_pda rt seeds = (rt.find_program_address seeds pump_program_id).0

abbrev pub mayhem_pda : Runtime → List Seed → Pubkey
mayhem_pda rt seeds = (rt.find_program_address seeds mayhem_program_id).0

abbrev pub associated_account : Runtime → Pubkey → Pubkey → Pubkey → Pubkey
associated_account rt owner token_program mint =
    (rt.find_program_address (address owner ∷ address token_program ∷ address mint ∷ [])
      associated_token_program_id).0

-- `is_buy` decides where the accumulator and the event authority stand.
unfoldable pub validate_pump_pdas : Runtime → List AccountInfo → Pubkey → Bool → Result (Unit {0})
validate_pump_pdas rt remaining trader is_buy = do
  mint ← account_at remaining 1
  require_at remaining 0 (pump_pda rt (text "global" ∷ []))
  require_at remaining 10 (pump_pda rt (text "bonding-curve" ∷ address mint.key ∷ []))
  require_at remaining (if is_buy then 20 else 19)
      (pump_pda rt (text "user_volume_accumulator" ∷ address trader ∷ []))
  require_at remaining (if is_buy then 25 else 24) (pump_pda rt (text "__event_authority" ∷ []))
  token_program ← account_at remaining 3
  require (token_program.key == token_2022_program_id || token_program.key == token_program_id)
      invalid_token_program
  require_at remaining 14 (associated_account rt trader token_program.key mint.key)

unfoldable pub validate_pump_create_pdas : Runtime → List AccountInfo → Result (Unit {0})
validate_pump_create_pdas rt remaining = do
  mint ← account_at remaining 0
  require_at remaining 1 (pump_pda rt (text "mint-authority" ∷ []))
  let curve = pump_pda rt (text "bonding-curve" ∷ address mint.key ∷ [])
  require_at remaining 2 curve
  require_at remaining 4 (pump_pda rt (text "global" ∷ []))
  require_at remaining 6 system_program_id
  token_program ← account_at remaining 7
  require_keys_eq token_program.key token_2022_program_id invalid_token_program
  require_at remaining 8 associated_token_program_id
  require_at remaining 9 mayhem_program_id
  require_at remaining 3 (associated_account rt curve token_2022_program_id mint.key)
  require_at remaining 10 (mayhem_pda rt (text "global-params" ∷ []))
  let sol_vault = mayhem_pda rt (text "sol-vault" ∷ [])
  require_at remaining 11 sol_vault
  require_at remaining 12 (mayhem_pda rt (text "mayhem-state" ∷ address mint.key ∷ []))
  require_at remaining 13 (associated_account rt sol_vault token_2022_program_id mint.key)
  require_at remaining 14 (pump_pda rt (text "__event_authority" ∷ []))

-- The loops of `build_pump_ix` and `build_pump_create_ix`: the metas of the accounts by position,
-- where `i` is the position of the first.
unfoldable pub build_metas :
    (ℕ → AccountInfo → Result AccountMeta) → ℕ → List AccountInfo → Result (List AccountMeta)
build_metas meta i [] = ok []
build_metas meta i (a ∷ rest) = do
  m ← meta i a
  metas ← build_metas meta (suc i) rest
  ok (m ∷ metas)

-- The trader's slot.
abbrev pub user_meta : AccountInfo → Pubkey → Result AccountMeta
user_meta a trader = do
  require_keys_eq a.key trader pump_user_must_be_trader
  ok (writable trader true)

unfoldable pub trade_meta : Pubkey → ℕ → AccountInfo → Result AccountMeta
trade_meta trader i a = if i == pump_user_index then user_meta a trader else ok (meta_of a)

-- The new coin's slot.
abbrev pub mint_meta : AccountInfo → Result AccountMeta
mint_meta a = do require a.is_signer pump_mint_must_be_signer; ok (writable a.key true)

unfoldable pub create_meta : Pubkey → ℕ → AccountInfo → Result AccountMeta
create_meta trader i a =
    if i == pump_create_mint_index
    then mint_meta a
    else if i == pump_create_user_index
    then user_meta a trader
    else ok (meta_of a)

abbrev pub pump_ix : List AccountMeta → List ℕ → Instruction
pump_ix metas payload = record { program_id = pump_program_id; accounts = metas; payload = payload }

unfoldable pub build_pump_ix : List AccountInfo → Pubkey → List ℕ → Result Instruction
build_pump_ix remaining trader payload = do
  require (not (is_empty payload)) pump_empty_data_forbidden
  require (length payload == pump_trade_ix_data_len) pump_empty_data_forbidden
  metas ← build_metas (trade_meta trader) 0 remaining
  ok (pump_ix metas payload)

unfoldable pub build_pump_create_ix : List AccountInfo → Pubkey → List ℕ → Result Instruction
build_pump_create_ix remaining trader payload = do
  require_nonempty_pump_create_data payload
  metas ← build_metas (create_meta trader) 0 remaining
  ok (pump_ix metas payload)
