-- ===== src/Token/Accounts.antt =====
-- The trader's accounts among the remaining ones, and the wrapping of lamports
-- (`find_trader_in_remaining`, `find_trader_token_account`, `token_account_amount` and
-- `wrap_sol_to_wsol` of token.rs).
use grokchain_programs.Base.{
  ℕ, Bool, false, ◌&&◌, ◌==◌, leb, List, [], ◌∷◌, length, from_le_bytes, if◌then◌else◌,
}
use grokchain_programs.Errors.{
  pump_user_must_be_trader, jupiter_source_owner_not_trader, jupiter_dest_owner_not_trader,
  invalid_token_program,
}
use grokchain_programs.Constants.{token_program_id}
use grokchain_programs.CoreCpi.{writable}
use grokchain_programs.Subscription.TokenAccount.{is_token_program, fields_of, slice}
use grokchain_programs.Runtime.Address.{Pubkey}
use grokchain_programs.Runtime.World.{
  World, Runtime, AccountInfo, Instruction, Result, ok, err, intents,
}
use grokchain_programs.Runtime.Monad.{
  Action, pure, ◌>>=◌, ◌>>◌, require, require_keys_eq, gets, invoke_signed,
}

unfoldable pub find_trader_in_remaining : List AccountInfo → Pubkey → Result AccountInfo
find_trader_in_remaining [] trader = err (intents pump_user_must_be_trader)
find_trader_in_remaining (acc ∷ rest) trader =
    if acc.key == trader then ok acc else find_trader_in_remaining rest trader

-- `acc` passes the tests of the loop of `find_trader_token_account`: it is long enough, a token
-- program owns it, and its bytes name the mint and the trader.
unfoldable pub is_trader_token_account : World → Pubkey → Pubkey → Pubkey → Bool
is_trader_token_account w acc trader mint =
    leb 165 (length (w.bytes acc))
    && is_token_program (w.owner acc)
    && (fields_of (w.bytes acc)).mint == mint
    && (fields_of (w.bytes acc)).owner == trader

unfoldable pub find_trader_token_account :
    List AccountInfo → Pubkey → Pubkey → Bool → Action AccountInfo
find_trader_token_account [] trader mint is_source w =
    err (
      intents
        (if is_source then jupiter_source_owner_not_trader else jupiter_dest_owner_not_trader))
find_trader_token_account (acc ∷ rest) trader mint is_source w =
    if is_trader_token_account w acc.key trader mint
    then ok (acc, w)
    else find_trader_token_account rest trader mint is_source w

-- The amount that the bytes of a token account hold.
unfoldable pub amount_at : List ℕ → ℕ
amount_at bytes = from_le_bytes (slice 64 8 bytes)

unfoldable pub token_account_amount : Pubkey → Action ℕ
token_account_amount info = do
  bytes ← gets (λ w. w.bytes info)
  require (leb 72 (length bytes)) jupiter_source_owner_not_trader
  pure (amount_at bytes)

-- `TOKEN_SYNC_NATIVE`.
abbrev pub token_sync_native : ℕ
token_sync_native = 17

abbrev pub sync_ix : Pubkey → Instruction
sync_ix wsol_ata = record {
  program_id = token_program_id;
  accounts = writable wsol_ata false ∷ [];
  payload = token_sync_native ∷ [];
}

-- `signer` is the address that the trader's seeds derive.
unfoldable pub wrap_sol_to_wsol : Runtime → Pubkey → Pubkey → ℕ → Pubkey → Action (Unit {0})
wrap_sol_to_wsol rt trader wsol_ata amount signer = do
  owner ← gets (λ w. w.owner wsol_ata)
  require_keys_eq owner token_program_id invalid_token_program
  invoke_signed rt (rt.system_transfer trader wsol_ata amount) (signer ∷ [])
  invoke_signed rt (sync_ix wsol_ata) []
