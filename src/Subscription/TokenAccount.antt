-- ===== src/Subscription/TokenAccount.antt =====
-- The token program's accounts as this program reads them (`token_account_fields`, `mint_decimals`)
-- and the transfer that it asks for.
use grokchain_programs.Base.{
  ℕ, Bool, true, false, ◌||◌, List, [], ◌∷◌, ◌++◌, none, some, length, take, drop, get_elem?, leb,
  ltb, ◌==◌, from_le_bytes, u64_bytes,
}
use grokchain_programs.Errors.{invalid_token_program, pay_token_account_invalid}
use grokchain_programs.Constants.{token_program_id, token_2022_program_id}
use grokchain_programs.CoreCpi.{writable, readonly}
use grokchain_programs.Runtime.Address.{Pubkey, pubkey_of_bytes}
use grokchain_programs.Runtime.World.{Instruction, Result, ok, err, aborted}
use grokchain_programs.Runtime.Monad.{Action, pure, ◌>>=◌, ◌>>◌, lift, require, gets}

-- `TOKEN_IX_TRANSFER_CHECKED`, `MINT_DECIMALS_OFFSET`, `TOKEN_ACCOUNT_MIN_LEN`.
abbrev pub token_ix_transfer_checked : ℕ
token_ix_transfer_checked = 12

abbrev pub mint_decimals_offset : ℕ
mint_decimals_offset = 44

abbrev pub token_account_min_len : ℕ
token_account_min_len = 165

abbrev pub is_token_program : Pubkey → Bool
is_token_program k = k == token_program_id || k == token_2022_program_id

-- The triple that `token_account_fields` returns.
pub record TokenFields : Type 0 where
  pub mint : Pubkey
  pub owner : Pubkey
  pub amount : ℕ

-- `&data[from..from + len]`
abbrev pub slice : ℕ → ℕ → List ℕ → List ℕ
slice from len bytes = take len (drop from bytes)

unfoldable pub fields_of : List ℕ → TokenFields
fields_of bytes = record {
  mint = pubkey_of_bytes (slice 0 32 bytes);
  owner = pubkey_of_bytes (slice 32 32 bytes);
  amount = from_le_bytes (slice 64 8 bytes);
}

unfoldable pub token_account_fields : Pubkey → Action TokenFields
token_account_fields info = do
  owner ← gets (λ w. w.owner info)
  require (is_token_program owner) invalid_token_program
  bytes ← gets (λ w. w.bytes info)
  require (leb token_account_min_len (length bytes)) pay_token_account_invalid
  pure (fields_of bytes)

-- Indexing: it aborts out of range.
abbrev pub index : List ℕ → ℕ → Result ℕ
index bytes i = elim (get_elem? bytes i) [ some b ↦ ok b | none ↦ err aborted ]

unfoldable pub mint_decimals : Pubkey → Action ℕ
mint_decimals info = do
  owner ← gets (λ w. w.owner info)
  require (is_token_program owner) invalid_token_program
  bytes ← gets (λ w. w.bytes info)
  require (ltb mint_decimals_offset (length bytes)) pay_token_account_invalid
  lift (index bytes mint_decimals_offset)

-- The `TransferChecked` instruction that `pay` builds.
unfoldable pub transfer_checked : Pubkey → Pubkey → Pubkey → Pubkey → Pubkey → ℕ → ℕ → Instruction
transfer_checked token_program source mint destination trader amount decimals = record {
  program_id = token_program;
  accounts =
      writable source false
      ∷ readonly mint false
      ∷ writable destination false
      ∷ readonly trader true
      ∷ [];
  payload = token_ix_transfer_checked ∷ u64_bytes amount ++ (decimals ∷ []);
}
