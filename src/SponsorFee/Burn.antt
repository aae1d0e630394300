-- ===== src/SponsorFee/Burn.antt =====
-- Burning the collected fees (`burn_collected_fees`, `note_collected`, `token_account_fields` and
-- `mint_decimals` of sponsor_fee.rs).
use grokchain_programs.Base.{
  ℕ, false, true, [], ◌∷◌, ◌++◌, length, leb, ltb, ◌==◌, u64_bytes, if◌then◌else◌,
}
use grokchain_programs.Errors.{
  invalid_token_program, sponsor_fee_mint_mismatch, sponsor_fee_vault_owner_mismatch,
  sponsor_fee_vault_malformed, nothing_to_burn, burn_incomplete,
}
use grokchain_programs.Constants.{
  intents_id, seed_fee_vault, grok_token_mint, token_2022_program_id,
}
use grokchain_programs.CoreCpi.{writable, readonly}
use grokchain_programs.Events.{Event}
use grokchain_programs.Subscription.TokenAccount.{
  TokenFields, fields_of, index, mint_decimals_offset, token_account_min_len,
}
use grokchain_programs.Runtime.Address.{Pubkey, text, address}
use grokchain_programs.Runtime.World.{Runtime, AccountInfo, Instruction, AnchorError}
use grokchain_programs.Runtime.Check
use grokchain_programs.Runtime.Monad.{
  Action, pure, ◌>>=◌, ◌>>◌, lift, require, require_keys_eq, gets, emit, invoke_signed,
}

-- `TOKEN_IX_BURN_CHECKED`.
abbrev pub token_ix_burn_checked : ℕ
token_ix_burn_checked = 15

-- `BurnCollectedFees`.
pub record BurnCollectedFees : Type 0 where
  pub burner : AccountInfo
  pub grok_account : Pubkey
  pub mint : Pubkey
  pub fee_vault : Pubkey
  pub fee_vault_authority : Pubkey
  pub token_program : Pubkey

-- `token_account_fields`: Token-2022 only.
unfoldable pub fee_vault_fields : Pubkey → Action TokenFields
fee_vault_fields info = do
  owner ← gets (λ w. w.owner info)
  require_keys_eq owner token_2022_program_id invalid_token_program
  bytes ← gets (λ w. w.bytes info)
  require (leb token_account_min_len (length bytes)) sponsor_fee_vault_malformed
  pure (fields_of bytes)

-- `mint_decimals`.
unfoldable pub grok_mint_decimals : Pubkey → Action ℕ
grok_mint_decimals info = do
  owner ← gets (λ w. w.owner info)
  require_keys_eq owner token_2022_program_id invalid_token_program
  require_keys_eq info grok_token_mint sponsor_fee_mint_mismatch
  bytes ← gets (λ w. w.bytes info)
  require (ltb mint_decimals_offset (length bytes)) sponsor_fee_vault_malformed
  lift (index bytes mint_decimals_offset)

-- The authority over the fee vault, as the account's seeds derive it.
abbrev pub fee_authority : Runtime → Pubkey → Pubkey × ℕ
fee_authority rt grok = rt.find_program_address (text seed_fee_vault ∷ address grok ∷ []) intents_id

abbrev pub fee_signer : Runtime → Pubkey → Pubkey
fee_signer rt grok =
    rt.create_program_address (text seed_fee_vault ∷ address grok ∷ []) (fee_authority rt grok).1
      intents_id

-- The `BurnChecked` instruction.
abbrev pub burn_ix : Pubkey → Pubkey → ℕ → ℕ → Instruction
burn_ix vault authority amount decimals = record {
  program_id = token_2022_program_id;
  accounts = writable vault false ∷ writable grok_token_mint false ∷ readonly authority true ∷ [];
  payload = token_ix_burn_checked ∷ u64_bytes amount ++ (decimals ∷ []);
}

unfoldable pub check_burn : Runtime → BurnCollectedFees → Action (Unit {0})
check_burn rt ctx = do
  lift (Check.check_signer ctx.burner)
  lift (
      Check.constrain (ctx.fee_vault_authority == (fee_authority rt ctx.grok_account).0)
        AnchorError.constraint_seeds)
  require (ctx.token_program == token_2022_program_id) invalid_token_program

-- The vault's checks; it returns the balance.
unfoldable pub burnable : Runtime → BurnCollectedFees → Action ℕ
burnable rt ctx = do
  vault ← fee_vault_fields ctx.fee_vault
  require_keys_eq vault.mint grok_token_mint sponsor_fee_mint_mismatch
  require_keys_eq vault.owner (fee_authority rt ctx.grok_account).0 sponsor_fee_vault_owner_mismatch
  require (ltb 0 vault.amount) nothing_to_burn
  pure vault.amount

-- `burn_collected_fees`: Anchor's checks, then the handler.
unfoldable pub burn_collected_fees : Runtime → BurnCollectedFees → Action (Unit {0})
burn_collected_fees rt ctx = do
  check_burn rt ctx
  amount ← burnable rt ctx
  decimals ← grok_mint_decimals ctx.mint
  invoke_signed rt (burn_ix ctx.fee_vault (fee_authority rt ctx.grok_account).0 amount decimals)
      (fee_signer rt ctx.grok_account ∷ [])
  after ← fee_vault_fields ctx.fee_vault
  require (after.amount == 0) burn_incomplete
  emit (Event.sponsor_fees_burned ctx.grok_account amount ctx.burner.key)

-- `note_collected`, which no instruction calls.
abbrev pub note_collected : Pubkey → Pubkey → ℕ → Action (Unit {0})
note_collected grok_account agent amount =
    if amount == 0 then pure tt else emit (Event.sponsor_fee_collected grok_account agent amount)
