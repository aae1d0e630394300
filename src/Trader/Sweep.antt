-- ===== src/Trader/Sweep.antt =====
-- Withdrawing the trader's lamports and tokens to the root (`withdraw`, `token_account_fields` and
-- `sweep_token_pair` of pump_trader.rs).
use grokchain_programs.Base.{
  ℕ, ◌%◌, true, false, List, [], ◌∷◌, length, leb, ltb, ◌==◌, checked_sub, u64_bytes, if◌then◌else◌,
}
use grokchain_programs.Errors.{
  withdraw_remaining_accounts_odd, withdraw_token_account_invalid, withdraw_token_owner_not_trader,
  withdraw_token_dest_owner_not_root, withdraw_token_mint_mismatch, invalid_token_program,
  insufficient_pump_trader,
}
use grokchain_programs.Constants.{pump_trader_space, token_program_id, token_2022_program_id}
use grokchain_programs.Common.{require_pump_trader_ready}
use grokchain_programs.Common.Root.{Root, check_root}
use grokchain_programs.CoreCpi.{writable, readonly}
use grokchain_programs.Events.{Event}
use grokchain_programs.Subscription.Pay.{trader_signer}
use grokchain_programs.Subscription.TokenAccount.{TokenFields, fields_of, is_token_program}
use grokchain_programs.Trader.Manage.{check_trader_seeds}
use grokchain_programs.Runtime.Address.{Pubkey}
use grokchain_programs.Runtime.World.{Runtime, AccountInfo, Instruction, AnchorError}
use grokchain_programs.Runtime.Check
use grokchain_programs.Runtime.Monad.{
  Action, pure, ◌>>=◌, ◌>>◌, lift, require, ok_or, when, gets, emit, invoke_signed,
}

-- `WithdrawPumpTrader`, with the remaining accounts.
pub record WithdrawPumpTrader : Type 0 where
  pub signed : Root
  pub open signed use *
  pub pump_trader : Pubkey
  pub token_program : Pubkey
  pub token_2022_program : Pubkey
  pub remaining_accounts : List AccountInfo

-- `TOKEN_ACCOUNT_MIN_LEN` and `TOKEN_TRANSFER_IX` of pump_trader.rs.
abbrev pub swept_account_min_len : ℕ
swept_account_min_len = 72

abbrev pub token_transfer_ix : ℕ
token_transfer_ix = 3

-- `token_account_fields`.
unfoldable pub swept_account_fields : Pubkey → Action TokenFields
swept_account_fields info = do
  owner ← gets (λ w. w.owner info)
  require (is_token_program owner) invalid_token_program
  bytes ← gets (λ w. w.bytes info)
  require (leb swept_account_min_len (length bytes)) withdraw_token_account_invalid
  pure (fields_of bytes)

-- The `Transfer` instruction of the token program `program`.
abbrev pub sweep_ix : Pubkey → Pubkey → Pubkey → Pubkey → ℕ → Instruction
sweep_ix program from to trader amount = record {
  program_id = program;
  accounts = writable from false ∷ writable to false ∷ readonly trader true ∷ [];
  payload = token_transfer_ix ∷ u64_bytes amount;
}

-- `signer` is the address that the trader's seeds derive.
unfoldable pub sweep_token_pair :
    Runtime → Pubkey → Pubkey → Pubkey → Pubkey → Pubkey → Action (Unit {0})
sweep_token_pair rt from to trader root signer = do
  from_program ← gets (λ w. w.owner from)
  to_program ← gets (λ w. w.owner to)
  require (from_program == to_program) invalid_token_program
  source ← swept_account_fields from
  dest ← swept_account_fields to
  require (source.owner == trader) withdraw_token_owner_not_trader
  require (dest.owner == root) withdraw_token_dest_owner_not_root
  require (source.mint == dest.mint) withdraw_token_mint_mismatch
  if source.amount == 0
      then pure tt
      else invoke_signed rt (sweep_ix from_program from to trader source.amount) (signer ∷ [])

-- The loop over `remaining.chunks_exact(2)`.
unfoldable pub sweep_pairs :
    Runtime → List AccountInfo → Pubkey → Pubkey → Pubkey → Action (Unit {0})
sweep_pairs rt [] trader root signer = pure tt
sweep_pairs rt (from ∷ []) trader root signer = pure tt
sweep_pairs rt (from ∷ to ∷ rest) trader root signer = do
  sweep_token_pair rt from.key to.key trader root signer
  sweep_pairs rt rest trader root signer

-- The part under `if lamports > 0`.
unfoldable pub withdraw_lamports : Runtime → Pubkey → Pubkey → ℕ → Pubkey → Action (Unit {0})
withdraw_lamports rt trader root lamports signer = do
  balance ← gets (λ w. w.lamports trader)
  after ← ok_or (checked_sub balance lamports) insufficient_pump_trader
  require (leb (rt.minimum_balance pump_trader_space) after) insufficient_pump_trader
  invoke_signed rt (rt.system_transfer trader root lamports) (signer ∷ [])

unfoldable pub check_withdraw_pump_trader : Runtime → WithdrawPumpTrader → Action (Unit {0})
check_withdraw_pump_trader rt ctx = do
  lift (check_root rt ctx.signed)
  check_trader_seeds rt ctx.grok_account ctx.pump_trader
  lift (Check.constrain (ctx.token_program == token_program_id) AnchorError.constraint_address)
  lift (
      Check.constrain (ctx.token_2022_program == token_2022_program_id)
        AnchorError.constraint_address)

-- `withdraw_pump_trader`: Anchor's checks, then `withdraw`.
unfoldable pub withdraw_pump_trader : Runtime → WithdrawPumpTrader → ℕ → Action (Unit {0})
withdraw_pump_trader rt ctx lamports = do
  check_withdraw_pump_trader rt ctx
  require (length ctx.remaining_accounts % 2 == 0) withdraw_remaining_accounts_odd
  require_pump_trader_ready rt ctx.pump_trader
  when (ltb 0 lamports) (
      withdraw_lamports rt ctx.pump_trader ctx.root.key lamports
        (trader_signer rt ctx.grok_account))
  sweep_pairs rt ctx.remaining_accounts ctx.pump_trader ctx.root.key
      (trader_signer rt ctx.grok_account)
  emit (Event.pump_trader_withdrawn ctx.pump_trader ctx.grok_account.key ctx.root.key lamports)
