-- ===== src/PayToken.antt =====
-- Paying a merchant in tokens (programs/grok_chain_intents/src/instructions/pay_token.rs).
pub mod Settlement
use grokchain_programs.Base.{
  ℕ, Bool, true, false, Option, none, some, List, [], ◌∷◌, contains, ltb, leb, ◌==◌,
}
use grokchain_programs.Errors.{
  zero_amount, pay_token_mint_not_registered, pay_token_mint_mismatch,
  pay_token_source_owner_not_trader, pay_token_insufficient, pay_token_payee_not_allowed,
  pay_token_decimals_mismatch, invalid_token_program, grok_account_mismatch, unauthorized_root,
}
use grokchain_programs.Constants.{intents_id, seed_spend_vault}
use grokchain_programs.Common.{reimburse_sponsor}
use grokchain_programs.Common.Checks.{precheck_sponsor}
use grokchain_programs.Common.Mouth.{check_seeds, check_grok_account, check_grant_account}
use grokchain_programs.CoreCpi.{check_grant}
use grokchain_programs.Events.{Event}
use grokchain_programs.State.{MerchantRegistry, PayTokenArgs, Paymaster, SpendVault}
use grokchain_programs.Subscription.Manage.{check_registry}
use grokchain_programs.Subscription.Pay.{check_payer, derived_trader, trader_signer}
use grokchain_programs.Subscription.TokenAccount.{
  token_account_fields, mint_decimals, transfer_checked, is_token_program,
}
use grokchain_programs.Runtime.Address.{Pubkey, text, address}
use grokchain_programs.Runtime.World.{
  Runtime, Account, AccountInfo, Grant, GrokAccount, Instruction, AnchorError,
}
use grokchain_programs.Runtime.Check
use grokchain_programs.Runtime.Monad.{
  Action, pure, ◌>>=◌, ◌>>◌, lift, require, require_keys_eq, gets, emit, invoke_signed,
}

-- `PayToken`.
pub record PayToken : Type 0 where
  pub agent : AccountInfo
  pub grok_account : Account GrokAccount
  pub grant : Account Grant
  pub grok_chain_core_program : Pubkey
  pub intents_program : Pubkey
  pub spend_vault : Account SpendVault
  pub merchant_registry : Account MerchantRegistry
  pub pump_trader : Pubkey
  pub source : Pubkey
  pub destination : Pubkey
  pub mint : Pubkey
  pub token_program : Pubkey
  pub reference : Option Pubkey
  pub paymaster : Option (Account Paymaster)
  pub fee_payer : Option AccountInfo

-- Anchor's checks.
unfoldable pub check_pay_token : Runtime → PayToken → Action (Unit {0})
check_pay_token rt ctx = do
  lift (Check.check_signer ctx.agent)
  lift (Check.constrain (ctx.grok_chain_core_program == rt.core_id) AnchorError.invalid_program_id)
  lift (Check.check_optional_signer ctx.fee_payer)
  lift (check_grok_account rt ctx.grok_account)
  lift (check_grant_account rt ctx.grok_account ctx.agent ctx.grant)
  lift (Check.constrain (ctx.intents_program == intents_id) AnchorError.constraint_address)
  lift (
      check_seeds rt ctx.spend_vault.key (text seed_spend_vault ∷ address ctx.grok_account.key ∷ [])
        ctx.spend_vault.value.bump intents_id)
  require (ctx.spend_vault.value.grok_account == ctx.grok_account.key) grok_account_mismatch
  lift (check_registry rt ctx.grok_account ctx.merchant_registry)
  require (ctx.merchant_registry.value.root == ctx.grok_account.value.root) unauthorized_root
  lift (
      Check.constrain (ctx.pump_trader == (derived_trader rt ctx.grok_account).0)
        AnchorError.constraint_seeds)
  lift (check_payer rt ctx.grok_account ctx.paymaster)

-- The checks of the mint, the token accounts and the decimals; it returns the payee.
unfoldable pub check_payee : PayToken → PayTokenArgs → Action Pubkey
check_payee ctx args = do
  let registry = ctx.merchant_registry.value
  require_keys_eq registry.mint ctx.mint pay_token_mint_not_registered
  src ← token_account_fields ctx.source
  require_keys_eq src.mint ctx.mint pay_token_mint_mismatch
  require_keys_eq src.owner ctx.pump_trader pay_token_source_owner_not_trader
  require (leb args.amount src.amount) pay_token_insufficient
  dst ← token_account_fields ctx.destination
  require_keys_eq dst.mint ctx.mint pay_token_mint_mismatch
  require (contains dst.owner registry.merchants) pay_token_payee_not_allowed
  decimals ← mint_decimals ctx.mint
  require (args.decimals == decimals) pay_token_decimals_mismatch
  pure dst.owner

-- The token program is one of the two, and it owns both token accounts.
unfoldable pub check_owners : PayToken → Action (Unit {0})
check_owners ctx = do
  require (is_token_program ctx.token_program) invalid_token_program
  source_owner ← gets (λ w. w.owner ctx.source)
  require (source_owner == ctx.token_program) invalid_token_program
  destination_owner ← gets (λ w. w.owner ctx.destination)
  require (destination_owner == ctx.token_program) invalid_token_program

-- The instruction that `handler` sends. The decimals are the mint's, which the arguments repeat.
abbrev pub token_transfer : PayToken → PayTokenArgs → Instruction
token_transfer ctx args =
    transfer_checked ctx.token_program ctx.source ctx.mint ctx.destination ctx.pump_trader
      args.amount args.decimals

-- `pay_token`: Anchor's checks, then `handler`.
unfoldable pub pay_token : Runtime → PayToken → PayTokenArgs → Action (Unit {0})
pay_token rt ctx args = do
  check_pay_token rt ctx
  require (ltb 0 args.amount) zero_amount
  lift (precheck_sponsor args.sponsor_lamports ctx.paymaster ctx.fee_payer)
  payee ← check_payee ctx args
  check_grant rt ctx.grok_chain_core_program ctx.grok_account.key ctx.grant.key ctx.agent.key
      ctx.intents_program args.amount
  check_owners ctx
  invoke_signed rt (token_transfer ctx args) (trader_signer rt ctx.grok_account ∷ [])
  reimburse_sponsor rt ctx.grant ctx.paymaster ctx.fee_payer args.sponsor_lamports
  emit (
      Event.token_paid ctx.pump_trader ctx.mint ctx.destination payee args.amount args.decimals
        ctx.reference ctx.agent.key ctx.grant.key ctx.grant.value.generation)
