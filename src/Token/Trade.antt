-- ===== src/Token/Trade.antt =====
-- `token_buy` and `token_sell` (`trade` and `TokenTrade` of token.rs).
use grokchain_programs.Base.{
  ℕ, Bool, true, false, not, List, [], ◌∷◌, map, contains, saturating_sub,
}
use grokchain_programs.Errors.{pump_pda_mismatch, pump_ata_create_requires_fee_payer}
use grokchain_programs.Constants.{jupiter_v6_program_id, pump_trader_space, system_program_id}
use grokchain_programs.Common.{reimburse_sponsor, require_pump_trader_ready}
use grokchain_programs.Common.Adapter.{check_adapter, fee_payer_key}
use grokchain_programs.Common.Checks.{precheck_sponsor, reject_protected_remaining}
use grokchain_programs.Common.Mouth.{Mouth}
use grokchain_programs.CoreCpi.{check_grant}
use grokchain_programs.Events.{Event}
use grokchain_programs.Intents.Call.{paymaster_key}
use grokchain_programs.Policy.{
  require_token_amounts, require_token_mints_distinct, require_wrap_mint,
  require_agent_not_fee_payer, require_jupiter_program, require_pump_user_not_vault,
  require_pump_trader_system_owned, require_pump_trader_prefunded, token_check_grant_amount,
  enforce_swap_outcome,
}
use grokchain_programs.Policy.Jupiter.{
  is_empty, require_nonempty_jupiter_data, require_jupiter_in_amount,
}
use grokchain_programs.State.{TokenBuyArgs, TokenSellArgs}
use grokchain_programs.Subscription.Pay.{derived_trader, trader_signer}
use grokchain_programs.Token.Route.{build_jupiter_ix}
use grokchain_programs.Token.Accounts.{
  find_trader_in_remaining, find_trader_token_account, token_account_amount, wrap_sol_to_wsol,
}
use grokchain_programs.Runtime.Address.{Pubkey}
use grokchain_programs.Runtime.World.{Runtime, AccountInfo, Result}
use grokchain_programs.Runtime.Check
use grokchain_programs.Runtime.Monad.{
  Action, pure, ◌>>=◌, ◌>>◌, lift, require, when, gets, emit, invoke_signed,
}

-- `TokenTrade`, with the remaining accounts.
pub record TokenTrade : Type 0 where
  pub mouth : Mouth
  pub open mouth use *
  pub jupiter_program : AccountInfo
  pub remaining_accounts : List AccountInfo

-- The checks of the arguments and the roles, which read no state.
unfoldable pub check_request : TokenTrade → TokenBuyArgs → Result (Unit {0})
check_request ctx args = Check.◌>>◌ (require_token_amounts args.in_amount) (
    Check.◌>>◌ (require_token_mints_distinct args.input_mint args.output_mint) (
      Check.◌>>◌ (require_wrap_mint args.wrap_sol args.input_mint) (
        Check.◌>>◌ (precheck_sponsor args.sponsor_lamports ctx.paymaster ctx.fee_payer) (
          Check.◌>>◌ (require_agent_not_fee_payer ctx.agent.key (fee_payer_key ctx.fee_payer)) (
            Check.◌>>◌ (require_jupiter_program ctx.jupiter_program.key) (
              Check.◌>>◌ (require_nonempty_jupiter_data args.jupiter_data)
                (require_jupiter_in_amount args.jupiter_data args.in_amount)))))))

-- The trader's account: it is ready, it is not the vault, and no remaining account is protected.
unfoldable pub check_trader : Runtime → TokenTrade → Action AccountInfo
check_trader rt ctx = do
  let trader = (derived_trader rt ctx.grok_account).0
  trader_ai ← lift (find_trader_in_remaining ctx.remaining_accounts trader)
  require_pump_trader_ready rt trader_ai.key
  lift (require_pump_user_not_vault trader ctx.spend_vault.key)
  owner ← gets (λ w. w.owner trader_ai.key)
  lift (require_pump_trader_system_owned owner)
  lift (
      reject_protected_remaining ctx.remaining_accounts ctx.spend_vault.key
        (paymaster_key ctx.paymaster))
  pure trader_ai

abbrev pub require_nonempty : Pubkey → Action (Unit {0})
require_nonempty info = do
  bytes ← gets (λ w. w.bytes info)
  require (not (is_empty bytes)) pump_ata_create_requires_fee_payer

-- The trader's token accounts of the input's and the output's mint.
unfoldable pub pick_accounts :
    Runtime → TokenTrade → TokenBuyArgs → Action (AccountInfo × AccountInfo)
pick_accounts rt ctx args = do
  let trader = (derived_trader rt ctx.grok_account).0
  source ← find_trader_token_account ctx.remaining_accounts trader args.input_mint true
  dest ← find_trader_token_account ctx.remaining_accounts trader args.output_mint false
  require_nonempty source.key
  require_nonempty dest.key
  pure (source, dest)

-- The part under `if args.wrap_sol`.
unfoldable pub wrap : Runtime → TokenTrade → TokenBuyArgs → Pubkey → Pubkey → Action (Unit {0})
wrap rt ctx args trader_ai source = do
  lamports ← gets (λ w. w.lamports trader_ai)
  lift
      (require_pump_trader_prefunded lamports args.in_amount (rt.minimum_balance pump_trader_space))
  require (contains system_program_id (map (λ a. a.key) ctx.remaining_accounts)) pump_pda_mismatch
  wrap_sol_to_wsol rt trader_ai source args.in_amount (trader_signer rt ctx.grok_account)

-- The call of Jupiter between two readings of the balances; it returns what the route has spent
-- and received.
unfoldable pub run_route : Runtime → TokenTrade → TokenBuyArgs → Pubkey → Pubkey → Action (ℕ × ℕ)
run_route rt ctx args source dest = do
  source_before ← token_account_amount source
  dest_before ← token_account_amount dest
  lift (require_nonempty_jupiter_data args.jupiter_data)
  ix ← lift (
      build_jupiter_ix ctx.remaining_accounts (derived_trader rt ctx.grok_account).0
        args.jupiter_data)
  invoke_signed rt ix (trader_signer rt ctx.grok_account ∷ [])
  source_after ← token_account_amount source
  dest_after ← token_account_amount dest
  pure (saturating_sub source_before source_after, saturating_sub dest_after dest_before)

abbrev pub trade_event : Runtime → TokenTrade → TokenBuyArgs → Bool → ℕ → ℕ → Event
trade_event rt ctx args true spent received =
    Event.token_sold ctx.spend_vault.key (derived_trader rt ctx.grok_account).0 args.input_mint
      args.output_mint args.in_amount args.min_out spent received ctx.agent.key ctx.grant.key
      ctx.grant.value.generation
trade_event rt ctx args false spent received =
    Event.token_bought ctx.spend_vault.key (derived_trader rt ctx.grok_account).0 args.input_mint
      args.output_mint args.in_amount args.min_out spent received ctx.agent.key ctx.grant.key
      ctx.grant.value.generation

-- `trade`, after Anchor's checks.
unfoldable pub trade : Runtime → TokenTrade → TokenBuyArgs → Bool → Action (Unit {0})
trade rt ctx args is_sell = do
  lift (check_adapter rt ctx.mouth ctx.jupiter_program jupiter_v6_program_id)
  lift (check_request ctx args)
  trader_ai ← check_trader rt ctx
  (source, dest) ← pick_accounts rt ctx args
  check_grant rt ctx.grok_chain_core_program ctx.grok_account.key ctx.grant.key ctx.agent.key
      ctx.intents_program (token_check_grant_amount args.input_mint args.wrap_sol args.in_amount)
  when args.wrap_sol (wrap rt ctx args trader_ai.key source.key)
  (spent, received) ← run_route rt ctx args source.key dest.key
  lift (enforce_swap_outcome spent received args.in_amount args.min_out)
  reimburse_sponsor rt ctx.grant ctx.paymaster ctx.fee_payer args.sponsor_lamports
  emit (trade_event rt ctx args is_sell spent received)

-- `token_buy_handler` and `token_sell_handler`.
abbrev pub token_buy : Runtime → TokenTrade → TokenBuyArgs → Action (Unit {0})
token_buy rt ctx args = trade rt ctx args false

abbrev pub token_sell : Runtime → TokenTrade → TokenSellArgs → Action (Unit {0})
token_sell rt ctx args =
    trade rt ctx
      (record {
        in_amount = args.in_amount;
        min_out = args.min_out;
        sponsor_lamports = args.sponsor_lamports;
        input_mint = args.input_mint;
        output_mint = args.output_mint;
        wrap_sol = args.wrap_sol;
        jupiter_data = args.jupiter_data;
      })
      true
