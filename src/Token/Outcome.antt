-- ===== src/Token/Outcome.antt =====
-- What a swap that succeeds has checked and done.
use grokchain_programs.Base.{ℕ, ◌+◌, ◌-◌, ◌≤◌, ◌≡◌, Bool, [], ◌∷◌, All}
use grokchain_programs.Common.Adapter.{IsRelayed}
use grokchain_programs.Common.Mouth.{IsAuthorised}
use grokchain_programs.Common.Sponsor.{Reimburses}
use grokchain_programs.Constants.{jupiter_v6_program_id}
use grokchain_programs.CoreCpi.Metering.{metered}
use grokchain_programs.Intents.Call.{paymaster_key}
use grokchain_programs.Policy.{token_check_grant_amount}
use grokchain_programs.State.{TokenBuyArgs}
use grokchain_programs.Subscription.Pay.{derived_trader, trader_signer}
use grokchain_programs.Token.Accounts.{amount_at}
use grokchain_programs.Token.Handing.{Hands}
use grokchain_programs.Token.Route.{jupiter_metas, route_ix}
use grokchain_programs.Token.Steps.{Picked, Prepares}
use grokchain_programs.Token.Trade.{TokenTrade, trade_event}
use grokchain_programs.Runtime.Address.{Pubkey}
use grokchain_programs.Runtime.World.{World, Runtime, AccountInfo, ok}

-- The route: Jupiter was called with the accounts as `jupiter_metas` lists them, with the trader's
-- signature only, and the two numbers are the differences of the balances around the call.
pub record IsRouted (rt : Runtime) (ctx : TokenTrade) (args : TokenBuyArgs) (source dest : Pubkey)
    (w w' : World) (spent received : ℕ) : Type 0 where
  pub invoked :
      rt.invoke
        (route_ix ctx.remaining_accounts (derived_trader rt ctx.grok_account).0 args.jupiter_data)
        (trader_signer rt ctx.grok_account ∷ [])
        w
      ≡ ok w'
  pub spends : spent ≡ amount_at (w.bytes source) - amount_at (w'.bytes source)
  pub receives : received ≡ amount_at (w'.bytes dest) - amount_at (w.bytes dest)

-- A swap that is settled: the agent signed and pays no fee, the two accounts are the trader's own,
-- of the two mints, the grant is metered within its cap by what the swap may spend of SOL, any SOL
-- to wrap comes from the derived trader, Jupiter was handed neither the vault nor the paymaster that
-- the swap was given and gained no signature but the trader's, and the balances measured around its
-- call are within the bounds that the agent stated.
pub record IsSwapped (rt : Runtime) (ctx : TokenTrade) (args : TokenBuyArgs) (is_sell : Bool)
    (w w' : World) : Type 0 where
  pub authorised : IsAuthorised ctx.mouth
  pub relayed : IsRelayed ctx.mouth
  pub program : ctx.jupiter_program.key ≡ jupiter_v6_program_id
  pub source : AccountInfo
  pub dest : AccountInfo
  pub picked : Picked rt ctx args w (source, dest)
  pub granted : World
  pub meters :
      granted
      ≡ metered ctx.grant.key
          (token_check_grant_amount args.input_mint args.wrap_sol args.in_amount)
          w
  pub within_cap :
      (w.grants ctx.grant.key).spent_lamports
        + token_check_grant_amount args.input_mint args.wrap_sol args.in_amount
      ≤ (w.grants ctx.grant.key).spend_cap_lamports
  pub before : World
  pub prepared :
      Prepares rt ctx args args.wrap_sol
        (derived_trader rt ctx.grok_account).0
        source.key
        granted
        before
  pub after : World
  pub invoked :
      rt.invoke
        (route_ix ctx.remaining_accounts (derived_trader rt ctx.grok_account).0 args.jupiter_data)
        (trader_signer rt ctx.grok_account ∷ [])
        before
      ≡ ok after
  pub hands :
      All
        (Hands ctx.spend_vault.key
          (paymaster_key ctx.paymaster)
          (derived_trader rt ctx.grok_account).0
          ctx.remaining_accounts)
        (jupiter_metas ctx.remaining_accounts (derived_trader rt ctx.grok_account).0)
  pub spent_bounded :
      amount_at (before.bytes source.key) ≤ amount_at (after.bytes source.key) + args.in_amount
  pub received_enough :
      args.min_out ≤ amount_at (after.bytes dest.key) - amount_at (before.bytes dest.key)
  pub reimbursed : World
  pub reimburses :
      Reimburses rt ctx.grant ctx.paymaster ctx.fee_payer args.sponsor_lamports after reimbursed
  pub logged : w' ≡ record reimbursed {
    log =
        trade_event rt ctx args is_sell
          (amount_at (before.bytes source.key) - amount_at (after.bytes source.key))
          (amount_at (after.bytes dest.key) - amount_at (before.bytes dest.key))
        ∷ reimbursed.log;
  }
