-- ===== src/PayToken/Settlement.antt =====
-- What a token payment that succeeds has checked and done.
use grokchain_programs.Base.{◌+◌, ◌≤◌, ◌≡◌, true, [], ◌∷◌, contains, arith}
use grokchain_programs.CoreCpi.Metering.{metered}
use grokchain_programs.Common.Ownership.{IsAccountOfRoot, Belongs}
use grokchain_programs.Common.Mouth.{seed_grant, check_grok_account, check_grant_account}
use grokchain_programs.Constants.{seed_merchants, seed_pump_trader, intents_id}
use grokchain_programs.Subscription.Manage.{check_registry}
use grokchain_programs.Subscription.Parts.{IsTokenProgram}
use grokchain_programs.State.{PayTokenArgs}
use grokchain_programs.PayToken.{PayToken, check_pay_token, token_transfer}
use grokchain_programs.Subscription.Pay.{trader_signer}
use grokchain_programs.Subscription.TokenAccount.{fields_of}
use grokchain_programs.Runtime.Address.{text, address}
use grokchain_programs.Runtime.World.{World, Runtime, ok}
use grokchain_programs.Runtime.Check

-- The accounts of a payment are those of one grok account, which CORE derives for its root: the agent signed and holds its grant,
-- and the registry, which is its root's, and the trader are derived from it.
pub record IsNamed (rt : Runtime) (ctx : PayToken) : Type 0 where
  pub account : IsAccountOfRoot rt ctx.grok_account
  pub signed : ctx.agent.is_signer ≡ true
  pub grant_key :
      ctx.grant.key
      ≡ rt.create_program_address
          (text seed_grant ∷ address ctx.grok_account.key ∷ address ctx.agent.key ∷ [])
          ctx.grant.value.bump
          rt.core_id
  pub grant_agent : ctx.grant.value.agent ≡ ctx.agent.key
  pub grant_account : ctx.grant.value.grok_account ≡ ctx.grok_account.key
  pub registry :
      Belongs rt seed_merchants ctx.grok_account ctx.merchant_registry.key
        ctx.merchant_registry.value.bump ctx.merchant_registry.value.grok_account
  pub registry_root : ctx.merchant_registry.value.root ≡ ctx.grok_account.value.root
  pub trader :
      ctx.pump_trader
      ≡ (rt.find_program_address
          (text seed_pump_trader ∷ address ctx.grok_account.key ∷ [])
          intents_id).0

-- A token payment: the accounts are those of one grok account and the agent of its grant signed, the tokens are of the registry's mint, they go from an
-- account of the trader's that covers them to an account of a listed merchant's, both owned by the
-- token program that is called, the grant is metered by the amount within its cap, and that program
-- has carried out the transfer that the trader's derived address signed.
pub record IsPaid (rt : Runtime) (ctx : PayToken) (args : PayTokenArgs) (w : World) : Type 0 where
  pub named : IsNamed rt ctx
  pub token_program : IsTokenProgram ctx.token_program ctx.source ctx.destination w
  pub registered : ctx.merchant_registry.value.mint ≡ ctx.mint
  pub source_mint : (fields_of (w.bytes ctx.source)).mint ≡ ctx.mint
  pub source_owner : (fields_of (w.bytes ctx.source)).owner ≡ ctx.pump_trader
  pub covered : args.amount ≤ (fields_of (w.bytes ctx.source)).amount
  pub destination_mint : (fields_of (w.bytes ctx.destination)).mint ≡ ctx.mint
  pub listed :
      contains (fields_of (w.bytes ctx.destination)).owner ctx.merchant_registry.value.merchants
      ≡ true
  pub within_cap :
      (w.grants ctx.grant.key).spent_lamports + args.amount
      ≤ (w.grants ctx.grant.key).spend_cap_lamports
  pub transferred : World
  pub invoked :
      rt.invoke
        (token_transfer ctx args)
        (trader_signer rt ctx.grok_account ∷ [])
        (metered ctx.grant.key args.amount w)
      ≡ ok transferred

pub check_pay_token_inv :
    (rt : Runtime) (ctx : PayToken) (w w' : World)
    → check_pay_token rt ctx w ≡ ok (tt, w')
    → IsNamed rt ctx × (w' ≡ w)
unfolding check_pay_token check_grant_account check_grok_account check_registry
check_pay_token_inv rt ctx w w' h = (
  record {
    account = ground arith;
    signed = ground arith;
    grant_key = ground arith;
    grant_agent = ground arith;
    grant_account = ground arith;
    registry = (ground arith, ground arith);
    registry_root = ground arith;
    trader = ground arith;
  },
  ground arith,
)

-- The checks of the token accounts have held, and have changed nothing.
record Payee (ctx : PayToken) (args : PayTokenArgs) (w w' : World) : Type 0 where
  pub same : w' ≡ w
  pub registered : ctx.merchant_registry.value.mint ≡ ctx.mint
  pub source_mint : (fields_of (w.bytes ctx.source)).mint ≡ ctx.mint
  pub source_owner : (fields_of (w.bytes ctx.source)).owner ≡ ctx.pump_trader
  pub covered : args.amount ≤ (fields_of (w.bytes ctx.source)).amount
  pub destination_mint : (fields_of (w.bytes ctx.destination)).mint ≡ ctx.mint
  pub listed :
      contains (fields_of (w.bytes ctx.destination)).owner ctx.merchant_registry.value.merchants
      ≡ true
