-- ===== src/Pump/Sending.antt =====
-- What it means that an instruction was asked for by the right accounts and sent to pump.fun, and
-- the steps from the metering to the reimbursement.
use grokchain_programs.Base.{
  ℕ, Option, ◌+◌, ◌≤◌, ◌<◌, ◌≡◌, List, [], ◌∷◌, u64_size, ap, ◌∙◌, sym, subst,
}
use grokchain_programs.Common.Adapter.{IsRelayed}
use grokchain_programs.Common.Mouth.{IsAuthorised}
use grokchain_programs.Common.Sponsor.{Reimburses, reimburse_sponsor_inv}
use grokchain_programs.Constants.{pump_program_id}
use grokchain_programs.CoreCpi.Metering.{MetersGrants, metered, check_grant_inv}
use grokchain_programs.Events.{Event}
use grokchain_programs.Intents.Call.{paymaster_key}
use grokchain_programs.Pump.Slots.{AvoidsPaymaster}
use grokchain_programs.Pump.Steps.{IsUser, send_inv, IsBuilt}
use grokchain_programs.Pump.Trade.{PumpTrade, trader_pda, meter, send, reimburse}
use grokchain_programs.Subscription.Pay.{trader_signer}
use grokchain_programs.Runtime.World.{World, Runtime, Instruction, Result, ok}
use grokchain_programs.Runtime.Monad.{Action, ◌>>◌, >>-eq-ok}

-- Who asked, and with which accounts: the agent signed and pays no fee, the program is pump.fun,
-- the account in the user's slot is the trader and not the vault, and no account is the paymaster.
pub record IsAsked (rt : Runtime) (ctx : PumpTrade) (index : ℕ) : Type 0 where
  pub authorised : IsAuthorised ctx.mouth
  pub relayed : IsRelayed ctx.mouth
  pub program : ctx.pump_program.key ≡ pump_program_id
  pub user : IsUser rt ctx index
  pub apart : AvoidsPaymaster (paymaster_key ctx.paymaster) ctx.remaining_accounts

-- What was done: the grant has metered the amount within its cap, then pump.fun was sent this data
-- with the remaining accounts and the trader's signature, then a relayer may have been reimbursed,
-- and the event is logged last.
pub record IsSent (rt : Runtime) (ctx : PumpTrade) (user : ℕ) (minted : Option ℕ)
    (amount sponsor : ℕ) (payload : List ℕ) (event : Event) (w w' : World) : Type 0 where
  pub within_cap :
      (w.grants ctx.grant.key).spent_lamports + amount ≤ (w.grants ctx.grant.key).spend_cap_lamports
  pub ix : Instruction
  pub is_built : IsBuilt ctx user minted (trader_pda rt ctx) payload ix
  pub after : World
  pub invoked :
      rt.invoke ix (trader_signer rt ctx.grok_account ∷ []) (metered ctx.grant.key amount w)
      ≡ ok after
  pub reimbursed : World
  pub reimburses : Reimburses rt ctx.grant ctx.paymaster ctx.fee_payer sponsor after reimbursed
  pub logged : w' ≡ record reimbursed { log = event ∷ reimbursed.log }

pub meter_inv :
    (rt : Runtime) (ctx : PumpTrade) (amount : ℕ) (v w w' : World)
    → MetersGrants rt
    → amount < u64_size
    → v ≡ w
    → meter rt ctx amount v ≡ ok (tt, w')
    → (w' ≡ metered ctx.grant.key amount w)
      × ((w.grants ctx.grant.key).spent_lamports + amount
          ≤ (w.grants ctx.grant.key).spend_cap_lamports)
unfolding meter
meter_inv rt ctx amount v w w' core small same h =
    check_grant_inv rt _ _ _ _ _ amount w w' core small (ap (meter rt ctx amount) (sym same) ∙ h)

reimburse_inv :
    (rt : Runtime) (ctx : PumpTrade) (sponsor : ℕ) (w w' : World)
    → reimburse rt ctx sponsor w ≡ ok (tt, w')
    → Reimburses rt ctx.grant ctx.paymaster ctx.fee_payer sponsor w w'
unfolding reimburse
reimburse_inv rt ctx sponsor w w' h =
    reimburse_sponsor_inv rt ctx.grant ctx.paymaster ctx.fee_payer sponsor w w' h

-- From the built instruction on: it is sent, the relayer may be reimbursed, and what follows is left.
pub sends :
    (rt : Runtime) (ctx : PumpTrade) (user : ℕ) (minted : Option ℕ) (amount sponsor : ℕ)
    (payload : List ℕ) (built : Result Instruction) (k : Action (Unit {0})) (w granted w' : World)
    → granted ≡ metered ctx.grant.key amount w
    → (w.grants ctx.grant.key).spent_lamports + amount ≤ (w.grants ctx.grant.key).spend_cap_lamports
    → ((ix : Instruction) → built ≡ ok ix → IsBuilt ctx user minted (trader_pda rt ctx) payload ix)
    → (send rt ctx built >> (reimburse rt ctx sponsor >> k)) granted ≡ ok (tt, w')
    → (v : World) × (k v ≡ ok (tt, w'))
      × ((event : Event)
          → w' ≡ record v { log = event ∷ v.log }
          → IsSent rt ctx user minted amount sponsor payload event w w')
sends rt ctx user minted amount sponsor payload built k w granted w' same within shape h =
    let (after, e, h1) = >>-eq-ok (send rt ctx built) _ h in
    let (ix, is_ok, sent) = send_inv rt ctx built granted after e in
    let (v, f, h2) = >>-eq-ok (reimburse rt ctx sponsor) _ h1 in
    (
      v,
      h2,
      λ event last. record {
        within_cap = within;
        ix = ix;
        is_built = shape ix is_ok;
        after = after;
        invoked =
            subst (λ u. rt.invoke ix (trader_signer rt ctx.grok_account ∷ []) u ≡ ok after) same
              sent;
        reimbursed = v;
        reimburses = reimburse_inv rt ctx sponsor after v f;
        logged = last;
      },
    )
