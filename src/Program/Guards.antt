-- ===== src/Program/Guards.antt =====
-- What the checks of each instruction establish of its sender.
use grokchain_programs.Base.{◌≡◌, arith}
use grokchain_programs.Common.Adapter.{check_adapter, check_adapter_inv}
use grokchain_programs.Common.Mouth.{Mouth, check_mouth, check_mouth_inv}
use grokchain_programs.Common.Root.{Root, check_root, IsRoot, check_root-IsRoot}
use grokchain_programs.SponsorFee.Config.{check_fee_root, set_sponsor_fee}
use grokchain_programs.SubGrants.Issue.{IssueSubGrant}
use grokchain_programs.Subscription.Manage.{cancel}
use grokchain_programs.Trader.Funding.{check_fund_inv}
use grokchain_programs.Trader.Manage.{check_fund_pump_trader, init_pump_trader}
use grokchain_programs.Trader.Sweep.{check_withdraw_pump_trader}
use grokchain_programs.Runtime.World.{World, Runtime, AccountInfo, ok}
use grokchain_programs.Runtime.Monad.{Action, ◌>>◌, lift, lift-eq-ok}
use grokchain_programs.Base.{String}
use grokchain_programs.Common.Ownership.{Belongs}
use grokchain_programs.Constants.{intents_id, seed_spend_vault, seed_pump_trader}
use grokchain_programs.Common.Mouth.{check_spend_vault}
use grokchain_programs.Common.Root.{check_derived}
use grokchain_programs.Subscription.Manage.{CancelSubscription, check_subscription}
use grokchain_programs.SponsorFee.Config.{SetSponsorFee}
use grokchain_programs.Trader.Manage.{FundPumpTrader}
use grokchain_programs.Trader.Sweep.{WithdrawPumpTrader}
use grokchain_programs.State.{Subscription, SponsorFeeConfig}
use grokchain_programs.Runtime.Address.{Pubkey, Seed, text, address}
use grokchain_programs.Base.{ℕ, List, [], ◌∷◌}
use grokchain_programs.Runtime.Check.{Result-cases}
use grokchain_programs.Base.{inl, inr}
use grokchain_programs.SubGrants.Issue.{check_issue}
use grokchain_programs.Base.{◌==◌}
use grokchain_programs.Trader.Manage.{InitPumpTrader}
use grokchain_programs.Subscription.Pay.{derived_trader}
use grokchain_programs.Runtime.World.{AnchorError}
use grokchain_programs.Runtime.Check
use grokchain_programs.Program.Senders.{
  RunsDerived, SpendsFrom, Issues, SetsFee, FundsTrader, Unsubscribes,
}

-- The checks that come first in the instructions that create an account.
derived_key :
    (rt : Runtime) (k : Pubkey) (bump : ℕ) (seeds : List Seed)
    → check_derived rt k bump seeds ≡ ok tt
    → k ≡ (rt.find_program_address seeds intents_id).0
unfolding check_derived
derived_key rt k bump seeds h = ground arith

fee_root : (rt : Runtime) (r : Root) → check_fee_root rt r ≡ ok tt → IsRoot r
unfolding check_fee_root
fee_root rt r h = ground arith

pub root_then_derived :
    {B : Type 0} (rt : Runtime) (r : Root) (k : Pubkey) (bump : ℕ) (seed : String) (rest : Action B)
    (w : World) (x : B × World)
    → (lift (check_root rt r)
          >> (lift (check_derived rt k bump (text seed ∷ address r.grok_account.key ∷ [])) >> rest))
        w
      ≡ ok x
    → RunsDerived rt r seed k
root_then_derived rt r k bump seed rest w x h =
    let (e, h1) = lift-eq-ok (check_root rt r) _ h in
    let (d, _) = lift-eq-ok (check_derived rt k bump _) _ h1 in
    (check_root-IsRoot rt r e, derived_key rt k bump _ d)

pub fee_then_derived :
    {B : Type 0} (rt : Runtime) (r : Root) (k : Pubkey) (bump : ℕ) (seed : String) (rest : Action B)
    (w : World) (x : B × World)
    → (lift (check_fee_root rt r)
          >> (lift (check_derived rt k bump (text seed ∷ address r.grok_account.key ∷ [])) >> rest))
        w
      ≡ ok x
    → RunsDerived rt r seed k
fee_then_derived rt r k bump seed rest w x h =
    let (e, h1) = lift-eq-ok (check_fee_root rt r) _ h in
    let (d, _) = lift-eq-ok (check_derived rt k bump _) _ h1 in
    (fee_root rt r e, derived_key rt k bump _ d)

-- An action that starts with the root's check has passed it.
pub root_checked :
    {B : Type 0} (rt : Runtime) (r : Root) (rest : Action B) (w : World) (x : B × World)
    → (lift (check_root rt r) >> rest) w ≡ ok x
    → (check_root rt r ≡ ok tt) × (rest w ≡ ok x)
root_checked rt r rest w x h = lift-eq-ok (check_root rt r) rest h

mouth_vault :
    (rt : Runtime) (m : Mouth)
    → check_mouth rt m ≡ ok tt
    → Belongs rt seed_spend_vault m.grok_account m.spend_vault.key m.spend_vault.value.bump
        m.spend_vault.value.grok_account
unfolding check_mouth check_spend_vault
mouth_vault rt m h = (ground arith, ground arith)

pub mouth_first :
    {B : Type 0} (rt : Runtime) (m : Mouth) (rest : Action B) (w : World) (x : B × World)
    → (lift (check_mouth rt m) >> rest) w ≡ ok x
    → SpendsFrom rt m
mouth_first rt m rest w x h =
    let (e, _) = lift-eq-ok (check_mouth rt m) rest h in
    (check_mouth_inv rt m e, mouth_vault rt m e)

adapter_vault :
    (rt : Runtime) (m : Mouth) (inner : AccountInfo) (id : Pubkey)
    → check_adapter rt m inner id ≡ ok tt
    → Belongs rt seed_spend_vault m.grok_account m.spend_vault.key m.spend_vault.value.bump
        m.spend_vault.value.grok_account
unfolding check_adapter check_spend_vault
adapter_vault rt m inner id h = (ground arith, ground arith)

pub adapter_first :
    {B : Type 0} (rt : Runtime) (m : Mouth) (inner : AccountInfo) (id : Pubkey) (rest : Action B)
    (w : World) (x : B × World)
    → (lift (check_adapter rt m inner id) >> rest) w ≡ ok x
    → SpendsFrom rt m
adapter_first rt m inner id rest w x h =
    let (e, _) = lift-eq-ok (check_adapter rt m inner id) rest h in
    ((check_adapter_inv rt m inner id e).0, adapter_vault rt m inner id e)

pub check_issue-Issues :
    (rt : Runtime) (ctx : IssueSubGrant) (agent : Pubkey)
    → check_issue rt ctx agent ≡ ok tt
    → Issues ctx
unfolding check_issue
check_issue-Issues rt ctx agent h = (ground arith, ground arith)

pub set_sponsor_fee-SetsFee :
    (rt : Runtime) (ctx : SetSponsorFee) (fee : ℕ) (cfg : SponsorFeeConfig) (w w' : World)
    → set_sponsor_fee rt ctx fee w ≡ ok (cfg, w')
    → SetsFee rt ctx
unfolding set_sponsor_fee
set_sponsor_fee-SetsFee rt ctx fee cfg w w' h = elim (Result-cases (check_fee_root rt ctx.signed)) [
  | inl (_, e) ↦ (fee_root rt ctx.signed e, ground (arith, e, h), ground (arith, e, h))
  | inr (x, e) ↦ ground (arith, e, h)
]

pub init_pump_trader-RunsDerived :
    (rt : Runtime) (ctx : InitPumpTrader) (w w' : World)
    → init_pump_trader rt ctx w ≡ ok (tt, w')
    → RunsDerived rt ctx.signed seed_pump_trader ctx.pump_trader
unfolding init_pump_trader
init_pump_trader-RunsDerived rt ctx w w' h =
    let (e, h1) = root_checked rt ctx.signed _ w _ h in
    let (d, _) =
      lift-eq-ok
        (Check.constrain (ctx.pump_trader == (derived_trader rt ctx.grok_account).0)
          AnchorError.constraint_seeds)
        _ h1 in
    (check_root-IsRoot rt ctx.signed e, ground (arith, d))

fund_vault :
    (rt : Runtime) (ctx : FundPumpTrader) (w w' : World)
    → check_fund_pump_trader rt ctx w ≡ ok (tt, w')
    → Belongs rt seed_spend_vault ctx.grok_account ctx.spend_vault.key ctx.spend_vault.value.bump
        ctx.spend_vault.value.grok_account
      × (ctx.spend_vault.value.root ≡ ctx.root.key)
unfolding check_fund_pump_trader
fund_vault rt ctx w w' h = elim (Result-cases (check_root rt ctx.signed)) [
  | inl (_, e) ↦ ((ground (arith, e, h), ground (arith, e, h)), ground (arith, e, h))
  | inr (x, e) ↦ ground (arith, e, h)
]

pub check_fund-FundsTrader :
    (rt : Runtime) (ctx : FundPumpTrader) (w w' : World)
    → check_fund_pump_trader rt ctx w ≡ ok (tt, w')
    → FundsTrader rt ctx
check_fund-FundsTrader rt ctx w w' h =
    let (root, _, derived, _) = check_fund_inv rt ctx w w' h in
    let (vault, rooted) = fund_vault rt ctx w w' h in ((root, derived), vault, rooted)

pub check_withdraw-RunsDerived :
    (rt : Runtime) (ctx : WithdrawPumpTrader) (w w' : World)
    → check_withdraw_pump_trader rt ctx w ≡ ok (tt, w')
    → RunsDerived rt ctx.signed seed_pump_trader ctx.pump_trader
unfolding check_withdraw_pump_trader
check_withdraw-RunsDerived rt ctx w w' h = elim (Result-cases (check_root rt ctx.signed)) [
  | inl (_, e) ↦ (check_root-IsRoot rt ctx.signed e, ground (arith, e, h))
  | inr (x, e) ↦ ground (arith, e, h)
]

pub cancel-Unsubscribes :
    (rt : Runtime) (ctx : CancelSubscription) (sub : Subscription) (w w' : World)
    → cancel rt ctx w ≡ ok (sub, w')
    → Unsubscribes ctx
unfolding cancel check_subscription
cancel-Unsubscribes rt ctx sub w w' h = elim (Result-cases (check_root rt ctx.signed)) [
  | inl (_, e) ↦ (check_root-IsRoot rt ctx.signed e, ground (arith, e, h), ground (arith, e, h))
  | inr (x, e) ↦ ground (arith, e, h)
]
