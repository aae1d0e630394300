-- ===== src/Program/Senders.antt =====
-- Who may send each instruction of the program, and for which accounts
-- (programs/grok_chain_intents/src/lib.rs).
use grokchain_programs.Base.{◌≡◌, true}
use grokchain_programs.Common.Mouth.{Mouth, IsAuthorised}
use grokchain_programs.Common.Root.{Root, IsRoot}
use grokchain_programs.Program.Request.{Request}
use grokchain_programs.SubGrants.Issue.{IssueSubGrant}
use grokchain_programs.Runtime.World.{Runtime}
use grokchain_programs.Base.{String}
use grokchain_programs.Common.Ownership.{Belongs}
use grokchain_programs.Constants.{
  intents_id, seed_spend_vault, seed_paymaster, seed_merchants, seed_sponsor_fee, seed_pump_trader,
}
use grokchain_programs.Custodians.Laws.{RunsVault, RunsPaymaster}
use grokchain_programs.Merchants.Laws.{RunsRegistry}
use grokchain_programs.SubGrants.Narrowing.{IsManager}
use grokchain_programs.Subscription.Parts
use grokchain_programs.Subscription.Parts.{pay-Parts}
use grokchain_programs.PayToken.Settlement
use grokchain_programs.PayToken.Settlement.{check_pay_token_inv}
use grokchain_programs.Subscription.Manage.{CreateSubscription, CancelSubscription}
use grokchain_programs.SponsorFee.Config.{SetSponsorFee}
use grokchain_programs.Trader.Manage.{FundPumpTrader}
use grokchain_programs.Runtime.Address.{Pubkey, text, address}
use grokchain_programs.Base.{[], ◌∷◌}

-- The root has signed, and the account at `k` is the one that the seed and the root's grok account
-- derive.
abbrev pub RunsDerived : Runtime → Root → String → Pubkey → Type 0
RunsDerived rt r seed k =
    IsRoot r
    × (k ≡ (rt.find_program_address (text seed ∷ address r.grok_account.key ∷ []) intents_id).0)

-- The agent has signed and holds the grant of the grok account that is named, and the vault belongs
-- to this grok account.
abbrev pub SpendsFrom : Runtime → Mouth → Type 0
SpendsFrom rt m =
    IsAuthorised m
    × Belongs rt seed_spend_vault m.grok_account m.spend_vault.key m.spend_vault.value.bump
        m.spend_vault.value.grok_account

-- The issuer of a sub-grant has signed, and CORE's grant is of the grok account that is named.
abbrev pub Issues : IssueSubGrant → Type 0
Issues ctx = (ctx.issuer.is_signer ≡ true) × (ctx.grant.value.grok_account ≡ ctx.grok_account.key)

-- The root has signed, and the fee's configuration is the root's.
abbrev pub SetsFee : Runtime → SetSponsorFee → Type 0
SetsFee rt ctx =
    IsRoot ctx.signed
    × (ctx.sponsor_fee.key
        ≡ rt.create_program_address (text seed_sponsor_fee ∷ address ctx.grok_account.key ∷ [])
            ctx.sponsor_fee.value.bump intents_id)
    × (ctx.sponsor_fee.value.root ≡ ctx.root.key)

-- The root has signed, the vault belongs to the root's grok account and records the root, and the
-- trader is this account's.
abbrev pub FundsTrader : Runtime → FundPumpTrader → Type 0
FundsTrader rt ctx =
    RunsDerived rt ctx.signed seed_pump_trader ctx.pump_trader
    × Belongs rt seed_spend_vault ctx.grok_account ctx.spend_vault.key ctx.spend_vault.value.bump
        ctx.spend_vault.value.grok_account
    × (ctx.spend_vault.value.root ≡ ctx.root.key)

-- The root has signed, and the merchants are those of the root's grok account.
abbrev pub Subscribes : Runtime → CreateSubscription → Type 0
Subscribes rt ctx =
    IsRoot ctx.signed
    × Belongs rt seed_merchants ctx.grok_account ctx.merchant_registry.key
        ctx.merchant_registry.value.bump ctx.merchant_registry.value.grok_account

-- The root has signed, and the subscription records the root and the root's grok account.
abbrev pub Unsubscribes : CancelSubscription → Type 0
Unsubscribes ctx =
    IsRoot ctx.signed
    × (ctx.subscription.value.grok_account ≡ ctx.grok_account.key)
    × (ctx.subscription.value.root ≡ ctx.root.key)

-- Who may send an instruction, and for which accounts: the root for what belongs to the root's grok
-- account, the grant's agent for what spends from its grok account, the issuer of a sub-grant for
-- issuing it, the issuer or the root for changing it, and anyone who signs for the burn.
abbrev pub MaySend : Runtime → Request → Type 0
MaySend rt (Request.init_spend_vault ctx) =
    RunsDerived rt ctx.signed seed_spend_vault ctx.spend_vault
MaySend rt (Request.fund_spend_vault ctx lamports) = RunsVault rt ctx
MaySend rt (Request.withdraw_spend_vault ctx lamports) = RunsVault rt ctx
MaySend rt (Request.init_paymaster ctx relayer) =
    RunsDerived rt ctx.signed seed_paymaster ctx.paymaster
MaySend rt (Request.fund_paymaster ctx lamports) = RunsPaymaster rt ctx
MaySend rt (Request.withdraw_paymaster ctx lamports) = RunsPaymaster rt ctx
MaySend rt (Request.set_relayer ctx relayer) = RunsPaymaster rt ctx
MaySend rt (Request.pause_paymaster ctx) = RunsPaymaster rt ctx
MaySend rt (Request.unpause_paymaster ctx) = RunsPaymaster rt ctx
MaySend rt (Request.pay ctx args) = SpendsFrom rt ctx.mouth
MaySend rt (Request.swap ctx args) = SpendsFrom rt ctx.mouth
MaySend rt (Request.deploy ctx args) = SpendsFrom rt ctx
MaySend rt (Request.call ctx args) = SpendsFrom rt ctx.mouth
MaySend rt (Request.pump_create ctx args) = SpendsFrom rt ctx.mouth
MaySend rt (Request.issue_sub_grant ctx agent cap expires) = Issues ctx
MaySend rt (Request.revise_sub_grant ctx cap expires) = IsManager rt ctx
MaySend rt (Request.revoke_sub_grant ctx) = IsManager rt ctx
MaySend rt (Request.init_sponsor_fee ctx) =
    RunsDerived rt ctx.signed seed_sponsor_fee ctx.sponsor_fee
MaySend rt (Request.set_sponsor_fee ctx fee) = SetsFee rt ctx
MaySend rt (Request.burn_collected_fees ctx) = ctx.burner.is_signer ≡ true
MaySend rt (Request.init_pump_trader ctx) =
    RunsDerived rt ctx.signed seed_pump_trader ctx.pump_trader
MaySend rt (Request.fund_pump_trader ctx lamports) = FundsTrader rt ctx
MaySend rt (Request.withdraw_pump_trader ctx lamports) =
    RunsDerived rt ctx.signed seed_pump_trader ctx.pump_trader
MaySend rt (Request.token_buy ctx args) = SpendsFrom rt ctx.mouth
MaySend rt (Request.token_sell ctx args) = SpendsFrom rt ctx.mouth
MaySend rt (Request.init_merchant_registry ctx mint) =
    RunsDerived rt ctx.signed seed_merchants ctx.merchant_registry
MaySend rt (Request.add_merchant ctx merchant) = RunsRegistry rt ctx
MaySend rt (Request.remove_merchant ctx merchant) = RunsRegistry rt ctx
MaySend rt (Request.pay_token ctx args) = Settlement.IsNamed rt ctx
MaySend rt (Request.create_subscription ctx args) = Subscribes rt ctx
MaySend rt (Request.cancel_subscription ctx) = Unsubscribes ctx
MaySend rt (Request.pay_subscription ctx args) = Parts.IsNamed rt ctx
