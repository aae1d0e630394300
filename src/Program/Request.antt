-- ===== src/Program/Request.antt =====
-- The instructions of lib.rs with their accounts and arguments.
use grokchain_programs.Base.{ℕ, ℤ}
use grokchain_programs.Common.Mouth.{Mouth}
use grokchain_programs.Custodians.Sponsor.{InitPaymaster, ManagePaymaster}
use grokchain_programs.Custodians.Vault.{InitSpendVault, ManageSpendVault}
use grokchain_programs.Intents.Call.{Call}
use grokchain_programs.Intents.Pay.{Pay}
use grokchain_programs.Intents.Swap.{Swap}
use grokchain_programs.Merchants.{InitMerchantRegistry, UpdateMerchantRegistry}
use grokchain_programs.PayToken.{PayToken}
use grokchain_programs.Pump.Trade.{PumpTrade}
use grokchain_programs.SponsorFee.Burn.{BurnCollectedFees}
use grokchain_programs.SponsorFee.Config.{InitSponsorFee, SetSponsorFee}
use grokchain_programs.State.{
  PayArgs, SwapArgs, DeployArgs, CallArgs, PumpCreateArgs, TokenBuyArgs, TokenSellArgs,
  PayTokenArgs, SubscriptionArgs, PaySubscriptionArgs,
}
use grokchain_programs.SubGrants.Issue.{IssueSubGrant}
use grokchain_programs.SubGrants.Manage.{ManageSubGrant}
use grokchain_programs.Subscription.Manage.{CreateSubscription, CancelSubscription}
use grokchain_programs.Subscription.Pay.{PaySubscription}
use grokchain_programs.Token.Trade.{TokenTrade}
use grokchain_programs.Trader.Manage.{InitPumpTrader, FundPumpTrader}
use grokchain_programs.Trader.Sweep.{WithdrawPumpTrader}
use grokchain_programs.Runtime.Address.{Pubkey}

-- One constructor for each function of the `#[program]` module, with its accounts and arguments.
pub data Request : Type 0 where
  init_spend_vault : InitSpendVault → Request
  fund_spend_vault : ManageSpendVault → ℕ → Request
  withdraw_spend_vault : ManageSpendVault → ℕ → Request
  init_paymaster : InitPaymaster → Pubkey → Request
  fund_paymaster : ManagePaymaster → ℕ → Request
  withdraw_paymaster : ManagePaymaster → ℕ → Request
  set_relayer : ManagePaymaster → Pubkey → Request
  pause_paymaster : ManagePaymaster → Request
  unpause_paymaster : ManagePaymaster → Request
  pay : Pay → PayArgs → Request
  swap : Swap → SwapArgs → Request
  deploy : Mouth → DeployArgs → Request
  call : Call → CallArgs → Request
  pump_create : PumpTrade → PumpCreateArgs → Request
  issue_sub_grant : IssueSubGrant → Pubkey → ℕ → ℤ → Request
  revise_sub_grant : ManageSubGrant → ℕ → ℤ → Request
  revoke_sub_grant : ManageSubGrant → Request
  init_sponsor_fee : InitSponsorFee → Request
  set_sponsor_fee : SetSponsorFee → ℕ → Request
  burn_collected_fees : BurnCollectedFees → Request
  init_pump_trader : InitPumpTrader → Request
  fund_pump_trader : FundPumpTrader → ℕ → Request
  withdraw_pump_trader : WithdrawPumpTrader → ℕ → Request
  token_buy : TokenTrade → TokenBuyArgs → Request
  token_sell : TokenTrade → TokenSellArgs → Request
  init_merchant_registry : InitMerchantRegistry → Pubkey → Request
  add_merchant : UpdateMerchantRegistry → Pubkey → Request
  remove_merchant : UpdateMerchantRegistry → Pubkey → Request
  pay_token : PayToken → PayTokenArgs → Request
  create_subscription : CreateSubscription → SubscriptionArgs → Request
  cancel_subscription : CancelSubscription → Request
  pay_subscription : PaySubscription → PaySubscriptionArgs → Request
