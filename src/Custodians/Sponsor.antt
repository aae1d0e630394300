-- ===== src/Custodians/Sponsor.antt =====
-- The paymaster (programs/grok_chain_intents/src/instructions/paymaster.rs).
use grokchain_programs.Base.{ℕ, true, false, [], ◌∷◌, ltb, ◌==◌}
use grokchain_programs.Errors.{
  zero_amount, insufficient_paymaster, grok_account_mismatch, unauthorized_root,
}
use grokchain_programs.Constants.{intents_id, seed_paymaster}
use grokchain_programs.Common.Mouth.{check_seeds}
use grokchain_programs.Common.Root.{Root, check_root, check_derived}
use grokchain_programs.Custody.{try_debit_program_owned}
use grokchain_programs.Events.{Event}
use grokchain_programs.State.{Paymaster, paymaster_space}
use grokchain_programs.Runtime.Address.{Pubkey, text, address}
use grokchain_programs.Runtime.World.{Runtime, Account}
use grokchain_programs.Runtime.Monad.{Action, pure, ◌>>=◌, ◌>>◌, lift, require, invoke_signed, emit}

-- `InitPaymaster`.
pub record InitPaymaster : Type 0 where
  pub signed : Root
  pub open signed use *
  pub paymaster : Pubkey
  pub bump : ℕ

-- `FundPaymaster`, `WithdrawPaymaster`, `SetRelayer`, `PausePaymaster` and `UnpausePaymaster`, which
-- have the same accounts.
pub record ManagePaymaster : Type 0 where
  pub signed : Root
  pub open signed use *
  pub paymaster : Account Paymaster

-- `init`: the paymaster's account as it is created.
unfoldable pub init_paymaster : Runtime → InitPaymaster → Pubkey → Action Paymaster
init_paymaster rt ctx relayer = do
  lift (check_root rt ctx.signed)
  lift (
      check_derived rt ctx.paymaster ctx.bump
        (text seed_paymaster ∷ address ctx.grok_account.key ∷ []))
  emit (Event.paymaster_initialized ctx.paymaster ctx.grok_account.key ctx.root.key relayer)
  pure (record {
    grok_account = ctx.grok_account.key;
    root = ctx.root.key;
    relayer = relayer;
    bump = ctx.bump;
    paused = false;
  })

unfoldable pub check_manage_paymaster : Runtime → ManagePaymaster → Action (Unit {0})
check_manage_paymaster rt ctx = do
  lift (check_root rt ctx.signed)
  lift (
      check_seeds rt ctx.paymaster.key (text seed_paymaster ∷ address ctx.grok_account.key ∷ [])
        ctx.paymaster.value.bump intents_id)
  require (ctx.paymaster.value.grok_account == ctx.grok_account.key) grok_account_mismatch
  require (ctx.paymaster.value.root == ctx.root.key) unauthorized_root

-- `fund`
unfoldable pub fund_paymaster : Runtime → ManagePaymaster → ℕ → Action (Unit {0})
fund_paymaster rt ctx lamports = do
  check_manage_paymaster rt ctx
  require (ltb 0 lamports) zero_amount
  invoke_signed rt (rt.system_transfer ctx.root.key ctx.paymaster.key lamports) []
  emit (Event.paymaster_funded ctx.paymaster.key ctx.grok_account.key ctx.root.key lamports)

-- `withdraw`
unfoldable pub withdraw_paymaster : Runtime → ManagePaymaster → ℕ → Action (Unit {0})
withdraw_paymaster rt ctx lamports = do
  check_manage_paymaster rt ctx
  require (ltb 0 lamports) zero_amount
  paid ←
      try_debit_program_owned ctx.paymaster.key ctx.root.key lamports
        (rt.minimum_balance paymaster_space)
  require paid insufficient_paymaster
  emit (Event.paymaster_withdrawn ctx.paymaster.key ctx.grok_account.key ctx.root.key lamports)

-- `set`
unfoldable pub set_relayer : Runtime → ManagePaymaster → Pubkey → Action Paymaster
set_relayer rt ctx relayer = do
  check_manage_paymaster rt ctx
  emit (Event.relayer_set ctx.paymaster.key ctx.grok_account.key ctx.root.key relayer)
  pure (record ctx.paymaster.value { relayer = relayer })

-- `pause`
unfoldable pub pause : Runtime → ManagePaymaster → Action Paymaster
pause rt ctx = do
  check_manage_paymaster rt ctx
  emit (Event.paymaster_paused ctx.paymaster.key ctx.grok_account.key ctx.root.key)
  pure (record ctx.paymaster.value { paused = true })

-- `unpause`
unfoldable pub unpause : Runtime → ManagePaymaster → Action Paymaster
unpause rt ctx = do
  check_manage_paymaster rt ctx
  emit (Event.paymaster_unpaused ctx.paymaster.key ctx.grok_account.key ctx.root.key)
  pure (record ctx.paymaster.value { paused = false })
