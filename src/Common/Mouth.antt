-- ===== src/Common/Mouth.antt =====
-- The accounts that `Pay`, `Swap`, `Deploy` and `Call` have in common (the account structs of
-- instructions/pay.rs, swap.rs, deploy.rs and call.rs), and the checks that Anchor makes of them.
use grokchain_programs.Base.{ℕ, true, Option, none, some, List, [], ◌∷◌, String, ◌==◌, ◌≡◌, arith}
use grokchain_programs.Errors.{grok_account_mismatch, agent_mismatch, unauthorized_root}
use grokchain_programs.Constants.{intents_id, seed_spend_vault, seed_paymaster}
use grokchain_programs.State.{Paymaster, SpendVault}
use grokchain_programs.Runtime.Address.{Pubkey, Seed, text, address}
use grokchain_programs.Runtime.World.{
  Result, Runtime, Account, AccountInfo, Grant, GrokAccount, AnchorError, ok,
}
use grokchain_programs.Runtime.Check.{◌>>◌, require, constrain, check_signer, check_optional_signer}

-- CORE's seeds, `SEED_GROK_ACCOUNT` and `SEED_GRANT`.
abbrev pub seed_grok_account : String
seed_grok_account = "grok-account"

abbrev pub seed_grant : String
seed_grant = "grant"

-- `#[account(seeds = …, bump = …)]`
abbrev pub check_seeds : Runtime → Pubkey → List Seed → ℕ → Pubkey → Result (Unit {0})
check_seeds rt k seeds bump program =
    constrain (k == rt.create_program_address seeds bump program) AnchorError.constraint_seeds

unfoldable pub check_grok_account : Runtime → Account GrokAccount → Result (Unit {0})
check_grok_account rt grok_account =
    check_seeds rt grok_account.key (text seed_grok_account ∷ address grok_account.value.root ∷ [])
      grok_account.value.bump rt.core_id

unfoldable pub check_spend_vault :
    Runtime → Account GrokAccount → Account SpendVault → Result (Unit {0})
check_spend_vault rt grok_account spend_vault = do
  check_seeds rt spend_vault.key (text seed_spend_vault ∷ address grok_account.key ∷ [])
      spend_vault.value.bump intents_id
  require (spend_vault.value.grok_account == grok_account.key) grok_account_mismatch
  require (spend_vault.value.root == grok_account.value.root) unauthorized_root

unfoldable pub check_paymaster :
    Runtime → Account GrokAccount → Option (Account Paymaster) → Result (Unit {0})
check_paymaster rt grok_account none = ok tt
check_paymaster rt grok_account (some paymaster) = do
  check_seeds rt paymaster.key (text seed_paymaster ∷ address grok_account.key ∷ [])
      paymaster.value.bump intents_id
  require (paymaster.value.grok_account == grok_account.key) grok_account_mismatch
  require (paymaster.value.root == grok_account.value.root) unauthorized_root

pub record Mouth : Type 0 where
  pub agent : AccountInfo
  pub grok_account : Account GrokAccount
  pub grant : Account Grant
  pub grok_chain_core_program : Pubkey
  pub intents_program : Pubkey
  pub spend_vault : Account SpendVault
  pub paymaster : Option (Account Paymaster)
  pub fee_payer : Option AccountInfo

-- The grant's part: it is CORE's grant of this account to this agent.
unfoldable pub check_grant_account :
    Runtime → Account GrokAccount → AccountInfo → Account Grant → Result (Unit {0})
check_grant_account rt grok_account agent grant = do
  check_seeds rt grant.key (text seed_grant ∷ address grok_account.key ∷ address agent.key ∷ [])
      grant.value.bump rt.core_id
  require (grant.value.grok_account == grok_account.key) grok_account_mismatch
  require (grant.value.agent == agent.key) agent_mismatch

unfoldable pub check_mouth : Runtime → Mouth → Result (Unit {0})
check_mouth rt m = do
  check_signer m.agent
  constrain (m.grok_chain_core_program == rt.core_id) AnchorError.invalid_program_id
  check_optional_signer m.fee_payer
  check_grok_account rt m.grok_account
  check_grant_account rt m.grok_account m.agent m.grant
  constrain (m.intents_program == intents_id) AnchorError.constraint_address
  check_spend_vault rt m.grok_account m.spend_vault
  check_paymaster rt m.grok_account m.paymaster

-- What the checks of the accounts establish.
pub record IsAuthorised (m : Mouth) : Type 0 where
  pub agent_signed : m.agent.is_signer ≡ true
  pub grant_agent : m.grant.value.agent ≡ m.agent.key
  pub grant_account : m.grant.value.grok_account ≡ m.grok_account.key
  pub vault_account : m.spend_vault.value.grok_account ≡ m.grok_account.key
  pub vault_root : m.spend_vault.value.root ≡ m.grok_account.value.root

pub check_mouth_inv : (rt : Runtime) (m : Mouth) → check_mouth rt m ≡ ok tt → IsAuthorised m
unfolding check_mouth check_grant_account check_spend_vault
check_mouth_inv rt m h = ground arith
