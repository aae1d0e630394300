-- ===== src/Common/Adapter.antt =====
-- What the adapters to pump.fun and to Jupiter have in common: the constraints of the account
-- structs `TokenTrade` and `PumpTrade` (instructions/token.rs and pump.rs) and the instruction that
-- is rebuilt from the remaining accounts with the trader as its signer.
use grokchain_programs.Base.{true, not, Option, none, some, ◌==◌, ◌≡◌, ◌≢◌, arith}
use grokchain_programs.Errors.{agent_cannot_fee_pay}
use grokchain_programs.Constants.{intents_id}
use grokchain_programs.Common.Mouth.{
  Mouth, check_grok_account, check_grant_account, check_spend_vault, check_paymaster, IsAuthorised,
}
use grokchain_programs.Runtime.Address.{Pubkey}
use grokchain_programs.Runtime.World.{Runtime, AccountInfo, AnchorError, Result, ok}
use grokchain_programs.Runtime.Check.{◌>>◌, require, constrain, check_signer, check_optional_signer}

-- `ctx.accounts.fee_payer.as_ref().map(|f| f.key())`
abbrev pub fee_payer_key : Option AccountInfo → Option Pubkey
fee_payer_key none = none
fee_payer_key (some fp) = some fp.key

-- `constraint = fee_payer.key() != agent.key()`
abbrev pub check_fee_payer : AccountInfo → Option AccountInfo → Result (Unit {0})
check_fee_payer agent none = ok tt
check_fee_payer agent (some fp) = require (not (fp.key == agent.key)) agent_cannot_fee_pay

-- Anchor's checks of an adapter's accounts: `program` is the one that the adapter calls.
unfoldable pub check_adapter : Runtime → Mouth → AccountInfo → Pubkey → Result (Unit {0})
check_adapter rt m inner id = do
  check_signer m.agent
  constrain (m.grok_chain_core_program == rt.core_id) AnchorError.invalid_program_id
  check_optional_signer m.fee_payer
  check_grok_account rt m.grok_account
  check_grant_account rt m.grok_account m.agent m.grant
  constrain (m.intents_program == intents_id) AnchorError.constraint_address
  check_spend_vault rt m.grok_account m.spend_vault
  constrain (inner.key == id) AnchorError.constraint_address
  constrain inner.executable AnchorError.constraint_executable
  check_paymaster rt m.grok_account m.paymaster
  check_fee_payer m.agent m.fee_payer

-- The agent does not pay the transaction's fee.
abbrev pub IsRelayed : Mouth → Type 0
IsRelayed m = (fp : AccountInfo) → m.fee_payer ≡ some fp → fp.key ≢ m.agent.key

check_fee_payer-key :
    (agent : AccountInfo) (o : Option AccountInfo)
    → check_fee_payer agent o ≡ ok tt
    → (fp : AccountInfo) → o ≡ some fp
    → fp.key ≢ agent.key
check_fee_payer-key agent none h fp e = cc
check_fee_payer-key agent (some f) h fp e = ground (arith, h, e)

adapter_parts :
    (rt : Runtime) (m : Mouth) (inner : AccountInfo) (id : Pubkey)
    → check_adapter rt m inner id ≡ ok tt
    → (inner.key ≡ id) × (inner.executable ≡ true) × (check_fee_payer m.agent m.fee_payer ≡ ok tt)
unfolding check_adapter
adapter_parts rt m inner id h = ground arith

adapter-IsAuthorised :
    (rt : Runtime) (m : Mouth) (inner : AccountInfo) (id : Pubkey)
    → check_adapter rt m inner id ≡ ok tt
    → IsAuthorised m
unfolding check_adapter check_grant_account check_spend_vault
adapter-IsAuthorised rt m inner id h = ground arith

pub check_adapter_inv :
    (rt : Runtime) (m : Mouth) (inner : AccountInfo) (id : Pubkey)
    → check_adapter rt m inner id ≡ ok tt
    → IsAuthorised m × IsRelayed m × (inner.key ≡ id) × (inner.executable ≡ true)
check_adapter_inv rt m inner id h =
    let (named, runs, payer) = adapter_parts rt m inner id h in
    (
      adapter-IsAuthorised rt m inner id h,
      check_fee_payer-key m.agent m.fee_payer payer,
      named,
      runs,
    )
