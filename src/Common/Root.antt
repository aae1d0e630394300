-- ===== src/Common/Root.antt =====
-- The accounts of the instructions that only the root may send, and Anchor's checks of them.
use grokchain_programs.Base.{ℕ, true, List, ◌==◌, ◌≡◌, arith}
use grokchain_programs.Errors.{unauthorized_root}
use grokchain_programs.Constants.{intents_id}
use grokchain_programs.Common.Mouth.{check_grok_account}
use grokchain_programs.Runtime.Address.{Pubkey, Seed}
use grokchain_programs.Runtime.World.{
  Runtime, Account, AccountInfo, GrokAccount, AnchorError, Result, ok,
}
use grokchain_programs.Runtime.Check.{◌>>◌, require, constrain, check_signer}

-- `root` and `grok_account`.
pub record Root : Type 0 where
  pub root : AccountInfo
  pub grok_account : Account GrokAccount

unfoldable pub check_root : Runtime → Root → Result (Unit {0})
check_root rt r = do
  check_signer r.root
  check_grok_account rt r.grok_account
  require (r.grok_account.value.root == r.root.key) unauthorized_root

-- `init` with a bare `bump`: the address and the bump are those of the derivation.
unfoldable pub check_derived : Runtime → Pubkey → ℕ → List Seed → Result (Unit {0})
check_derived rt k bump seeds = do
  constrain (k == (rt.find_program_address seeds intents_id).0) AnchorError.constraint_seeds
  constrain (bump == (rt.find_program_address seeds intents_id).1) AnchorError.constraint_seeds

-- The root has signed, and it is the root of the account.
abbrev pub IsRoot : Root → Type 0
IsRoot r = (r.root.is_signer ≡ true) × (r.grok_account.value.root ≡ r.root.key)

pub check_root-IsRoot : (rt : Runtime) (r : Root) → check_root rt r ≡ ok tt → IsRoot r
unfolding check_root
check_root-IsRoot rt r h = ground arith
