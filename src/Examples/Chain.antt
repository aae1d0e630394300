-- ===== src/Examples/Chain.antt =====
-- A small chain to run the program on: addresses derived by a toy hash, a CORE that meters grants,
-- and a token program and a system program that accept everything.
use Prim.Native.Char
use Prim.Native.String
use grokchain_programs.Base.{
  ℕ, ◌+◌, ◌*◌, ◌≤◌, ◌≡◌, true, false, List, [], ◌∷◌, pos, leb, ◌==◌, if◌then◌else◌, drop,
  from_le_bytes, from_le_bytes-u64_bytes, u64_bytes, le_bytes, ◌++◌, arith, some,
}
use grokchain_programs.Constants.{token_program_id, intents_id}
use grokchain_programs.CoreCpi.{writable, check_grant_ix}
use grokchain_programs.CoreCpi.Metering.{metered, MetersGrants}
use grokchain_programs.Common.Mouth.{Mouth}
use grokchain_programs.State.{SpendVault, Paymaster}
use grokchain_programs.Runtime.Address.{Pubkey, Seed, text, address}
use grokchain_programs.Runtime.World.{
  World, Runtime, Account, AccountInfo, Grant, GrokAccount, Instruction, Result, ok, err, program,
}

-- The toy hash tells the program's seeds apart.
abbrev pub hash : List Seed → ℕ
hash [] = 7
hash (text s ∷ rest) = String.len s + 100 * Char.code (String.char_at s 0) + 100_000 * hash rest
hash (address k ∷ rest) = k + 1_000_000 * hash rest

abbrev pub core : ℕ
core = 77

abbrev pub run_core : Instruction → World → Result World
run_core ix w = elim ix.accounts [
  | _ ∷ grant ∷ _ ↦
      let amount = from_le_bytes (drop 8 ix.payload) in
      if leb ((w.grants grant.pubkey).spent_lamports + amount)
        (w.grants grant.pubkey).spend_cap_lamports
      then ok (metered grant.pubkey amount w)
      else err (program 6001)
  | _ ↦ err (program 3005)
]

abbrev pub chain : Runtime
chain = record {
  minimum_balance = λ size. (128 + size) * 6960;
  unix_timestamp = pos 1_700_000_000;
  create_program_address = λ seeds bump owner. hash seeds;
  find_program_address = λ seeds owner. (hash seeds, 255);
  core_id = core;
  system_transfer = λ from to lamports. record {
    program_id = 0;
    accounts = writable from true ∷ writable to false ∷ [];
    payload = 2 ∷ 0 ∷ 0 ∷ 0 ∷ u64_bytes lamports;
  };
  create_account = λ from to lamports space owner. record {
    program_id = 0;
    accounts = writable from true ∷ writable to true ∷ [];
    payload = 0 ∷ 0 ∷ 0 ∷ 0 ∷ u64_bytes lamports ++ u64_bytes space ++ le_bytes 32 owner;
  };
  invoke = λ ix signers w.
      if ix.program_id == core
      then run_core ix w
      else if ix.program_id == token_program_id
      then ok w
      else err (program 1);
}

pub metered_by :
    (grant : Pubkey) (w w' : World) (read amount : ℕ)
    → read ≡ amount
    → (if leb ((w.grants grant).spent_lamports + read) (w.grants grant).spend_cap_lamports
        then ok (metered grant read w)
        else err (program 6001))
      ≡ ok w'
    → (w' ≡ metered grant amount w)
      × ((w.grants grant).spent_lamports + amount ≤ (w.grants grant).spend_cap_lamports)
metered_by grant w w' read amount e h = ground (arith, e, h)

-- The toy CORE keeps CORE's contract.
pub chain-MetersGrants : MetersGrants chain
unfolding check_grant_ix
chain-MetersGrants = record {
  on_success = λ grok grant agent target amount w w' small h.
      metered_by grant w w' (from_le_bytes (u64_bytes amount)) amount
        (from_le_bytes-u64_bytes amount small) h;
}

-- The accounts: the root 10, the agent 20, a relayer 30, a recipient 40.
abbrev pub signer : Pubkey → AccountInfo
signer k = record { key = k; is_signer = true; is_writable = true; executable = false }

abbrev pub grok : Account GrokAccount
grok = record {
  key = hash (text "grok-account" ∷ address 10 ∷ []);
  value = record { root = 10; bump = 255 };
}

abbrev pub grant_of : Pubkey → Grant
grant_of agent = record {
  grok_account = grok.key;
  agent = agent;
  spend_cap_lamports = 500_000_000;
  spent_lamports = 0;
  expires_at_unix = pos 1_800_000_000;
  revoked = false;
  sponsor_eligible = true;
  generation = 1;
  bump = 255;
}

abbrev pub grant : Account Grant
grant = record {
  key = hash (text "grant" ∷ address grok.key ∷ address 20 ∷ []);
  value = grant_of 20;
}

abbrev pub vault : Account SpendVault
vault = record {
  key = hash (text "spend-vault" ∷ address grok.key ∷ []);
  value = record { grok_account = grok.key; root = 10; bump = 255 };
}

abbrev pub paymaster : Account Paymaster
paymaster = record {
  key = hash (text "paymaster" ∷ address grok.key ∷ []);
  value = record { grok_account = grok.key; root = 10; relayer = 30; bump = 255; paused = false };
}

abbrev pub mouth : Mouth
mouth = record {
  agent = signer 20;
  grok_account = grok;
  grant = grant;
  grok_chain_core_program = core;
  intents_program = intents_id;
  spend_vault = vault;
  paymaster = some paymaster;
  fee_payer = some (signer 30);
}

abbrev pub world : World
world = record {
  lamports =
      λ k. if k == vault.key then 1_000_000_000 else if k == paymaster.key then 50_000_000 else 0;
  owner = λ k. 0;
  bytes = λ k. [];
  grants = λ k. grant_of 20;
  log = [];
}

-- The world after a run, and its result.
abbrev pub world_after : {A : Type 0} → Result (A × World) → World
world_after (ok (a, w)) = w
world_after (err e) = world
