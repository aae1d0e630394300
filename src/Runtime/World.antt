-- ===== src/Runtime/World.antt =====
-- What an instruction reads and writes: the accounts it is given, CORE's grants and the log.
-- The runtime, the framework and the other programs are a parameter, the record `Runtime`.
use grokchain_programs.Base.{ℕ, ℤ, Bool, List}
use grokchain_programs.Errors.{IntentsError}
use grokchain_programs.Events.{Event}
use grokchain_programs.Runtime.Address.{Pubkey, Seed}

-- An error that ends an instruction: one of the program's own, a check that Anchor generates
-- from an account struct, an error of a program that was called, or an abort on overflow or on
-- an index out of range (`overflow-checks = true` in Cargo.toml).
pub data AnchorError : Type 0 where
  account_not_signer constraint_seeds constraint_address constraint_executable : AnchorError
  invalid_program_id : AnchorError

pub data Error : Type 0 where
  intents : IntentsError → Error
  anchor : AnchorError → Error
  program : ℕ → Error
  aborted : Error

pub data Result {ℓ} (A : Type ℓ) : Type ℓ where
  ok : A → Result A
  err : Error → Result A

-- The fields of CORE's `Grant` account that this program reads. CORE's crate is not part of the
-- repository.
pub record Grant : Type 0 where
  pub grok_account : Pubkey
  pub agent : Pubkey
  pub spend_cap_lamports : ℕ
  pub spent_lamports : ℕ
  pub expires_at_unix : ℤ
  pub revoked : Bool
  pub sponsor_eligible : Bool
  pub generation : ℕ
  pub bump : ℕ

-- The fields of CORE's `GrokAccount` that this program reads.
pub record GrokAccount : Type 0 where
  pub root : Pubkey
  pub bump : ℕ

-- The accounts by address: balance, owning program, raw bytes (of the accounts that
-- this program reads as bytes), the grants that CORE keeps, and this program's events, newest first.
pub record World : Type 0 where
  pub lamports : Pubkey → ℕ
  pub owner : Pubkey → Pubkey
  pub bytes : Pubkey → List ℕ
  pub grants : Pubkey → Grant
  pub log : List Event

-- `Account<'info, T>`: an address and the value that was deserialised from it when the
-- instruction began.
pub record Account (A : Type 0) : Type 0 where
  pub key : Pubkey
  pub value : A

-- An unchecked account or a signer, as the transaction passes it.
pub record AccountInfo : Type 0 where
  pub key : Pubkey
  pub is_signer : Bool
  pub is_writable : Bool
  pub executable : Bool

-- `AccountMeta`: `new` is writable, `new_readonly` is not.
pub record AccountMeta : Type 0 where
  pub pubkey : Pubkey
  pub is_signer : Bool
  pub is_writable : Bool

-- `Instruction`.
pub record Instruction : Type 0 where
  pub program_id : Pubkey
  pub accounts : List AccountMeta
  pub payload : List ℕ

-- What is not under the repository's root: the sysvars, the derivation of addresses, and the
-- programs that `invoke` and `invoke_signed` call. The last argument of `invoke` but one lists
-- the derived addresses that sign. `system_transfer` and
-- `create_account` are the instructions that `system_instruction::transfer` and
-- `system_instruction::create_account` build.
pub record Runtime : Type 0 where
  pub minimum_balance : ℕ → ℕ
  pub unix_timestamp : ℤ
  pub create_program_address : List Seed → ℕ → Pubkey → Pubkey
  pub find_program_address : List Seed → Pubkey → Pubkey × ℕ
  pub core_id : Pubkey
  pub system_transfer : Pubkey → Pubkey → ℕ → Instruction
  pub create_account : Pubkey → Pubkey → ℕ → ℕ → Pubkey → Instruction
  pub invoke : Instruction → List Pubkey → World → Result World
