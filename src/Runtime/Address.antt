-- ===== src/Runtime/Address.antt =====
-- Addresses. A `Pubkey` is the number that its 32 bytes spell, the first byte highest: the number
-- that its base-58 text stands for.
use grokchain_programs.Base.{ℕ, List, String, from_be_bytes, be_bytes}

abbrev pub Pubkey : Type 0
Pubkey = ℕ

-- `Pubkey::try_from` on a slice of 32 bytes.
abbrev pub pubkey_of_bytes : List ℕ → Pubkey
pubkey_of_bytes = from_be_bytes 0

-- `Pubkey::default()`.
abbrev pub default_pubkey : Pubkey
default_pubkey = 0

-- One seed of a program-derived address: a byte-string literal or an account's address.
pub data Seed : Type 0 where
  text : String → Seed
  address : Pubkey → Seed

-- The 32 bytes of an address (`as_ref`), the first byte highest.
abbrev pub pubkey_bytes : Pubkey → List ℕ
pubkey_bytes = be_bytes 32
