-- ===== src/Base/Words.antt =====
-- Machine words: u64 as natural numbers below 2 ^ 64, and their little-endian bytes.
use Prim.Native.Nat.{ℕ, zero, suc, ◌+◌, ◌-◌, ◌*◌, ◌/◌, ◌%◌, ◌^◌, ◌<◌}
use mathlib.Core.Path.{◌≡◌, refl}
use mathlib.Core.List.{List, [], ◌∷◌}
use mathlib.Core.Option.{Option, none, some}
use native.Mathlib.Omega.{arith}
use grokchain_programs.Base.Tests.{ltb, leb, if◌then◌else◌}
use grokchain_programs.Base.Lists.{length}

-- One more than the largest u64.
abbrev pub u64_size : ℕ
u64_size = 0x1_0000_0000_0000_0000

abbrev pub u32_max : ℕ
u32_max = 0xffff_ffff

-- `u64::checked_add` and `u64::checked_sub`.
abbrev pub checked_add : ℕ → ℕ → Option ℕ
checked_add a b = if ltb (a + b) u64_size then some (a + b) else none

abbrev pub checked_sub : ℕ → ℕ → Option ℕ
checked_sub a b = if leb b a then some (a - b) else none

-- `u64::saturating_sub` is the subtraction of ℕ.
abbrev pub saturating_sub : ℕ → ℕ → ℕ
saturating_sub a b = a - b

-- `u32::saturating_add`.
abbrev pub saturating_add_u32 : ℕ → ℕ → ℕ
saturating_add_u32 a b = if ltb (a + b) u32_max then a + b else u32_max

-- The `n` little-endian bytes of a number (`to_le_bytes`).
abbrev pub le_bytes : ℕ → ℕ → List ℕ
le_bytes zero x = []
le_bytes (suc n) x = (x % 256) ∷ le_bytes n (x / 256)

-- `from_le_bytes`.
abbrev pub from_le_bytes : List ℕ → ℕ
from_le_bytes [] = 0
from_le_bytes (b ∷ bs) = b + 256 * from_le_bytes bs

-- `to_le_bytes` of a u64.
abbrev pub u64_bytes : ℕ → List ℕ
u64_bytes = le_bytes 8

-- Big-endian reading of the 32 bytes of an address.
abbrev pub from_be_bytes : ℕ → List ℕ → ℕ
from_be_bytes acc [] = acc
from_be_bytes acc (b ∷ bs) = from_be_bytes (256 * acc + b) bs

pub length-le_bytes : (n x : ℕ) → length (le_bytes n x) ≡ n
length-le_bytes zero x = refl
length-le_bytes (suc n) x = omega (arith, length-le_bytes n (x / 256))

pub from_le_bytes-u64_bytes : (x : ℕ) → x < u64_size → from_le_bytes (u64_bytes x) ≡ x
from_le_bytes-u64_bytes x h = omega arith

-- The `n` big-endian bytes of a number.
abbrev pub be_bytes : ℕ → ℕ → List ℕ
be_bytes zero x = []
be_bytes (suc n) x = (x / 256 ^ n % 256) ∷ be_bytes n x
