-- ===== src/Base/Text.antt =====
-- The UTF-8 bytes of a text (Rust's `as_bytes`).
use Prim.Native.Nat.{ℕ, ◌+◌, ◌*◌, ◌/◌, ◌%◌, ◌≤◌}
use Prim.Native.Char.{code}
use Prim.Native.String.{String, count, [] as empty, ◌∷◌ as ◌⊳◌}
use Prim.Native.String.count as Count
use mathlib.Core.List.{List, [], ◌∷◌, ◌++◌}
use native.Mathlib.Omega.{arith}
use grokchain_programs.Base.Tests.{ltb, if◌then◌else◌}
use grokchain_programs.Base.Lists.{length, length-append}

abbrev pub utf8_of : ℕ → List ℕ
utf8_of c =
    if ltb c 0x80
    then c ∷ []
    else if ltb c 0x800
    then (0xc0 + c / 64) ∷ (0x80 + c % 64) ∷ []
    else if ltb c 0x10000
    then (0xe0 + c / 4096) ∷ (0x80 + c / 64 % 64) ∷ (0x80 + c % 64) ∷ []
    else (0xf0 + c / 262144) ∷ (0x80 + c / 4096 % 64) ∷ (0x80 + c / 64 % 64) ∷ (0x80 + c % 64) ∷ []

unfoldable pub utf8 : String → List ℕ
utf8 empty = []
utf8 (c ⊳ s) = utf8_of (code c) ++ utf8 s

length-utf8_of : (c : ℕ) → length (utf8_of c) ≤ 4
length-utf8_of c = ground arith

-- A text of n characters has at most 4 n bytes.
pub length-utf8 : (s : String) → length (utf8 s) ≤ 4 * count s
unfolding utf8
length-utf8 empty = rw Count.nil (omega arith)
length-utf8 (c ⊳ s) = rw (Count.cons c s) (
    omega
      (arith, length-utf8 s, length-utf8_of (code c), length-append (utf8_of (code c)) (utf8 s)))
