-- ===== src/Base/Words.antt =====
-- 32-bit words. `uint` is the number, `int` is the number read in two's complement.
use Prim.Native.Nat.{ℕ, ◌+◌, ◌-◌, ◌%◌, ◌^◌, ◌<◌}
use mathlib.Core.Bool.{Bool}
use mathlib.Core.Path.{◌≡◌}
use native.Mathlib.Omega.{arith}
use os_fall.Base.Tests.{ltb}

abbrev pub word_size : ℕ
word_size = 2 ^ 32

abbrev pub add32 : ℕ → ℕ → ℕ
add32 a b = (a + b) % 2 ^ 32

abbrev pub sub32 : ℕ → ℕ → ℕ
sub32 a b = (a + 2 ^ 32 - b) % 2 ^ 32

-- `a < b` of two `int`s.
abbrev pub slt : ℕ → ℕ → Bool
slt a b = ltb ((a + 2 ^ 31) % 2 ^ 32) ((b + 2 ^ 31) % 2 ^ 32)

pub add32-sub32 : (a b : ℕ) → a < word_size → b < word_size → add32 (sub32 a b) b ≡ a
add32-sub32 a b p q = omega arith

-- On numbers that are not negative as `int`s the signed order is that of the numbers.
pub slt-ltb : (a b : ℕ) → a < 2 ^ 31 → b < 2 ^ 31 → slt a b ≡ ltb a b
slt-ltb a b p q = ground arith
