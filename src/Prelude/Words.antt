-- ===== src/Prelude/Words.antt =====
-- Go's int64 and uint64 and the conversions between them. An int64 is the integer that it stands
-- for, a uint64 the number.
use Prim.Native.Nat.{ℕ, suc, ◌+◌, ◌-◌, ◌%◌, ◌<◌}
use mathlib.Core.Path.{◌≡◌}
use native.Mathlib.Omega.{arith}
use shutter_tests.Prelude.Tests.{ltb, if◌then◌else◌}
use shutter_tests.Prelude.Int.{ℤ, pos, negsuc, ◌≤ℤ◌, ◌-ℤ◌}

abbrev pub word : ℕ
word = 0x1_0000_0000_0000_0000

abbrev pub half_word : ℕ
half_word = 0x8000_0000_0000_0000

-- `int64(v)` of a uint64: two's complement.
unfoldable pub int64_of_uint64 : ℕ → ℤ
int64_of_uint64 v = if ltb v half_word then pos v else negsuc (word - v - 1)

-- `uint64(n)` of an int64, and the low 64 bits that `big.Int.Uint64` keeps of a natural number.
unfoldable pub uint64_of_int64 : ℤ → ℕ
uint64_of_int64 (pos n) = n % word
uint64_of_int64 (negsuc n) = word - 1 - n % word

-- `Uint64` of a big.Int: the low 64 bits of its absolute value.
unfoldable pub uint64_of_big : ℤ → ℕ
uint64_of_big (pos n) = n % word
uint64_of_big (negsuc n) = suc n % word

-- `Int64` of a big.Int: the low 64 bits of its absolute value as an int64, negated for a negative one.
unfoldable pub int64_of_big : ℤ → ℤ
unfolding int64_of_uint64
int64_of_big (pos n) = int64_of_uint64 (n % word)
int64_of_big (negsuc n) = int64_of_uint64 ((word - suc n % word) % word)

-- Subtraction of int64 values, which wraps.
unfoldable pub int64_sub : ℤ → ℤ → ℤ
unfolding int64_of_uint64 uint64_of_int64
int64_sub a b = int64_of_uint64 (uint64_of_int64 (a -ℤ b))

unfoldable pub uint64_sub : ℕ → ℕ → ℕ
uint64_sub a b = (a + word - b) % word

unfoldable pub uint64_add : ℕ → ℕ → ℕ
uint64_add a b = (a + b) % word

abbrev pub IsInt64 : ℤ → Type 0
IsInt64 n = (negsuc (half_word - 1) ≤ℤ n) × (n ≤ℤ pos (half_word - 1))

pub int64_of_uint64-IsInt64 : (v : ℕ) → v < word → IsInt64 (int64_of_uint64 v)
unfolding int64_of_uint64
int64_of_uint64-IsInt64 v h = ground arith

pub int64_of_uint64-uint64_of_int64 : (n : ℤ) → IsInt64 n → int64_of_uint64 (uint64_of_int64 n) ≡ n
unfolding int64_of_uint64 uint64_of_int64
int64_of_uint64-uint64_of_int64 (pos n) h = ground arith
int64_of_uint64-uint64_of_int64 (negsuc n) h = ground arith

pub uint64_of_int64-int64_of_uint64 : (v : ℕ) → v < word → uint64_of_int64 (int64_of_uint64 v) ≡ v
unfolding int64_of_uint64 uint64_of_int64
uint64_of_int64-int64_of_uint64 v h = ground arith

pub int64_of_uint64_small : (v : ℕ) → v < half_word → int64_of_uint64 v ≡ pos v
unfolding int64_of_uint64
int64_of_uint64_small v h = ground arith

pub uint64_of_int64_small : (n : ℕ) → n < word → uint64_of_int64 (pos n) ≡ n
unfolding uint64_of_int64
uint64_of_int64_small n h = omega arith

pub uint64_of_int64-lt : (n : ℤ) → uint64_of_int64 n < word
unfolding uint64_of_int64
uint64_of_int64-lt (pos n) = omega arith
uint64_of_int64-lt (negsuc n) = omega arith
