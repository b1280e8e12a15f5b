-- ===== src/Prelude/Decimal.antt =====
-- Numbers in decimal, as `fmt` and `big.Int.Text(10)` write them.
use Prim.Native.Nat.{ℕ, zero, suc, ◌+◌, ◌-◌, ◌/◌, ◌%◌, ◌<◌}
use mathlib.Core.Path.{◌≡◌}
use mathlib.Core.Bool.{true, false}
use mathlib.Core.List.{List, [], ◌∷◌, ◌++◌}
use mathlib.Core.Option.{some}
use native.Mathlib.Omega.{arith}
use shutter_tests.Prelude.Tests.{ltb}
use shutter_tests.Prelude.Lists.{length, replicate}
use shutter_tests.Prelude.Int.{ℤ, pos, negsuc}
use shutter_tests.Prelude.Text.{read_digits}

-- The digits of a number before those already written, with fuel.
unfoldable pub digits : ℕ → ℕ → List ℕ → List ℕ
digits zero n acc = acc
digits (suc fuel) n acc = elim (ltb n 10) [
  | true ↦ (b'0' + n) ∷ acc
  | false ↦ digits fuel (n / 10) ((b'0' + n % 10) ∷ acc)
]

unfoldable pub decimal : ℕ → List ℕ
unfolding digits
decimal n = digits (suc n) n []

unfoldable pub decimal_ℤ : ℤ → List ℕ
unfolding decimal
decimal_ℤ (pos n) = decimal n
decimal_ℤ (negsuc n) = b'-' ∷ decimal (suc n)

-- At least `width` digits, with zeros in front.
unfoldable pub padded : ℕ → ℕ → List ℕ
unfolding decimal
padded width n = replicate (width - length (decimal n)) b'0' ++ decimal n

read_digits_last :
    (n : ℕ) (acc : List ℕ) → read_digits (n / 10) ((b'0' + n % 10) ∷ acc) ≡ read_digits n acc
unfolding read_digits
read_digits_last n acc = ground arith

read_digits-digits :
    (fuel n : ℕ) (acc : List ℕ) → n < fuel → read_digits 0 (digits fuel n acc) ≡ read_digits n acc
unfolding digits read_digits
read_digits-digits zero n acc h = elim h [ ]
read_digits-digits (suc fuel) n acc h =
    ground (arith, read_digits-digits fuel (n / 10) ((b'0' + n % 10) ∷ acc), read_digits_last n acc)

-- The fuel is enough: what is written reads back as the number.
pub read_digits-decimal : (n : ℕ) → read_digits 0 (decimal n) ≡ some n
unfolding decimal read_digits
read_digits-decimal n = read_digits-digits (suc n) n [] (omega arith)
