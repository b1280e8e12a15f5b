-- ===== src/Prelude/Text.antt =====
-- Text as its code points, and `strconv.Atoi`.
use Prim.Native.Nat.{ℕ, ◌+◌, ◌-◌, ◌*◌}
use Prim.Native.Char.{code}
use Prim.Native.String.{String}
use mathlib.Core.Bool.{◌&&◌}
use mathlib.Core.List.{List, [], ◌∷◌}
use mathlib.Core.Option.{Option, none, some}
use shutter_tests.Prelude.Tests.{leb, nat_beq, if◌then◌else◌}
use shutter_tests.Prelude.Int.{ℤ, pos, sub_ℕ}
use shutter_tests.Prelude.Words.{half_word}

abbrev pub codes : String → List ℕ
codes String.[] = []
codes (String.◌∷◌ c s) = code c ∷ codes s

-- The digits that are left, after the number read so far.
unfoldable pub read_digits : ℕ → List ℕ → Option ℕ
read_digits n [] = some n
read_digits n (c ∷ cs) =
    let rest = read_digits (n * 10 + (c - b'0')) cs in
    if leb b'0' c && leb c b'9' then rest else none

read_number : List ℕ → Option ℕ
unfolding read_digits
read_number [] = none
read_number (c ∷ cs) = read_digits 0 (c ∷ cs)

positive : Option ℕ → Option ℤ
positive none = none
positive (some n) = if leb n (half_word - 1) then some (pos n) else none

negative : Option ℕ → Option ℤ
negative none = none
negative (some n) = if leb n half_word then some (sub_ℕ 0 n) else none

read_signed : List ℕ → Option ℤ
unfolding read_number positive negative
read_signed [] = none
read_signed (c ∷ cs) =
    if nat_beq c b'-'
    then negative (read_number cs)
    else if nat_beq c b'+'
    then positive (read_number cs)
    else positive (read_number (c ∷ cs))

-- `strconv.Atoi`: `none` is its error, for what is no number or does not fit an int64.
unfoldable pub atoi : String → Option ℤ
unfolding read_signed
atoi s = read_signed (codes s)
