-- ===== src/Utils/Prefix/RoundTrip.antt =====
-- utils/utils.go: PrefixFromBlockNumber and BlockNumberFromPrefix undo each other.
use shutter_tests.Prelude.{
  ℕ, zero, suc, ◌+◌, ◌*◌, ◌/◌, ◌<◌, List, [], ◌∷◌, ◌++◌, take, replicate, if◌then◌else◌, ◌≡◌, refl,
  arith, length, All, ap, lt→ltb, subst, ◌∙◌,
}
use mathlib.Core.Path.{ap₂}
use shutter_tests.Prelude.Int.{ℤ, pos, negsuc, ltb_ℤ}
use shutter_tests.Prelude.Words.{
  int64_of_uint64, uint64_of_int64, IsInt64, word, half_word, int64_of_uint64_small,
  uint64_of_int64_small,
}
use shutter_tests.Utils.Prefix.{
  block_size, bytes_le, of_bytes_le, put_uint64, get_uint64, prefix_from_block_number,
  block_number_from_prefix,
}

abbrev pub IsByte : ℕ → Type 0
IsByte b = b < 256

take-bytes_le : (v : ℕ) (rest : List ℕ) → take 8 (bytes_le 8 v ++ rest) ≡ bytes_le 8 v
unfolding bytes_le
take-bytes_le v rest = refl

of_bytes_le-bytes_le : (v : ℕ) → v < word → of_bytes_le (bytes_le 8 v) ≡ v
unfolding of_bytes_le bytes_le
of_bytes_le-bytes_le v h = omega arith

get_uint64-put_uint64 : (b : List ℕ) (v : ℕ) → v < word → get_uint64 (put_uint64 b v) ≡ v
unfolding get_uint64 put_uint64
get_uint64-put_uint64 b v h = of_bytes_le-bytes_le v h

get_uint64-zeros : get_uint64 (replicate block_size 0) ≡ 0
unfolding get_uint64
get_uint64-zeros = refl

-- The value that the program reads back: a block number that is not positive is lost.
abbrev pub positive_or_zero : ℤ → ℤ
positive_or_zero n = if ltb_ℤ (pos 0) n then n else pos 0

int64_round_trip : (n : ℕ) → n < half_word → int64_of_uint64 (uint64_of_int64 (pos n)) ≡ pos n
unfolding int64_of_uint64 uint64_of_int64
int64_round_trip n h = ground arith

-- Reading the block number back from its prefix gives that number when it is a positive int64, and
-- 0 when it is zero or negative.
pub from_prefix-prefix_from :
    (n : ℤ) → IsInt64 n → block_number_from_prefix (prefix_from_block_number n) ≡ positive_or_zero n
unfolding block_number_from_prefix prefix_from_block_number
from_prefix-prefix_from (negsuc n) h = ground (arith, get_uint64-zeros, int64_of_uint64_small 0)
from_prefix-prefix_from (pos n) h = ground (
  arith,
  get_uint64-zeros,
  int64_of_uint64_small 0,
  get_uint64-put_uint64 (replicate block_size 0) (uint64_of_int64 (pos n)),
  int64_round_trip n,
  uint64_of_int64_small n,
)

bytes_le-IsByte : (k v : ℕ) → All IsByte (bytes_le k v)
unfolding bytes_le
bytes_le-IsByte zero v = tt
bytes_le-IsByte (suc k) v = (omega arith, bytes_le-IsByte k (v / 256))

-- Every prefix has 32 bytes, whatever the block number.
pub length-prefix_from : (n : ℤ) → length (prefix_from_block_number n) ≡ block_size
unfolding prefix_from_block_number put_uint64 bytes_le
length-prefix_from n = ground arith

of_bytes_le-lt : (b : List ℕ) → length b ≡ 8 → All IsByte b → of_bytes_le b < word
unfolding of_bytes_le
of_bytes_le-lt (a ∷ b ∷ c ∷ d ∷ e ∷ f ∷ g ∷ h ∷ []) n all = omega arith
of_bytes_le-lt _ n all = absurd (omega arith)

bytes_le-of_bytes_le : (b : List ℕ) → All IsByte b → bytes_le (length b) (of_bytes_le b) ≡ b
unfolding of_bytes_le bytes_le
bytes_le-of_bytes_le [] all = refl
bytes_le-of_bytes_le (x ∷ b) all =
    ap₂ ◌∷◌ (omega arith) (ap (bytes_le (length b)) tail ∙ bytes_le-of_bytes_le b all.1)
  where
    tail : (x + 256 * of_bytes_le b) / 256 ≡ of_bytes_le b
    tail = omega arith

-- Only the first eight bytes of a prefix decide which block number is read from it.
pub from_prefix_ignores_tail :
    (b rest rest' : List ℕ)
    → length b ≡ 8
    → block_number_from_prefix (b ++ rest) ≡ block_number_from_prefix (b ++ rest')
unfolding block_number_from_prefix get_uint64
from_prefix_ignores_tail (a ∷ b ∷ c ∷ d ∷ e ∷ f ∷ g ∷ h ∷ []) rest rest' n = refl
from_prefix_ignores_tail _ rest rest' n = absurd (omega arith)

get_uint64-append : (b rest : List ℕ) → length b ≡ 8 → get_uint64 (b ++ rest) ≡ of_bytes_le b
unfolding get_uint64
get_uint64-append (a ∷ b ∷ c ∷ d ∷ e ∷ f ∷ g ∷ h ∷ []) rest n = refl
get_uint64-append _ rest n = absurd (omega arith)

-- A prefix of eight bytes that stand for a positive int64, with zeros behind them, is the prefix
-- that the program makes of the block number that it reads from it.
pub prefix_from-from_prefix :
    (b : List ℕ)
    → length b ≡ 8
    → All IsByte b
    → 0 < of_bytes_le b
    → of_bytes_le b < half_word
    → prefix_from_block_number (block_number_from_prefix (b ++ replicate 24 0))
      ≡ b ++ replicate 24 0
unfolding block_number_from_prefix prefix_from_block_number put_uint64
prefix_from-from_prefix b n all lo hi =
    rw
      (
        get_uint64-append b (replicate 24 0) n,
        int64_of_uint64_small (of_bytes_le b) hi,
        lt→ltb 0 (of_bytes_le b + 0) (omega arith),
        uint64_of_int64_small (of_bytes_le b) (omega arith),
      )
      (ap (λ (c : List ℕ). c ++ replicate 24 0)
        (subst (λ k. bytes_le k (of_bytes_le b) ≡ b) n (bytes_le-of_bytes_le b all)))
