-- ===== src/Utils/Prefix.antt =====
-- utils/utils.go: the identity prefix of a transaction carries the number of its trigger block.
-- Bytes are numbers below 256; a `shcrypto.Block` is a list of 32 of them.
pub mod RoundTrip
use shutter_tests.Prelude.{
  ℕ, zero, suc, ◌+◌, ◌*◌, ◌/◌, ◌%◌, List, [], ◌∷◌, ◌++◌, take, drop, replicate, if◌then◌else◌,
}
use shutter_tests.Prelude.Int.{ℤ, pos, ltb_ℤ}
use shutter_tests.Prelude.Words.{int64_of_uint64, uint64_of_int64}

abbrev pub block_size : ℕ
block_size = 32

-- The k low bytes of a number, least significant first.
unfoldable pub bytes_le : ℕ → ℕ → List ℕ
bytes_le zero v = []
bytes_le (suc k) v = v % 256 ∷ bytes_le k (v / 256)

unfoldable pub of_bytes_le : List ℕ → ℕ
of_bytes_le [] = 0
of_bytes_le (b ∷ bs) = b + 256 * of_bytes_le bs

-- `binary.LittleEndian.PutUint64(b, v)`.
unfoldable pub put_uint64 : List ℕ → ℕ → List ℕ
unfolding bytes_le
put_uint64 b v = bytes_le 8 v ++ drop 8 b

-- `binary.LittleEndian.Uint64(b)`.
unfoldable pub get_uint64 : List ℕ → ℕ
unfolding of_bytes_le
get_uint64 b = of_bytes_le (take 8 b)

unfoldable pub prefix_from_block_number : ℤ → List ℕ
prefix_from_block_number n =
    let bytes = replicate block_size 0 in
    if ltb_ℤ (pos 0) n then put_uint64 bytes (uint64_of_int64 n) else bytes

unfoldable pub block_number_from_prefix : List ℕ → ℤ
block_number_from_prefix prefix = int64_of_uint64 (get_uint64 prefix)
