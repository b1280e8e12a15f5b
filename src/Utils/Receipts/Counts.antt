-- ===== src/Utils/Receipts/Counts.antt =====
-- utils/utils.go: what the lines of CountAndLog say.
use mathlib.Core.List.{map}
use shutter_tests.Prelude.{
  ℕ, ◌+◌, ◌%◌, ◌<◌, ◌≡◌, refl, arith, List, [], ◌∷◌, All, nat_beq, nat_beq_iff, lookup, insert,
  lookup-insert, nat_eq, if◌then◌else◌,
}
use shutter_tests.Prelude.Words.{word, uint64_add}
use shutter_tests.Chain.{Receipt}
use shutter_tests.Utils.Receipts.{value_at, count_one, add_gas, count_loop, Line, count_and_log}

-- How many of the receipts are of a block, and the gas that they used.
abbrev pub occurrences : ℕ → List Receipt → ℕ
occurrences n [] = 0
occurrences n (r ∷ receipts) = (if nat_beq r.block_number n then 1 else 0) + occurrences n receipts

abbrev pub total_gas : ℕ → List Receipt → ℕ
total_gas n [] = 0
total_gas n (r ∷ receipts) =
    (if nat_beq r.block_number n then r.gas_used else 0) + total_gas n receipts

value_at-insert :
    (key n v : ℕ) (m : List (ℕ × ℕ))
    → value_at n (insert key v m) ≡ (if nat_beq key n then v else value_at n m)
unfolding value_at
value_at-insert key n v m = ground (arith, lookup-insert key n v m)

counted_from :
    (receipts : List Receipt) (c g : List (ℕ × ℕ)) (n : ℕ)
    → value_at n c < 65536
    → value_at n (count_loop receipts c g).0 ≡ (value_at n c + occurrences n receipts) % 65536
unfolding count_loop count_one
counted_from [] c g n h = omega (arith, h)
counted_from (r ∷ receipts) c g n h = ground (
  arith,
  counted_from receipts (count_one r c) (add_gas r g) n,
  value_at-insert r.block_number n ((value_at r.block_number c + 1) % 65536) c,
  nat_beq_iff r.block_number n,
)

gas_from :
    (receipts : List Receipt) (c g : List (ℕ × ℕ)) (n : ℕ)
    → value_at n g < word
    → value_at n (count_loop receipts c g).1 ≡ (value_at n g + total_gas n receipts) % word
unfolding count_loop add_gas uint64_add
gas_from [] c g n h = omega (arith, h)
gas_from (r ∷ receipts) c g n h = ground (
  arith,
  gas_from receipts (count_one r c) (add_gas r g) n,
  value_at-insert r.block_number n ((value_at r.block_number g + r.gas_used) % word) g,
  nat_beq_iff r.block_number n,
)

value_at-nil : (n : ℕ) → value_at n [] ≡ 0
unfolding value_at lookup
value_at-nil n = refl

-- What a line should say.
pub record IsLine (receipts : List Receipt) (l : Line) : Type 0 where
  pub txs : l.txs ≡ occurrences l.block receipts % 65536
  pub gas_used : l.gas_used ≡ total_gas l.block receipts % word

All-map_lines :
    (receipts : List Receipt) (c g : List (ℕ × ℕ)) (keys : List ℕ)
    → ((n : ℕ) → value_at n c ≡ occurrences n receipts % 65536)
    → ((n : ℕ) → value_at n g ≡ total_gas n receipts % word)
    → All
        (IsLine receipts)
        (map (λ n. record { block = n; txs = value_at n c; gas_used = value_at n g }) keys)
All-map_lines receipts c g [] hc hg = tt
All-map_lines receipts c g (n ∷ keys) hc hg =
    (record { txs = hc n; gas_used = hg n }, All-map_lines receipts c g keys hc hg)

-- Every line that CountAndLog logs gives the number of the receipts of its block, counted in 16 bits,
-- and the sum of the gas that they used, in 64 bits.
pub count_and_log-IsLine :
    (receipts : List Receipt) → All (IsLine receipts) (count_and_log receipts)
unfolding count_and_log
count_and_log-IsLine receipts =
    All-map_lines receipts _ _ _ (λ n. omega (arith, counted_from receipts [] [] n, value_at-nil n))
      (λ n. omega (arith, gas_from receipts [] [] n, value_at-nil n))
