-- ===== src/Stress/Limit.antt =====
-- stress/stress_test.go: TestStressExceedEncryptedGasLimit, its gas limits and its constraint.
use shutter_tests.Prelude.{
  ℕ, zero, suc, ◌+◌, ◌*◌, ◌≤◌, ◌<◌, ◌≡◌, arith, List, [], ◌∷◌, leb, nat_beq, if◌then◌else◌,
}
use shutter_tests.Prelude.Int.{pos, ◌+ℤ◌, ◌-ℤ◌, int_beq}
use shutter_tests.Prelude.Words.{uint64_of_int64}
use shutter_tests.Prelude.Outcomes.{Outcome, ok, err, panic, index_out_of_range}
use shutter_tests.Chain.{Receipt}
use shutter_tests.Stress.World.{GasLimitFn}

-- The last transaction takes what the others have left of the limit, and one more.
unfoldable pub exceeding_gas_limit : GasLimitFn
exceeding_gas_limit payload to i count =
    if int_beq (pos count -ℤ pos i) (pos 1)
    then uint64_of_int64 (pos 1_000_000 -ℤ pos (i * 21_000) +ℤ pos 1)
    else 21000

-- The gas of the transactions from the i-th on, of `left` that are left.
unfoldable pub total_gas : GasLimitFn → ℕ → ℕ → ℕ → ℕ → ℕ
total_gas limit to count zero i = 0
total_gas limit to count (suc left) i = limit [] to i count + total_gas limit to count left (suc i)

total_from :
    (to count left i : ℕ)
    → i + suc left ≡ count
    → count ≤ 48
    → total_gas exceeding_gas_limit to count (suc left) i + i * 21000 ≡ 1_000_001
unfolding total_gas exceeding_gas_limit ◌-ℤ◌ ◌+ℤ◌ uint64_of_int64
total_from to count zero i h l = ground (arith, h, l)
total_from to count (suc left) i h l =
    ground (arith, h, l, total_from to count left (suc i) (omega (arith, h)) l)

-- With at most 48 transactions, the test asks for one more than a million of gas in total, which is what
-- exceeds the limit.
pub exceeding_gas_limit-total :
    (to count : ℕ)
    → 0 < count
    → count ≤ 48
    → total_gas exceeding_gas_limit to count count 0 ≡ 1_000_001
exceeding_gas_limit-total to zero h l = absurd (omega (arith, h))
exceeding_gas_limit-total to (suc n) h l = omega (arith, total_from to (suc n) n 0 (omega arith) l)

-- `sort.Slice` by the block number. It may also leave receipts of the same block in another order.
unfoldable pub insert_receipt : Receipt → List Receipt → List Receipt
insert_receipt r [] = r ∷ []
insert_receipt r (q ∷ qs) =
    if leb r.block_number q.block_number then r ∷ q ∷ qs else q ∷ insert_receipt r qs

unfoldable pub sort_receipts : List Receipt → List Receipt
unfolding insert_receipt
sort_receipts [] = []
sort_receipts (r ∷ rs) = insert_receipt r (sort_receipts rs)

-- `receipts[len(receipts)-1]`.
unfoldable pub last_receipt : Receipt → List Receipt → Receipt
last_receipt r [] = r
last_receipt r (q ∷ qs) = last_receipt q qs

-- The constraint on the sorted receipts. Without any, the index is out of range.
unfoldable pub ends_differ : List Receipt → Outcome (List Receipt)
unfolding last_receipt
ends_differ [] = panic index_out_of_range
ends_differ (r ∷ rs) =
    if nat_beq r.block_number (last_receipt r rs).block_number
    then err "tx must not be all in the same block"
    else ok (r ∷ rs)

unfoldable pub not_all_in_one_block : List Receipt → Outcome (List Receipt)
unfolding ends_differ sort_receipts
not_all_in_one_block receipts = ends_differ (sort_receipts receipts)
