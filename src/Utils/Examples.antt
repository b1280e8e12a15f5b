-- ===== src/Utils/Examples.antt =====
-- utils/utils.go: the shared functions on small inputs.
use shutter_tests.Prelude.{ℕ, ◌≡◌, refl, arith, List, [], ◌∷◌, ◌++◌, All, insert, lookup}
use shutter_tests.Prelude.Int.{pos}
use shutter_tests.Utils.Prefix.{block_number_from_prefix, prefix_from_block_number}
use shutter_tests.Utils.Prefix.RoundTrip.{
  positive_or_zero, from_prefix-prefix_from, from_prefix_ignores_tail,
}
use shutter_tests.Prelude.Words.{uint64_add}
use shutter_tests.Prelude.Decimal.{decimal}
use shutter_tests.Chain.{Receipt}
use shutter_tests.Utils.Receipts.{count_and_log}
use shutter_tests.Utils.Receipts.Counts.{IsLine, count_and_log-IsLine}
use shutter_tests.Utils.Account.{Account}

from_prefix-prefix_from_example :
    block_number_from_prefix (prefix_from_block_number (pos 38_000_000))
    ≡ positive_or_zero (pos 38_000_000)
from_prefix-prefix_from_example = from_prefix-prefix_from (pos 38_000_000) (omega arith)

abbrev eight_bytes : List ℕ
eight_bytes = 7 ∷ 1 ∷ 0 ∷ 0 ∷ 0 ∷ 0 ∷ 0 ∷ 0 ∷ []

from_prefix_ignores_tail_example :
    block_number_from_prefix (eight_bytes ++ 1 ∷ 2 ∷ [])
    ≡ block_number_from_prefix (eight_bytes ++ 3 ∷ [])
from_prefix_ignores_tail_example = from_prefix_ignores_tail eight_bytes (1 ∷ 2 ∷ []) (3 ∷ []) refl

abbrev tester : Account
tester = record { address = 101; private_key = 1; nonce = pos 4 }

abbrev three_receipts : List Receipt
three_receipts =
    record { status = 1; block_number = 9; gas_used = 21000 }
    ∷ record { status = 1; block_number = 10; gas_used = 30000 }
    ∷ record { status = 0; block_number = 9; gas_used = 21000 }
    ∷ []

-- The texts are sorted, so block 10 comes before block 9.
three_lines :
    count_and_log three_receipts
    ≡ record { block = 10; txs = 1; gas_used = 30000 }
      ∷ record { block = 9; txs = 2; gas_used = 42000 }
      ∷ []
unfolding count_and_log decimal uint64_add insert lookup
three_lines = refl

count_and_log-IsLine_example : All (IsLine three_receipts) (count_and_log three_receipts)
count_and_log-IsLine_example = count_and_log-IsLine three_receipts
