-- ===== src/Utils/Repair/Balance.antt =====
-- utils/utils.go: what Drain leaves.
use shutter_tests.Prelude.{ℕ, ◌-◌, ◌*◌, ◌≤◌, ◌<◌, ◌≡◌, arith, some}
use shutter_tests.Prelude.Int.{pos}
use shutter_tests.Prelude.Words.{half_word, int64_of_uint64_small, uint64_of_big, uint64_sub}
use shutter_tests.Prelude.Outcomes.{Outcome, ok}
use shutter_tests.Chain.{Transaction, Crypto}
use shutter_tests.Utils.Account.{Account, sign}
use shutter_tests.Utils.Repair.{drain, or_nil, nonce_or_zero, remaining, new_transaction}

remaining-small :
    (balance price : ℕ)
    → 21000 * price ≤ balance
    → balance < half_word
    → remaining balance (pos price) ≡ balance - 21000 * price
unfolding remaining uint64_sub uint64_of_big
remaining-small balance price le lt = ground arith

-- If the balance, below 2^63, covers the fee, what Drain sends and its fee together are the balance,
-- and go to the target.
pub drain-all :
    (c : Crypto) (account : Account) (balance target price : ℕ) (pending status : Outcome ℕ)
    (tx : Transaction)
    → 21000 * price ≤ balance
    → balance < half_word
    → drain c account balance target (ok (pos price)) pending status ≡ ok tx
    → (tx.value ≡ pos (balance - 21000 * price))
      × (tx.gas ≡ 21000)
      × (tx.gas_fee_cap ≡ pos price)
      × (tx.to ≡ some target)
unfolding drain or_nil nonce_or_zero sign new_transaction
drain-all c account balance target price pending status tx le lt h =
    ground (
      arith,
      h,
      remaining-small balance price le lt,
      int64_of_uint64_small (balance - 21000 * price),
    )
