-- ===== src/Stress/Housekeeping.antt =====
-- stress/stress_test.go: TestEmptyAccounts, which drains the accounts of the file, and TestFixNonce.
use shutter_tests.Prelude.{ℕ, suc, List, [], ◌∷◌, Option, none, some, ltb, if◌then◌else◌}
use shutter_tests.Prelude.Int.{ℤ}
use shutter_tests.Prelude.Words.{uint64_of_big}
use shutter_tests.Prelude.Outcomes.{Outcome, ok, ◌>>=◌}
use shutter_tests.Chain.{Transaction, Crypto}
use shutter_tests.Utils.Account.{account_from_private_key}
use shutter_tests.Utils.Repair.{or_nil, drain}

-- What is answered while one account is emptied.
pub record EmptyCalls : Type 0 where
  pub balance : Outcome ℤ
  pub gas_price : Outcome ℤ
  pub pending_nonce : Outcome ℕ
  pub receipt_status : Outcome ℕ

-- One round of the loop, with the transaction that it sends. The balance is read also where it comes
-- with an error, and is nil.
unfoldable pub empty_one : Crypto → ℕ → EmptyCalls → ℕ → Outcome (Option Transaction)
unfolding or_nil
empty_one c target calls pk = or_nil calls.balance >>= λ balance.
    if ltb 0 (uint64_of_big balance)
    then (drain c (account_from_private_key c pk) (uint64_of_big balance) target calls.gas_price
          calls.pending_nonce calls.receipt_status
        >>= λ tx. ok (some tx))
    else ok none

unfoldable pub empty_all :
    Crypto → ℕ → (ℕ → EmptyCalls) → ℕ → List ℕ → Outcome (List (Option Transaction))
unfolding empty_one
empty_all c target calls i [] = ok []
empty_all c target calls i (pk ∷ pks) = do
  sent ← empty_one c target (calls i) pk
  rest ← empty_all c target calls (suc i) pks
  ok (sent ∷ rest)
