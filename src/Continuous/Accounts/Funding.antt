-- ===== src/Continuous/Accounts/Funding.antt =====
-- continuous/account.go: when an account is funded, and with what.
use shutter_tests.Prelude.{◌≡◌, arith, Option, some, String, Bool-cases, inl, inr}
use shutter_tests.Prelude.Int.{ℤ, pos, ◌+ℤ◌, ◌-ℤ◌, ◌<ℤ◌, leb_ℤ}
use shutter_tests.Prelude.Words.{int64_of_big, uint64_of_big}
use shutter_tests.Prelude.Outcomes.{ok}
use shutter_tests.Chain.{Transaction, Crypto}
use shutter_tests.Utils.Account.{Account, sign, use_nonce}
use shutter_tests.Utils.Repair.{new_transaction}
use shutter_tests.Continuous.Accounts.{FundCalls, fund_missing, fund_new_account, half_of}

-- The transaction that was sent, for a balance.
pub record IsFunding (account submitter submitter' : Account) (amount current : ℤ)
    (tx : Transaction) : Type 0 where
  pub value : tx.value ≡ amount -ℤ current
  pub to : tx.to ≡ some account.address
  pub nonce : tx.nonce ≡ uint64_of_big submitter.nonce
  pub bumped : submitter' ≡ record submitter { nonce = submitter.nonce +ℤ pos 1 }
  pub misses_half : half_of amount <ℤ int64_of_big (amount -ℤ current)

-- If funding an account sends a transaction, it brings the account to the target, uses one nonce of
-- the submitting account, and was sent because the account missed more than half of the target.
pub fund_new_account-IsFunding :
    (c : Crypto) (calls : FundCalls) (account submitter submitter' : Account) (amount current : ℤ)
    (error : Option String) (tx : Transaction)
    → calls.balance ≡ ok current
    → fund_new_account c calls account amount submitter ≡ ok (error, some tx, submitter')
    → IsFunding account submitter submitter' amount current tx
unfolding fund_new_account fund_missing use_nonce sign new_transaction
fund_new_account-IsFunding c calls account submitter submitter' amount current error tx b h =
    elim (Bool-cases (leb_ℤ (int64_of_big (amount -ℤ current)) (half_of amount))) [
      | inl t ↦ absurd (ground (arith, b, h, t))
      | inr f ↦ ground (arith, b, h, f)
    ]
