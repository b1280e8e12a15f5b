-- ===== src/Continuous/Forfeit.antt =====
-- continuous/tx.go: forfeitNonce, which sends a transaction with a nonce that was given up.
pub mod Replaces
use shutter_tests.Prelude.{ℕ, String, List, [], Option, none, some, if◌then◌else◌, nat_beq}
use shutter_tests.Prelude.Int.{ℤ, pos}
use shutter_tests.Prelude.Outcomes.{Outcome, ok, err, panic, nil_dereference, ◌>>=◌}
use shutter_tests.Chain.{Transaction, Receipt, Crypto}
use shutter_tests.Utils.Account.{Account, sign}
use shutter_tests.Utils.Gas.{GasPriceFn, gas_calculation_from_client}
use shutter_tests.Utils.Wait.{Waited, WaitEvent, wait_for_tx_subscribe}

-- What the node answers, in the order of the calls; the events of the wait come after the subscription.
pub record ForfeitCalls : Type 0 where
  pub chain_id : Outcome ℤ
  pub suggest_tip : Outcome ℤ
  pub suggest_price : Outcome ℤ
  pub gas_price_fn : GasPriceFn
  pub send_transaction : Transaction → Option String
  pub subscription : Option String
  pub events : List WaitEvent

-- The end of the call, behind the wait: a receipt is read where there is no error.
unfoldable pub forfeited : Waited → Outcome (Option String)
forfeited w = elim w.error [
  | some e ↦ ok (some e)
  | none ↦ elim w.receipt [
    | none ↦ panic nil_dereference
    | some r ↦ ok (if nat_beq r.status 1 then none else some "forfeit tx not accepted")
  ]
]

-- The wait is without a deadline: `none` where it does not end with the given events.
unfoldable pub after_wait : Option Waited → Option (Outcome (Option String))
unfolding forfeited
after_wait none = none
after_wait (some w) = some (forfeited w)

-- An error that a call answers is returned.
unfoldable pub try_answer {ℓ} :
    {A : Type ℓ}
    → Outcome A
    → (A → Option (Outcome (Option String)))
    → Option (Outcome (Option String))
try_answer (ok a) f = f a
try_answer (err e) f = some (ok (some e))
try_answer (panic p) f = some (panic p)

unfoldable pub forfeit_transaction : ℤ → ℕ → ℤ → ℤ → ℕ → Transaction
forfeit_transaction chain_id nonce fee tip to = record {
  chain_id = chain_id;
  nonce = nonce;
  gas_fee_cap = fee;
  gas_tip_cap = tip;
  gas = 21000;
  to = some to;
  value = pos 1;
  payload = [];
  signature = none;
}

-- The error that is returned, or nil; the account is a copy, and its stored nonce is not used.
unfoldable pub forfeit_nonce :
    Crypto → ForfeitCalls → ℕ → Account → Option (Outcome (Option String))
unfolding try_answer after_wait
forfeit_nonce c calls nonce account = try_answer calls.chain_id (λ chain_id.
    try_answer
      (gas_calculation_from_client calls.suggest_tip calls.suggest_price calls.gas_price_fn)
      (λ gas.
        try_answer
          (sign c account account.address
            (forfeit_transaction chain_id nonce gas.fee gas.tip account.address))
          (λ signed. elim (calls.send_transaction signed) [
            | some e ↦ some (ok (some e))
            | none ↦ after_wait (wait_for_tx_subscribe c signed calls.subscription calls.events)
          ])))
