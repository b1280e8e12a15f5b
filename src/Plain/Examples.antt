-- ===== src/Plain/Examples.antt =====
-- The plain tests and the repair of nonces on small inputs.
use shutter_tests.Prelude.{
  arith, ℕ, ◌+◌, ◌≡◌, ◌↔◌, some, refl, List, [], ◌∷◌, All, String, true, false, Option, none,
}
use shutter_tests.Prelude.Int.{pos}
use shutter_tests.Prelude.Outcomes.{Outcome, ok, err, panic}
use shutter_tests.Chain.{Transaction, Crypto}
use shutter_tests.Utils.Account.{Account}
use shutter_tests.Utils.Repair.{FixRound, FixWait, fix_nonce}
use shutter_tests.Plain.Config.{zero_config}
use shutter_tests.Plain.Requests.{Client, receipt, second_passed}
use shutter_tests.Plain.SendWait.{Answers, send_and_check_transaction}
use shutter_tests.Plain.SendWait.Outcomes.{IsConfirmed, IsLost}
use shutter_tests.Plain.SendWait.Rounds.{send_and_check_transaction-outcomes}
use shutter_tests.Plain.Modes.{Job, send_wait, job_of, jobs_of, main}
use shutter_tests.Plain.Modes.Shadowing.{IsUseless, main-IsUseless}

abbrev started : List Job
started = send_wait zero_config ∷ []

main-IsUseless_example : All (IsUseless [] (pos 5) ((pos 6, ok true) ∷ [])) started
unfolding main jobs_of job_of
main-IsUseless_example =
    main-IsUseless (err "no .env file") ("send-wait" ∷ []) started [] (pos 5) (pos 6) (ok true) []
      (omega arith) refl

abbrev node : Client
node = record {
  dial = λ url. ok tt;
  hex_to_ecdsa = λ key. ok 1;
  address_of_key = λ key. key + 100;
  pending_nonce_at = λ address. ok 8;
  suggest_gas_price = ok (pos 2);
  network_id = ok (pos 100);
  sign = λ chain_id key tx. ok 5;
  marshal_json = λ tx signature. ok "";
  send_transaction = λ tx signature. ok tt;
}

abbrev answers : Answers
answers = record {
  sending = node;
  waiting = node;
  hash = λ signed. signed.signature;
  lookups = λ hash. second_passed ∷ receipt 1 ∷ [];
  canceling = node;
  checking = node;
}

send_and_check_transaction-outcomes_example :
    ((send_and_check_transaction answers zero_config ≡ some (ok true))
      ↔ IsConfirmed answers zero_config)
    × ((send_and_check_transaction answers zero_config ≡ some (ok false))
        ↔ IsLost answers zero_config)
send_and_check_transaction-outcomes_example =
    send_and_check_transaction-outcomes answers zero_config

abbrev plain : Crypto
plain = record {
  address_of_key = λ key. key + 100;
  sign = λ key tx. ok key;
  hash = λ tx. tx.nonce;
  cost = λ tx. tx.value;
  marshal_binary = λ tx. ok [];
  compute_epoch_id = λ bytes. 0;
  encrypt = λ message key identity sigma. message;
  address_bytes = λ a. a ∷ [];
}

abbrev tester : Account
tester = record { address = 101; private_key = 1; nonce = pos 4 }

abbrev steady : ℕ → FixRound
steady i = record { head_nonce = ok 4; gas_price = ok (pos 2) }

abbrev waits : ℕ → FixWait
waits i = record { error = none; head_nonce = ok 6 }

abbrev transactions_of : Outcome (List Transaction × Option String) → List Transaction
transactions_of (ok (txs, e)) = txs
transactions_of (err e) = []
transactions_of (panic p) = []

abbrev fixed : List Transaction
fixed = transactions_of (fix_nonce plain tester (ok 4) (ok 6) steady waits)
