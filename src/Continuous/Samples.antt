-- ===== src/Continuous/Samples.antt =====
-- continuous/tx.go: a node that answers, two accounts, and the state after one call of SendShutterizedTX.
use shutter_tests.Prelude.{◌+◌, [], ◌∷◌, length}
use shutter_tests.Prelude.Int.{ℤ, pos}
use shutter_tests.Prelude.Outcomes.{Outcome, ok, err, panic}
use shutter_tests.Chain.{Crypto}
use shutter_tests.Utils.Account.{Account}
use shutter_tests.Utils.Gas.{GasCalculation}
use shutter_tests.Continuous.System.{System, blank, initial}
use shutter_tests.Continuous.Send.{Sender, SendCalls, send_shutterized_tx}

abbrev pub plain : Crypto
plain = record {
  address_of_key = λ key. key + 100;
  sign = λ key tx. ok key;
  hash = λ tx. tx.nonce;
  cost = λ tx. tx.value;
  marshal_binary = λ tx. ok (tx.nonce ∷ []);
  compute_epoch_id = λ bytes. length bytes;
  encrypt = λ message key identity sigma. message;
  address_bytes = λ a. a ∷ [];
}

abbrev pub fees : ℤ → ℤ → GasCalculation
fees tip price = record { fee = price; tip = tip }

abbrev pub answering : SendCalls
answering = record {
  suggest_tip = ok (pos 1);
  suggest_price = ok (pos 2);
  gas_price_fn = fees;
  random_sigma = ok 77;
  eon_calls = record {
    block_number = ok 40;
    keyper_set_index_by_block = λ block. ok 3;
    eon_key_bytes = λ eon. ok (9 ∷ []);
    unmarshal = λ bytes. ok 9;
  };
  submit_suggest_tip = ok (pos 1);
  submit_suggest_price = ok (pos 2);
  submit_gas_price_fn = fees;
  submit_encrypted = λ options eon prefix encrypted gas. ok blank;
}

abbrev pub tester : Account
tester = record { address = 101; private_key = 1; nonce = pos 4 }

abbrev pub submitter : Account
submitter = record { address = 102; private_key = 2; nonce = pos 8 }

abbrev pub two_accounts : Sender
two_accounts = record {
  accounts = tester ∷ submitter ∷ [];
  submit_account = submitter;
  chain_id = pos 100;
}

abbrev pub state_of : {A B : Type 0} → A × B → Outcome (A × B) → A × B
state_of other (ok r) = r
state_of other (err e) = other
state_of other (panic p) = other

abbrev pub sent_state : Sender × System
sent_state =
    state_of (two_accounts, initial)
      (send_shutterized_tx plain answering (pos 5) (pos 0) two_accounts initial)
