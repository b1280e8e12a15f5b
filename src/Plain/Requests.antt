-- ===== src/Plain/Requests.antt =====
-- requests/: sending a plain transaction, canceling its nonce, and waiting for its receipt.
use shutter_tests.Prelude.{
  ℕ, zero, suc, String, Bool, true, false, List, [], ◌∷◌, Option, none, some,
}
use shutter_tests.Prelude.Int.{ℤ, pos}
use shutter_tests.Prelude.Outcomes.{Outcome, ok, err, panic, or_error, ◌>>=◌}

-- The fields of `types.LegacyTx`.
pub record LegacyTx : Type 0 where
  pub nonce : ℕ
  pub to : ℕ
  pub value : ℤ
  pub gas : ℕ
  pub gas_price : ℤ
  pub payload : List ℕ

-- What the node answers to one call, and the operations on keys: a private key is a number, and so is
-- a signed transaction's signature.
pub record Client : Type 0 where
  pub dial : String → Outcome (Unit {0})
  pub hex_to_ecdsa : String → Outcome ℕ
  pub address_of_key : ℕ → ℕ
  pub pending_nonce_at : ℕ → Outcome ℕ
  pub suggest_gas_price : Outcome ℤ
  pub network_id : Outcome ℤ
  pub sign : ℤ → ℕ → LegacyTx → Outcome ℕ
  pub marshal_json : LegacyTx → ℕ → Outcome String
  pub send_transaction : LegacyTx → ℕ → Outcome (Unit {0})

pub record SignedTx : Type 0 where
  pub tx : LegacyTx
  pub signature : ℕ

-- SendLegacyTx: one wei from the account to itself, with its pending nonce.
unfoldable pub send_legacy_tx : Client → String → String → Outcome SignedTx
send_legacy_tx c url key = do
  _ ← or_error (c.dial url) "failed to connect to the Ethereum client"
  private_key ← or_error (c.hex_to_ecdsa key) "failed to load private key"
  nonce ← or_error (c.pending_nonce_at (c.address_of_key private_key)) "failed to get nonce"
  gas_price ← or_error c.suggest_gas_price "failed to get suggested gas price"
  chain_id ← or_error c.network_id "failed to chain ID"
  let tx : LegacyTx = record {
    nonce = nonce;
    to = c.address_of_key private_key;
    value = pos 1;
    gas = 21000;
    gas_price = gas_price;
    payload = [];
  }
  signature ← or_error (c.sign chain_id private_key tx) "failed to sign transaction"
  _ ← or_error (c.marshal_json tx signature) "failed to marshall transaction"
  _ ← or_error (c.send_transaction tx signature) "failed to send transaction"
  ok (record { tx = tx; signature = signature })

-- CancelTx, with the transaction that it sends in the place of nil.
unfoldable pub cancel_tx : Client → String → String → ℕ → Outcome SignedTx
cancel_tx c url key nonce = do
  _ ← or_error (c.dial url) "failed to connect to the Ethereum client"
  private_key ← or_error (c.hex_to_ecdsa key) "failed to load private key"
  gas_price ← or_error c.suggest_gas_price "failed to get suggested gas price"
  chain_id ← or_error c.network_id "failed to get chain ID"
  let tx : LegacyTx = record {
    nonce = nonce;
    to = 0;
    value = pos 0;
    gas = 21000;
    gas_price = gas_price;
    payload = [];
  }
  signature ← or_error (c.sign chain_id private_key tx) "failed to sign transaction ID"
  _ ← or_error (c.marshal_json tx signature) "failed to marshal signed transaction ID"
  _ ← or_error (c.send_transaction tx signature) "failed to send transaction"
  ok (record { tx = tx; signature = signature })

-- What happens in one round of the wait: the receipt is there, with its status; the lookup fails; or
-- there is none yet, and the context is done or a second passes.
pub data Lookup : Type 0 where
  receipt : ℕ → Lookup
  failed : String → Lookup
  timed_out second_passed : Lookup

-- WaitForReceipt, on the rounds that are given; `none`: it goes on after them.
unfoldable pub poll_receipt : List Lookup → Option (Outcome Bool)
poll_receipt [] = none
poll_receipt (receipt zero ∷ rounds) = some (ok false)
poll_receipt (receipt (suc n) ∷ rounds) = some (ok true)
poll_receipt (failed e ∷ rounds) = some (err "receipt retrieval failed")
poll_receipt (timed_out ∷ rounds) = some (ok false)
poll_receipt (second_passed ∷ rounds) = poll_receipt rounds

unfoldable pub wait_for_receipt : Outcome (Unit {0}) → List Lookup → Option (Outcome Bool)
unfolding poll_receipt
wait_for_receipt (ok _) rounds = poll_receipt rounds
wait_for_receipt (err e) rounds = some (err "failed to connect to client")
wait_for_receipt (panic p) rounds = some (panic p)
