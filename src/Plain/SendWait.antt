-- ===== src/Plain/SendWait.antt =====
-- tests/sendwaittx.go: sending a transaction, waiting for it, and canceling it if it does not succeed.
pub mod Outcomes
pub mod Rounds
use shutter_tests.Prelude.{
  ℕ, suc, ◌+◌, String, Bool, true, false, List, [], ◌∷◌, Option, none, some, nat_beq, if◌then◌else◌,
}
use shutter_tests.Prelude.Int.{ℤ, ◌+ℤ◌, ltb_ℤ}
use shutter_tests.Prelude.Words.{uint64_add}
use shutter_tests.Prelude.Outcomes.{Outcome, ok, err, panic, fatal, ◌>>=◌}
use shutter_tests.Plain.Config.{Config}
use shutter_tests.Plain.Requests.{
  Client, SignedTx, Lookup, send_legacy_tx, cancel_tx, wait_for_receipt,
}

-- `log.Fatalf` on an error.
unfoldable pub or_fatal {ℓ} : {A : Type ℓ} → Outcome A → String → Outcome A
or_fatal (ok a) message = ok a
or_fatal (err e) message = panic (fatal message)
or_fatal (panic p) message = panic p

-- The answers of the node: while sending, while waiting, while canceling, and after that. The rounds of
-- a wait are those for the hash that it asks for.
pub record Answers : Type 0 where
  pub sending : Client
  pub waiting : Client
  pub hash : SignedTx → ℕ
  pub lookups : ℕ → List Lookup
  pub canceling : Client
  pub checking : Client

unfoldable pub confirmed : Bool → Outcome Bool
confirmed true = ok false
confirmed false = panic (fatal "Failed to send cancel transaction for a non confirmed transaction")

-- The nonce was used in the meantime, or the process ends.
unfoldable pub check_confirmed : Client → Config → ℕ → Outcome Bool
unfolding or_fatal uint64_add confirmed
check_confirmed c cfg nonce = do
  _ ← or_fatal (c.dial cfg.node_url) "Failed to connect to the Ethereum client"
  private_key ← or_fatal (c.hex_to_ecdsa cfg.private_key) "Failed to load private key"
  pending_nonce ←
      or_fatal (c.pending_nonce_at (c.address_of_key private_key)) "Failed to get pending nonce"
  confirmed (nat_beq pending_nonce (uint64_add nonce 1))

unfoldable pub after_cancel : Client → Config → ℕ → Outcome SignedTx → Outcome Bool
unfolding check_confirmed
after_cancel c cfg nonce (ok _) = ok false
after_cancel c cfg nonce (err e) = check_confirmed c cfg nonce
after_cancel c cfg nonce (panic p) = panic p

-- What follows the wait for the receipt of a transaction with that nonce.
unfoldable pub after_receipt : Answers → Config → ℕ → Outcome Bool → Outcome Bool
unfolding after_cancel
after_receipt a cfg nonce (ok true) = ok true
after_receipt a cfg nonce (ok false) =
    after_cancel a.checking cfg nonce (cancel_tx a.canceling cfg.node_url cfg.private_key nonce)
after_receipt a cfg nonce (err e) = panic (fatal "Wait receipt failed")
after_receipt a cfg nonce (panic p) = panic p

unfoldable pub after_wait : Answers → Config → ℕ → Option (Outcome Bool) → Option (Outcome Bool)
after_wait a cfg nonce none = none
after_wait a cfg nonce (some r) = some (after_receipt a cfg nonce r)

unfoldable pub after_send : Answers → Config → Outcome SignedTx → Option (Outcome Bool)
unfolding after_wait
after_send a cfg (ok signed) =
    after_wait a cfg signed.tx.nonce
      (wait_for_receipt (a.waiting.dial cfg.node_url) (a.lookups (a.hash signed)))
after_send a cfg (err e) = some (panic (fatal "Failed to send transaction"))
after_send a cfg (panic p) = some (panic p)

-- `none`: still waiting after the rounds that are given.
unfoldable pub send_and_check_transaction : Answers → Config → Option (Outcome Bool)
unfolding after_send
send_and_check_transaction a cfg =
    after_send a cfg (send_legacy_tx a.sending cfg.node_url cfg.private_key)

pub record Tally : Type 0 where
  pub success_count : ℕ
  pub fail_count : ℕ

unfoldable pub tally_one : Bool → Tally → Tally
tally_one true t = record t { success_count = suc t.success_count }
tally_one false t = record t { fail_count = suc t.fail_count }

-- The loop of RunSendAndWaitTest: what the clock reads before a round, and how the round ends if it is
-- started. `ok` also where the readings that are given are used up.
unfoldable pub send_and_wait_rounds : ℤ → List (ℤ × Outcome Bool) → Tally → Outcome Tally
unfolding tally_one
send_and_wait_rounds end_time [] t = ok t
send_and_wait_rounds end_time ((now, round) ∷ rounds) t = elim (ltb_ℤ now end_time) [
  | true ↦ do success ← round; send_and_wait_rounds end_time rounds (tally_one success t)
  | false ↦ ok t
]

-- `start` is the first reading of the clock, in nanoseconds.
unfoldable pub run_send_and_wait_test : Config → ℤ → List (ℤ × Outcome Bool) → Outcome Tally
unfolding send_and_wait_rounds
run_send_and_wait_test cfg start rounds =
    send_and_wait_rounds (start +ℤ cfg.test_duration) rounds
      (record { success_count = 0; fail_count = 0 })
