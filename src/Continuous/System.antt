-- ===== src/Continuous/System.antt =====
-- continuous/: the main loop and the goroutines of the transactions, one step at a time. A step is
-- what runs between two places where a goroutine blocks. CheckTxInFlight is one step, since only it
-- and the loop itself change the lists.
pub mod Coherence
pub mod Invariant
pub mod Reachable
pub mod Progress
use shutter_tests.Prelude.{
  ℕ, suc, ◌+◌, ◌%◌, ◌<◌, ◌≡◌, List, [], ◌∷◌, Option, String, length, Bool, true, false,
}
use shutter_tests.Prelude.Int.{ℤ, pos}
use shutter_tests.Prelude.Outcomes.{ok}
use shutter_tests.Chain.{Transaction}
use shutter_tests.Utils.Wait.{Waited}
use shutter_tests.Continuous.Tx.{ShutterTx, new_shutter_tx, expire}
use shutter_tests.Continuous.Watch.{
  Phase, waiting_submission, waiting_inclusion, forfeiting_failed, forfeiting, returned,
  after_submission, after_inclusion, after_forfeit,
}
use shutter_tests.Continuous.Status.{
  Status, Store, update, tx_count, add_tx_in_flight, check_tx_in_flight,
}

-- `sent` is the number of transactions made so far: the pointers are the numbers below it.
pub record System : Type 0 where
  pub store : Store
  pub phase : ℕ → Phase
  pub sent : ℕ
  pub status : Status

-- `cfg.accounts[cfg.status.TxCount() % len(cfg.accounts)]`, the index.
unfoldable pub next_account : ℕ → Status → ℕ
next_account accounts s = tx_count s % accounts

-- The end of SendShutterizedTX: the transaction is added and its goroutine is started.
unfoldable pub launch : ℕ → Transaction → Transaction → List ℕ → ℤ → ℤ → System → System
unfolding next_account new_shutter_tx add_tx_in_flight
launch accounts inner outer prefix trigger slot s = record {
  store =
      update s.store s.sent
        (new_shutter_tx inner outer (next_account accounts s.status) prefix trigger slot);
  phase = update s.phase s.sent waiting_submission;
  sent = suc s.sent;
  status = add_tx_in_flight s.sent s.status;
}

-- A goroutine leaves its transaction and its phase changed.
unfoldable pub put : ℕ → ShutterTx × Phase → System → System
put p r s = record s { store = update s.store p r.0; phase = update s.phase p r.1 }

unfoldable pub check : ℤ → System → System
check block s =
    let (store, status) = check_tx_in_flight block s.store s.status in
    record s { store = store; status = status }

unfoldable pub expire_at : ℕ → System → System
unfolding expire put
expire_at p s = put p (record (s.store p) { ctx = expire (s.store p).ctx }, s.phase p) s

-- The goroutine blocks in forfeitNonce.
abbrev pub is_forfeiting : Phase → Bool
is_forfeiting forfeiting_failed = true
is_forfeiting (forfeiting x) = true
is_forfeiting waiting_submission = false
is_forfeiting waiting_inclusion = false
is_forfeiting returned = false

-- What the clients return, and when, is left open: any outcome of a wait may come at any time. A
-- panic ends the process, so there is no step for it.
pub data Step (accounts : ℕ) (s : System) : System → Type 0 where
  sends :
      (inner outer : Transaction) (prefix : List ℕ) (trigger slot : ℤ)
      → Step accounts s (launch accounts inner outer prefix trigger slot s)
  checks : (block : ℤ) → Step accounts s (check block s)
  expires : (p : ℕ) → p < s.sent → Step accounts s (expire_at p s)
  submitted :
      (p : ℕ) (w : Waited) (r : ShutterTx × Phase)
      → p < s.sent
      → s.phase p ≡ waiting_submission
      → after_submission w (s.store p) ≡ ok r
      → Step accounts s (put p r s)
  includes :
      (p : ℕ) (w : Waited)
      → p < s.sent
      → s.phase p ≡ waiting_inclusion
      → Step accounts s (put p (after_inclusion w (s.store p)) s)
  forfeits :
      (p : ℕ) (e : Option String) (r : ShutterTx × Phase)
      → p < s.sent
      → is_forfeiting (s.phase p) ≡ true
      → after_forfeit (s.phase p) e (s.store p) ≡ ok r
      → Step accounts s (put p r s)

abbrev pub blank : Transaction
blank = record {
  chain_id = pos 0;
  nonce = 0;
  gas_fee_cap = pos 0;
  gas_tip_cap = pos 0;
  gas = 0;
  to = Option.none;
  value = pos 0;
  payload = [];
  signature = Option.none;
}

-- No transaction yet. What the store holds at a pointer that was not given out is never read.
unfoldable pub initial : System
unfolding new_shutter_tx
initial = record {
  store = λ p. new_shutter_tx blank blank 0 [] (pos 0) (pos 0);
  phase = λ p. waiting_submission;
  sent = 0;
  status = record {
    last_shutter_ts = pos 0;
    tx_in_flight = [];
    tx_done = [];
    next_shutter_slot = pos 0;
  };
}

pub data Reach (accounts : ℕ) : System → Type 0 where
  here : Reach accounts initial
  next : {s t : System} → Reach accounts s → Step accounts s t → Reach accounts t
