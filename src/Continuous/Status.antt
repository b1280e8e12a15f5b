-- ===== src/Continuous/Status.antt =====
-- continuous/continuous.go: the transactions in flight and the done ones. A transaction is shared
-- by pointer with its goroutine, so the lists hold pointers, numbers, into a store.
pub mod Leaving
pub mod Select
pub mod Check
pub mod Highest
use shutter_tests.Prelude.{
  ℕ, Bool, true, false, List, [], ◌∷◌, ◌++◌, if◌then◌else◌, nat_beq, length, ◌+◌,
}
use shutter_tests.Prelude.Int.{ℤ, pos, ltb_ℤ}
use shutter_tests.Continuous.Tx.{
  TxStatus, signed, sequenced, included, not_sequenced, not_included, system_failure, cancel,
  ShutterTx,
}

-- `next_shutter_slot` and `last_shutter_ts` belong to the query loop, which has a Status of its own.
pub record Status : Type 0 where
  pub last_shutter_ts : ℤ
  pub tx_in_flight : List ℕ
  pub tx_done : List ℕ
  pub next_shutter_slot : ℤ

unfoldable pub tx_count : Status → ℕ
tx_count s = length s.tx_in_flight + length s.tx_done

unfoldable pub add_tx_in_flight : ℕ → Status → Status
add_tx_in_flight p s = record s { tx_in_flight = s.tx_in_flight ++ p ∷ [] }

abbrev pub Store : Type 0
Store = ℕ → ShutterTx

abbrev pub update {ℓ} : {A : Type ℓ} → (ℕ → A) → ℕ → A → ℕ → A
update f p v q = if nat_beq p q then v else f q

-- The first loop.
unfoldable pub highest_inclusion : Store → ℤ → List ℕ → ℤ
highest_inclusion store h [] = h
highest_inclusion store h (p ∷ ps) =
    highest_inclusion store
      (if ltb_ℤ h (store p).inclusion_block then (store p).inclusion_block else h) ps

-- The switch on the status, with the transaction as it is left and whether it is done.
check_by_status : TxStatus → ℤ → ℤ → ShutterTx → ShutterTx × Bool
check_by_status sequenced highest block tx =
    if ltb_ℤ tx.submission_block highest
    then (record tx { ctx = cancel tx.ctx; cancel_block = block }, true)
    else (tx, false)
check_by_status included highest block tx = (tx, true)
check_by_status system_failure highest block tx = (tx, true)
check_by_status signed highest block tx = (tx, false)
check_by_status not_sequenced highest block tx = (tx, false)
check_by_status not_included highest block tx = (tx, false)

unfoldable pub check_one : ℤ → ℤ → ShutterTx → ShutterTx × Bool
unfolding check_by_status cancel
check_one highest block tx = check_by_status tx.tx_status highest block tx

-- The second loop, with the lists that it appends to.
unfoldable pub check_all : ℤ → ℤ → Store → List ℕ → List ℕ → List ℕ → Store × List ℕ × List ℕ
check_all highest block store [] in_flight done = (store, in_flight, done)
check_all highest block store (p ∷ ps) in_flight done =
    let (tx, leaves) = check_one highest block (store p) in
    check_all highest block (update store p tx) ps
      (if leaves then in_flight else in_flight ++ p ∷ []) (if leaves then done ++ p ∷ [] else done)

unfoldable pub check_tx_in_flight : ℤ → Store → Status → Store × Status
check_tx_in_flight block store s =
    let highest = highest_inclusion store (pos 0) s.tx_in_flight in
    let (store', in_flight, done) = check_all highest block store s.tx_in_flight [] s.tx_done in
    (store', record s { tx_in_flight = in_flight; tx_done = done })
