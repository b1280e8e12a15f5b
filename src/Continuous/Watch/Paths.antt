-- ===== src/Continuous/Watch/Paths.antt =====
-- continuous/tx.go: when the goroutine of a transaction goes on, ends or panics.
use Prim.Native.String.{len}
use shutter_tests.Prelude.{
  String, List, Option, none, some, ◌≡◌, refl, ◌≢◌, ◌↔◌, inl, inr, ◌<◌, arith, Option-cases,
}
use shutter_tests.Prelude.Outcomes.{Panic, ok, panic, nil_dereference, index_out_of_range}
use shutter_tests.Prelude.Words.{int64_of_uint64}
use shutter_tests.Chain.{Receipt, Transaction, Crypto}
use shutter_tests.Utils.Wait.{Waited, WaitEvent, wait_for_tx_subscribe}
use shutter_tests.Continuous.Tx.{TxStatus, sequenced, included, alive, ShutterTx}
use shutter_tests.Continuous.Watch.{
  Phase, waiting_submission, waiting_inclusion, forfeiting_failed, forfeiting, returned,
  after_submission, after_inclusion, after_forfeit,
}

-- After the first wait the goroutine panics exactly when the context is still alive and no receipt
-- came back, and then it is the read of the nil receipt that panics.
pub after_submission_panics :
    (w : Waited) (tx : ShutterTx) (p : Panic)
    → (after_submission w tx ≡ panic p)
      ↔ ((tx.ctx ≡ alive) × (w.receipt ≡ none) × (p ≡ nil_dereference))
unfolding after_submission
after_submission_panics w tx p = (λ h. ground arith, λ h. ground arith)

-- So it panics whenever the node refuses the subscription to new heads.
pub after_submission_no_subscription :
    (c : Crypto) (sent : Transaction) (e : String) (es : List WaitEvent) (w : Waited)
    (tx : ShutterTx)
    → wait_for_tx_subscribe c sent (some e) es ≡ some w
    → tx.ctx ≡ alive
    → after_submission w tx ≡ panic nil_dereference
unfolding wait_for_tx_subscribe
after_submission_no_subscription c sent e es w tx h a =
    (after_submission_panics w tx nil_dereference).1 (a, ground arith, refl)

-- The goroutine goes on to wait for the inclusion exactly when the context is alive and the submission
-- was mined with status 1. It then has set the status and the submission block, and nothing else.
pub after_submission_proceeds :
    (w : Waited) (tx tx' : ShutterTx)
    → (after_submission w tx ≡ ok (tx', waiting_inclusion)) ↔ (
        (tx.ctx ≡ alive)
        × ((r : Receipt) × (w.receipt ≡ some r)
            × (r.status ≡ 1)
            × (tx' ≡ record tx {
              tx_status = sequenced;
              submission_block = int64_of_uint64 r.block_number;
            })))
unfolding after_submission
after_submission_proceeds w tx tx' = (
  λ h. elim (Option-cases w.receipt) [
    | inl e ↦ absurd (ground arith)
    | inr (r, e) ↦ (ground arith, (r, e, ground arith, ground arith))
  ],
  λ (a, (r, e, o, t)). ground arith,
)

-- A sequenced transaction is found to be included exactly when the context is still alive and a
-- receipt came back. The receipt's own status is not looked at.
pub after_inclusion-included :
    (w : Waited) (tx : ShutterTx)
    → tx.tx_status ≡ sequenced
    → ((after_inclusion w tx).0.tx_status ≡ included) ↔ ((tx.ctx ≡ alive) × (w.receipt ≢ none))
unfolding after_inclusion
after_inclusion-included w tx s = (λ h. ground arith, λ h. ground arith)

-- Once forfeitNonce has returned, WatchTx panics exactly when the nonce was that of a transaction that
-- was not included and the error that was returned has a message shorter than eight bytes, and then it
-- is the slice of the message that panics. After a failed submission the error is not sliced.
pub after_forfeit_panics :
    (phase : Phase) (e : Option String) (tx : ShutterTx) (p : Panic)
    → (after_forfeit phase e tx ≡ panic p) ↔ (
        ((x : TxStatus) × (phase ≡ forfeiting x))
        × (((m : String) × (e ≡ some m) × (len m < 8)) × (p ≡ index_out_of_range)))
unfolding after_forfeit
after_forfeit_panics waiting_submission e tx p = (λ h. cc, λ h. cc h.0.1)
after_forfeit_panics waiting_inclusion e tx p = (λ h. cc, λ h. cc h.0.1)
after_forfeit_panics returned e tx p = (λ h. cc, λ h. cc h.0.1)
after_forfeit_panics forfeiting_failed e tx p = (λ h. cc, λ h. cc h.0.1)
after_forfeit_panics (forfeiting x) none tx p = (λ h. cc, λ h. cc h.1.0.1)
after_forfeit_panics (forfeiting x) (some m) tx p = (
  λ h. ((x, refl), ((m, refl, ground arith), ground arith)),
  λ h. ground (arith, h.1.0.1, h.1.0.2, h.1.1),
)
