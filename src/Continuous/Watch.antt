-- ===== src/Continuous/Watch.antt =====
-- continuous/tx.go: WatchTx, the goroutine that follows one transaction. It blocks in three places:
-- for the receipt of the submission, for the receipt of the inclusion, and in forfeitNonce. Between
-- those the main loop runs, so each part between two of them is a function of its own.
pub mod Paths
use Prim.Native.String.{len}
use shutter_tests.Prelude.{ℕ, String, Bool, Option, none, some, if◌then◌else◌, nat_beq, ltb}
use shutter_tests.Prelude.Int.{ℤ, pos}
use shutter_tests.Prelude.Outcomes.{Outcome, ok, panic, nil_dereference, index_out_of_range, ◌>>=◌}
use shutter_tests.Prelude.Words.{int64_of_uint64}
use shutter_tests.Chain.{Receipt}
use shutter_tests.Utils.Wait.{Waited}
use shutter_tests.Continuous.Tx.{
  TxStatus, signed, sequenced, included, not_sequenced, not_included, system_failure, Ctx, alive,
  canceled, deadline_exceeded, cancel, ShutterTx,
}

-- Where the goroutine blocks, or that it has returned. A nonce is forfeited after the submission
-- failed, or with the status that is set when the call comes back.
pub data Phase : Type 0 where
  waiting_submission waiting_inclusion forfeiting_failed returned : Phase
  forfeiting : TxStatus → Phase

-- `defer tx.cancel()`.
unfoldable pub finish : ShutterTx → ShutterTx × Phase
unfolding cancel
finish tx = (record tx { ctx = cancel tx.ctx }, returned)

-- After the first wait, if the context is not done. The error only sets a status that the test of the
-- receipt's status replaces, and that test reads a field of the receipt.
unfoldable pub read_submission : Option Receipt → ShutterTx → Outcome (ShutterTx × Phase)
read_submission none tx = panic nil_dereference
read_submission (some r) tx =
    if nat_beq r.status 1
    then ok (
      record tx { tx_status = sequenced; submission_block = int64_of_uint64 r.block_number },
      waiting_inclusion,
    )
    else ok (record tx { tx_status = system_failure }, forfeiting_failed)

submission_by_ctx : Ctx → Waited → ShutterTx → Outcome (ShutterTx × Phase)
unfolding read_submission finish
submission_by_ctx canceled w tx = ok (finish (record tx { tx_status = not_sequenced }))
submission_by_ctx deadline_exceeded w tx = ok (finish (record tx { tx_status = system_failure }))
submission_by_ctx alive w tx = read_submission w.receipt tx

unfoldable pub after_submission : Waited → ShutterTx → Outcome (ShutterTx × Phase)
unfolding submission_by_ctx
after_submission w tx = submission_by_ctx tx.ctx w tx

set_failed : Option String → ShutterTx → ShutterTx
set_failed none tx = tx
set_failed (some _) tx = record tx { tx_status = system_failure }

set_included : Option Receipt → ShutterTx → ShutterTx
set_included none tx = tx
set_included (some r) tx = record tx {
  tx_status = included;
  inclusion_block = int64_of_uint64 r.block_number;
}

inclusion_by_ctx : Ctx → Waited → ShutterTx → ShutterTx × Phase
unfolding set_failed set_included finish
inclusion_by_ctx canceled w tx = (tx, forfeiting not_included)
inclusion_by_ctx deadline_exceeded w tx = (tx, forfeiting system_failure)
inclusion_by_ctx alive w tx = finish (set_included w.receipt (set_failed w.error tx))

unfoldable pub after_inclusion : Waited → ShutterTx → ShutterTx × Phase
unfolding inclusion_by_ctx
after_inclusion w tx = inclusion_by_ctx tx.ctx w tx

-- `err.Error()[0:8]` cuts the message, which panics on a shorter one.
unfoldable pub check_message : Option String → Outcome (Unit {0})
check_message none = ok tt
check_message (some e) = if ltb (len e) 8 then panic index_out_of_range else ok tt

-- When forfeitNonce comes back, with an error or with none.
unfoldable pub after_forfeit : Phase → Option String → ShutterTx → Outcome (ShutterTx × Phase)
unfolding check_message finish
after_forfeit forfeiting_failed e tx = ok (finish tx)
after_forfeit (forfeiting s) e tx =
    check_message e >>= λ _. ok (finish (record tx { tx_status = s }))
after_forfeit waiting_submission e tx = ok (tx, waiting_submission)
after_forfeit waiting_inclusion e tx = ok (tx, waiting_inclusion)
after_forfeit returned e tx = ok (tx, returned)
