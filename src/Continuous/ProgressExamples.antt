-- ===== src/Continuous/ProgressExamples.antt =====
-- continuous/tx.go: a transaction that is sent, submitted and given up.
use mathlib.Core.List.{Mem}
use shutter_tests.Prelude.{◌+◌, ◌≤◌, ◌<◌, ◌≡◌, ◌≢◌, refl, arith, [], none, some}
use shutter_tests.Prelude.Int.{pos}
use shutter_tests.Prelude.Words.{int64_of_uint64}
use shutter_tests.Prelude.Outcomes.{ok, ◌>>=◌}
use shutter_tests.Utils.Wait.{Waited}
use shutter_tests.Continuous.Tx.{ShutterTx, sequenced}
use shutter_tests.Continuous.Watch.{
  Phase, waiting_inclusion, returned, after_submission, check_message,
}
use shutter_tests.Continuous.System.{
  System, sends, submitted, blank, initial, launch, put, Reach, here, next,
}
use shutter_tests.Continuous.System.Progress.{
  rank, wakes, go_on, overdue, IsGivenUp, Reach-wakes, Reach-IsGivenUp,
}

abbrev sent_one : System
sent_one = launch 2 blank blank [] (pos 5) (pos 0) initial

abbrev mined : Waited
mined = record {
  receipt = some (record { status = 1; block_number = 6; gas_used = 21000 });
  error = none;
}

abbrev submitted_one : System
submitted_one =
    put 0
      (
        record (sent_one.store 0) { tx_status = sequenced; submission_block = pos 6 },
        waiting_inclusion,
      )
      sent_one

Reach-submitted_one : Reach 2 submitted_one
unfolding launch put after_submission initial int64_of_uint64
Reach-submitted_one =
    next (next here (sends blank blank [] (pos 5) (pos 0)))
      (submitted 0 mined _ (omega arith) refl refl)

one_in_flight : (0 < submitted_one.sent) × (submitted_one.phase 0 ≢ returned)
unfolding launch put initial
one_in_flight = (omega arith, cc)

Reach-wakes_example : wakes 0 Reach-submitted_one + rank (submitted_one.phase 0) ≤ 3
Reach-wakes_example = Reach-wakes Reach-submitted_one 0 one_in_flight.0

no_message : check_message none ≡ ok tt
unfolding check_message
no_message = refl

Reach-IsGivenUp_example :
    (r : ShutterTx × Phase) × ((go_on mined none
          (overdue (submitted_one.store 0), submitted_one.phase 0)
        >>= go_on mined none)
      ≡ ok r)
    × IsGivenUp r (Mem 0 submitted_one.status.tx_done)
Reach-IsGivenUp_example =
    Reach-IsGivenUp Reach-submitted_one 0 mined none one_in_flight.0 one_in_flight.1 no_message
