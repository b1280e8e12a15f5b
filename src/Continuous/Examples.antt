-- ===== src/Continuous/Examples.antt =====
-- continuous/: runs of the main loop and its parts on small inputs.
use Prim.Native.String.{len}
use mathlib.Core.List.{mem-cons_self, Mem, Perm, filter}
use shutter_tests.Prelude.{ℕ, ◌<◌, ◌≡◌, ◌≢◌, refl, ◌++◌, ◌⊎◌, ◌↔◌, arith, [], none, some, String}
use shutter_tests.Prelude.Int.{pos}
use shutter_tests.Prelude.Words.{int64_of_uint64}
use shutter_tests.Prelude.Outcomes.{panic, nil_dereference, index_out_of_range}
use shutter_tests.Chain.{Receipt}
use shutter_tests.Utils.Wait.{Waited}
use shutter_tests.Continuous.Tx.{
  TxStatus, signed, sequenced, not_sequenced, not_included, alive, cancel,
}
use shutter_tests.Continuous.Watch.{
  waiting_inclusion, forfeiting, returned, after_submission, after_inclusion, after_forfeit,
}
use shutter_tests.Continuous.Watch.Paths.{after_submission_panics, after_forfeit_panics}
use shutter_tests.Continuous.Status.{
  highest_inclusion, check_all, check_one, check_tx_in_flight, tx_count,
}
use shutter_tests.Continuous.Status.Leaving.{IsOvertaken, dec_stays, dec_leaves}
use shutter_tests.Continuous.Status.Check.{check_tx_in_flight-lists, check_tx_in_flight-store}
use shutter_tests.Continuous.System.{
  System, sends, checks, submitted, includes, forfeits, blank, initial, launch, put, check, Reach,
  here, next,
}
use shutter_tests.Continuous.System.Invariant.{pointers}
use shutter_tests.Continuous.System.Reachable.{
  Reach-partition, check-in_flight, Reach-ne-not_sequenced,
}

-- Two transactions are sent. The second is included at a block after the submission of the first,
-- which is then given up.
abbrev receipt_at : ℕ → Receipt
receipt_at block = record { status = 1; block_number = block; gas_used = 21000 }

abbrev waited_for : ℕ → Waited
waited_for block = record { receipt = some (receipt_at block); error = none }

abbrev canceled_wait : Waited
canceled_wait = record { receipt = none; error = some "context canceled" }

abbrev one_sent : System
one_sent = launch 2 blank blank [] (pos 5) (pos 0) initial

abbrev two_sent : System
two_sent = launch 2 blank blank [] (pos 7) (pos 0) one_sent

abbrev first_sequenced : System
first_sequenced =
    put 0
      (
        record (two_sent.store 0) { tx_status = sequenced; submission_block = pos 6 },
        waiting_inclusion,
      )
      two_sent

abbrev both_sequenced : System
both_sequenced =
    put 1
      (
        record (first_sequenced.store 1) { tx_status = sequenced; submission_block = pos 8 },
        waiting_inclusion,
      )
      first_sequenced

abbrev second_included : System
second_included = put 1 (after_inclusion (waited_for 9) (both_sequenced.store 1)) both_sequenced

abbrev first_checked : System
first_checked = check (pos 10) second_included

abbrev first_canceled : System
first_canceled = put 0 (after_inclusion canceled_wait (first_checked.store 0)) first_checked

abbrev first_given_up : System
first_given_up =
    put 0 (record (first_canceled.store 0) { tx_status = not_included }, returned) first_canceled

Reach-both_sequenced : Reach 2 both_sequenced
unfolding launch put after_submission initial int64_of_uint64
Reach-both_sequenced =
    next
      (next
        (next (next here (sends blank blank [] (pos 5) (pos 0)))
          (sends blank blank [] (pos 7) (pos 0)))
        (submitted 0 (waited_for 6) _ (omega arith) refl refl))
      (submitted 1 (waited_for 8) _ (omega arith) refl refl)

Reach-second_included : Reach 2 second_included
unfolding launch put initial
Reach-second_included = next Reach-both_sequenced (includes 1 (waited_for 9) (omega arith) refl)

Reach-first_given_up : Reach 2 first_given_up
unfolding launch put after_submission initial after_inclusion int64_of_uint64 after_forfeit check
    check_tx_in_flight check_all check_one highest_inclusion
Reach-first_given_up =
    next
      (next (next Reach-second_included (checks (pos 10)))
        (includes 0 canceled_wait (omega arith) refl))
      (forfeits 0 none _ (omega arith) refl refl)

Reach-partition_example :
    Perm
      (first_given_up.status.tx_in_flight ++ first_given_up.status.tx_done)
      (pointers first_given_up.sent)
    × (tx_count first_given_up.status ≡ first_given_up.sent)
Reach-partition_example = Reach-partition Reach-first_given_up

check-in_flight_example :
    ((both_sequenced.store 0).tx_status ≡ signed)
    ⊎ (((both_sequenced.store 0).tx_status ≡ sequenced)
        × ¬ IsOvertaken
            (highest_inclusion both_sequenced.store (pos 0) both_sequenced.status.tx_in_flight)
            (both_sequenced.store 0))
unfolding check check_tx_in_flight check_all check_one highest_inclusion launch put initial
check-in_flight_example = check-in_flight Reach-both_sequenced (pos 9) 0 mem-cons_self

Reach-ne-not_sequenced_example : (first_given_up.store 0).tx_status ≢ not_sequenced
unfolding launch put check initial
Reach-ne-not_sequenced_example = Reach-ne-not_sequenced Reach-first_given_up 0 (omega arith)

check_tx_in_flight-lists_example :
    let store = second_included.store in
    let s = second_included.status in
    let highest = highest_inclusion store (pos 0) s.tx_in_flight in
    let s' = (check_tx_in_flight (pos 10) store s).1 in
    (s'.tx_in_flight ≡ filter (λ p. dec_stays highest (store p)) s.tx_in_flight)
    × (s'.tx_done ≡ s.tx_done ++ filter (λ p. dec_leaves highest (store p)) s.tx_in_flight)
check_tx_in_flight-lists_example =
    check_tx_in_flight-lists (pos 10) second_included.store second_included.status

check_tx_in_flight-store_example :
    let store = second_included.store in
    let s = second_included.status in
    let highest = highest_inclusion store (pos 0) s.tx_in_flight in
    let store' = (check_tx_in_flight (pos 10) store s).0 in
    (Mem 0 s.tx_in_flight
      → IsOvertaken highest (store 0)
      → store' 0 ≡ record (store 0) { ctx = cancel (store 0).ctx; cancel_block = pos 10 })
    × (¬ (Mem 0 s.tx_in_flight × IsOvertaken highest (store 0)) → store' 0 ≡ store 0)
check_tx_in_flight-store_example =
    check_tx_in_flight-store (pos 10) second_included.store second_included.status 0

after_submission_panics_example :
    (after_submission canceled_wait (one_sent.store 0) ≡ panic nil_dereference) ↔ (
      ((one_sent.store 0).ctx ≡ alive)
      × (canceled_wait.receipt ≡ none)
      × (nil_dereference ≡ nil_dereference))
after_submission_panics_example =
    after_submission_panics canceled_wait (one_sent.store 0) nil_dereference

after_forfeit_panics_example :
    (after_forfeit (forfeiting not_included) (some "timeout") (first_canceled.store 0)
      ≡ panic index_out_of_range)
    ↔ (((x : TxStatus) × (forfeiting not_included ≡ forfeiting x))
        × (((m : String) × (some "timeout" ≡ some m) × (len m < 8))
            × (index_out_of_range ≡ index_out_of_range)))
after_forfeit_panics_example =
    after_forfeit_panics (forfeiting not_included) (some "timeout") (first_canceled.store 0)
      index_out_of_range
