-- ===== src/Collector/HeadsExamples.antt =====
-- continuous/collector.go: a run of the goroutines behind PrimeBlockCache, and a blame that is printed.
use shutter_tests.Prelude.{◌≡◌, refl, [], ◌∷◌, ◌++◌, none, inl, length, lookup, insert, List, false}
use shutter_tests.Prelude.Int.{pos}
use shutter_tests.Prelude.Text.{codes}
use shutter_tests.Prelude.Outcomes.{ok}
use shutter_tests.Prelude.Words.{int64_of_uint64}
use shutter_tests.Collector.Events.{Submission}
use shutter_tests.Collector.Credentials.{Contracts}
use shutter_tests.Collector.Blame.{
  Observer, blame_validator, blank_blame, query_who_to_blame, blame_rows,
  query_decryption_keys_by_slot, key_rows, check_slot_mismatch,
}
use shutter_tests.Collector.Heads.{
  Heads, loading, priming, ended, end_watcher, receive, prime_step, collect_step, pass_step,
  looked_up, fetched, prime_pass, Reach, start, here, next, subscribes, head_comes, hands_over,
  measures, primes, subscription_ends, collect_starts, collects, watching, sending,
}
use shutter_tests.Collector.Heads.Stuck.{InLoop, Reach-blocked}
use shutter_tests.Collector.Heads.Whole.{IsFetched, Reach-IsFetched}
use shutter_tests.Collector.Printing.{Display, print_blame}
use shutter_tests.Collector.Printing.Caught.{blame_validator-print_blame}
use shutter_tests.Collector.Samples.{node}
use shutter_tests.Collector.Cache.{
  Source, Success, load, store, max_key, successes, rounds, collect_loop, block_successes,
  collect_submit_incoming_tx,
}

abbrev Given : Source → Type 0
Given src = src ≡ node

abbrev collecting : Heads
collecting = record (start []) { collecting = loading 5 6 }

abbrev fetched_five : Heads
fetched_five = collect_step node collecting

abbrev stored_five : Heads
stored_five = collect_step node fetched_five

abbrev watched : Heads
watched = record stored_five { watcher = watching }

abbrev offered : Heads
offered = record watched { watcher = sending 7 }

abbrev received : Heads
received = receive 7 offered

abbrev measured : Heads
measured = record received { primer = priming (prime_pass received.cache 7) }

abbrev primed_once : Heads
primed_once = prime_step node (prime_pass received.cache 7) measured

abbrev cut_off : Heads
cut_off = end_watcher none primed_once

Reach-stored_five : Reach Given [] stored_five
unfolding start
Reach-stored_five =
    next (next (next here (collect_starts 5 6 refl)) (collects node refl)) (collects node refl)

Reach-received : Reach Given [] received
unfolding start collect_step pass_step
Reach-received =
    next (next (next Reach-stored_five (subscribes refl)) (head_comes 7 refl))
      (hands_over 7 refl refl)

Reach-primed_once : Reach Given [] primed_once
unfolding receive
Reach-primed_once =
    next (next Reach-received (measures 7 refl))
      (primes node refl (prime_pass received.cache 7) refl)

Reach-cut_off : Reach Given [] cut_off
unfolding receive prime_step
Reach-cut_off = next Reach-primed_once (subscription_ends none refl)

abbrev found_in_five : List Success
found_in_five = (collect_submit_incoming_tx node 5 5 []).0

Reach-IsFetched_example : IsFetched Given 5 found_in_five
unfolding start collect_step pass_step looked_up fetched receive prime_step prime_pass end_watcher
    load lookup store insert max_key collect_submit_incoming_tx rounds collect_loop block_successes
    successes int64_of_uint64
Reach-IsFetched_example = Reach-IsFetched Reach-cut_off 5 found_in_five refl

cut_off_ended : cut_off.watcher ≡ ended none
unfolding end_watcher
cut_off_ended = refl

Reach-blocked_example :
    InLoop (collect_step node cut_off).primer
    × ((collect_step node cut_off).closed ≡ false)
    × ((collect_step node cut_off).watcher ≡ cut_off.watcher)
    × ((collect_step node cut_off).received ≡ cut_off.received)
Reach-blocked_example = Reach-blocked Reach-cut_off (collects node refl) none cut_off_ended

abbrev display : Display
display = record {
  utc = λ t. record {
    year = 2024;
    month = 5;
    day = 17;
    hour = 10;
    minute = 3;
    second = 9;
    microsecond = 250;
  };
  unix_milli = λ t. t;
  address_hex = λ a. codes "0x01";
  address_bytes = λ a. a ∷ [];
  hash_hex = λ hash. codes "0xff";
}

abbrev answering_contracts : Contracts
answering_contracts = record {
  withdrawal_credentials = λ key. ok key;
  bytes_to_address = λ bytes. length bytes;
  submit_address = 102;
}

abbrev empty_database : Observer
empty_database = record {
  who_to_blame = λ block. ok ([], none);
  keys_by_slot = λ slot. ok ([], none);
  keys_by_preimage = λ preimage. ok ([], none);
}

abbrev lost : Submission
lost = record { trigger = pos 5; sequenced = pos 6 }

blamed :
    blame_validator answering_contracts empty_database lost ≡ ok (blank_blame 102 lost, pos 0, none)
unfolding blame_validator query_who_to_blame blame_rows query_decryption_keys_by_slot key_rows
    check_slot_mismatch
blamed = refl

blame_validator-print_blame_example :
    print_blame display (blank_blame 102 lost, pos 0)
    ≡ codes
        "%!v(PANIC=String method: runtime error: invalid memory address or nil pointer dereference)"
      ++ 10 ∷ []
blame_validator-print_blame_example =
    blame_validator-print_blame answering_contracts empty_database display lost
      (blank_blame 102 lost) (pos 0) none (inl (none, refl)) blamed
