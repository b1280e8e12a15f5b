-- ===== src/Collector/Examples.antt =====
-- continuous/collector.go: the analysis of a small range of blocks.
use mathlib.Core.List.{filter, map}
use shutter_tests.Prelude.{◌≤◌, ◌≡◌, refl, arith, [], ◌∷◌, lookup, nat_eq, true}
use shutter_tests.Prelude.Int.{pos}
use shutter_tests.Prelude.Words.{int64_of_uint64}
use shutter_tests.Collector.Cache.{load, rounds, collect_submit_incoming_tx}
use shutter_tests.Collector.Cache.Transparent.{Agrees, uncached, collect-uncached}
use shutter_tests.Collector.Cache.Repeat.{collect_again}
use shutter_tests.Collector.Events.{submission_of, read_events}
use shutter_tests.Collector.Events.Filter.{dec_in_range, read_events-filter}
use shutter_tests.Collector.Pairing.{pairing}
use shutter_tests.Collector.Pairing.Partition.{dec_unmatched, pairing-failed}
use shutter_tests.Collector.Ratios.{
  zero_counters, count_rows, count_row, count_status, is_on_target, is_late, query_status_ratios,
}
use shutter_tests.Collector.Ratios.Counts.{Counted, query_status_ratios-counts}
use shutter_tests.Collector.Samples.{node, silent, found, submitted, event_at, rows, counted}

nothing-Agrees : Agrees node []
unfolding load lookup
nothing-Agrees b found h = ground (arith, h)

collect-uncached_example :
    ((collect_submit_incoming_tx node 5 7 []).0 ≡ uncached node (rounds 5 7) 5)
    × Agrees node (collect_submit_incoming_tx node 5 7 []).1
collect-uncached_example = collect-uncached node 5 7 [] nothing-Agrees

collect_again_example :
    collect_submit_incoming_tx silent 5 7 (collect_submit_incoming_tx node 5 7 []).1
    ≡ collect_submit_incoming_tx node 5 7 []
unfolding rounds int64_of_uint64
collect_again_example = collect_again node silent 5 7 [] ((_, refl), ((_, refl), ((_, refl), tt)))

pairing-failed_example : (pairing found submitted).failed ≡ filter (dec_unmatched found) submitted
pairing-failed_example = pairing-failed found submitted

read_events-filter_example :
    read_events 5 9 (event_at 4 ∷ event_at 6 ∷ [])
    ≡ filter (dec_in_range 5 9) (map submission_of (event_at 4 ∷ event_at 6 ∷ []))
read_events-filter_example =
    read_events-filter 5 9 (event_at 4 ∷ event_at 6 ∷ []) (omega arith) (omega arith)

query_status_ratios-counts_example :
    Counted true ((1, pos 20) ∷ []) rows zero_counters counted
    × (counted.in_targeted_slot ≤ counted.shielded)
unfolding query_status_ratios count_rows count_row count_status is_on_target is_late lookup
query_status_ratios-counts_example =
    query_status_ratios-counts true ((1, pos 20) ∷ []) rows counted refl
