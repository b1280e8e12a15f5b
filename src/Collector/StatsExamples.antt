-- ===== src/Collector/StatsExamples.antt =====
-- continuous/collector.go: blaming and the statistics of a small range of blocks.
use shutter_tests.Prelude.{◌≡◌, ◌↔◌, refl, arith, List, [], ◌∷◌, lookup, insert, nat_eq, none, All}
use shutter_tests.Prelude.Int.{pos, ◌-ℤ◌}
use shutter_tests.Prelude.Words.{
  int64_of_uint64, uint64_of_int64, int64_of_big, uint64_sub, int64_sub,
}
use shutter_tests.Prelude.Outcomes.{ok, err, panic, nil_dereference}
use shutter_tests.Utils.Prefix.{
  prefix_from_block_number, block_number_from_prefix, get_uint64, put_uint64, of_bytes_le, bytes_le,
}
use shutter_tests.Utils.Difference.{difference}
use shutter_tests.Collector.Cache.{
  load, store, successes, success_of, validator_or_blank, query_validator_info_for_block, rounds,
  collect_loop, block_successes, collect_submit_incoming_tx,
}
use shutter_tests.Collector.Events.{
  Submission, submission_of, SequencerEvent, in_range, last_trigger, read_events,
  collect_sequencer_events,
}
use shutter_tests.Collector.Pairing.{add_pair, by_trigger, pair_up, pairing}
use shutter_tests.Collector.Ratios.{
  zero_counters, slot_test, count_rows, count_row, count_status, is_on_target, is_late,
  query_status_ratios,
}
use shutter_tests.Collector.Credentials.{withdraw_address_for_public_key, hex_decode}
use shutter_tests.Collector.Blame.{
  ValidatorBlame, blank_blame, deref_credentials, blame_row, blame_rows, key_row, key_rows, is_ours,
  set_key, check_slot_mismatch, after_keys, after_who, query_who_to_blame,
  query_decryption_keys_by_slot, blame_validator,
}
use shutter_tests.Collector.Blame.Facts.{IsOf, blame_validator-IsOf}
use shutter_tests.Collector.Blame.Panics.{IsAnswered, IsUnanswered, query_who_to_blame-panics}
use shutter_tests.Collector.Stats.{
  delay_statistics, query_block_triggers, blame_all, write_report, collect_continuous_test_stats,
}
use shutter_tests.Collector.Stats.Contents.{
  Right, collect_continuous_test_stats-Right, collect_continuous_test_stats-eq-err,
}
use mathlib.Core.List.{Mem, mem-cons_self}
use shutter_tests.Continuous.Samples.{plain, answering, tester, two_accounts, sent_state}
use shutter_tests.Continuous.System.{initial, next_account}
use shutter_tests.Continuous.Status.{tx_count}
use shutter_tests.Continuous.Send.{send_shutterized_tx, pick_account, inner_transaction}
use shutter_tests.Utils.Account.{sign, use_nonce, opts}
use shutter_tests.Utils.Eon.{get_eon_key}
use shutter_tests.Utils.Gas.{gas_calculation_from_client}
use shutter_tests.Collector.Pairing.Sent.{send-paired}
use shutter_tests.Collector.Cache.{Block}
use shutter_tests.Collector.Samples.{
  node, submission_at, event_at, deposit, blame_row_of, watching, blamed_six, numbers, network,
  report, unreachable,
}

query_who_to_blame-panics_example :
    (((b' : ValidatorBlame) × (query_who_to_blame deposit
            (ok (blame_row_of [] ∷ [], none))
            (blank_blame 20 (submission_at 6))
          ≡ ok (b', none)))
      ↔ All (IsAnswered deposit) (blame_row_of [] ∷ []))
    × ((query_who_to_blame deposit
            (ok (blame_row_of [] ∷ [], none))
            (blank_blame 20 (submission_at 6))
          ≡ panic nil_dereference)
        ↔ IsUnanswered deposit (blame_row_of [] ∷ []) nil_dereference)
query_who_to_blame-panics_example =
    query_who_to_blame-panics deposit (blame_row_of [] ∷ []) none (blank_blame 20 (submission_at 6))
      nil_dereference

blame_validator-IsOf_example : IsOf deposit (submission_at 6) blamed_six.0
unfolding blame_validator blank_blame query_who_to_blame blame_rows blame_row deref_credentials
    withdraw_address_for_public_key hex_decode query_decryption_keys_by_slot key_rows key_row
    is_ours block_number_from_prefix int64_of_uint64 get_uint64 prefix_from_block_number put_uint64
    of_bytes_le set_key check_slot_mismatch
blame_validator-IsOf_example =
    blame_validator-IsOf deposit watching (submission_at 6) blamed_six.0 blamed_six.1 blamed_six.2
      refl

collect_continuous_test_stats-Right_example :
    (submit : List Submission) × (collect_sequencer_events 5 9 (network.events 5 9) ≡ ok submit)
    × Right network 5 9 (collect_submit_incoming_tx node 5 9 []).0 submit report
unfolding collect_continuous_test_stats collect_sequencer_events delay_statistics pairing
    read_events in_range int64_of_uint64 submission_of block_number_from_prefix get_uint64
    prefix_from_block_number put_uint64 uint64_of_int64 lookup collect_submit_incoming_tx
    block_successes insert successes int64_of_big query_block_triggers blame_all blame_validator
    query_who_to_blame blame_rows blame_row deref_credentials withdraw_address_for_public_key
    after_keys after_who blank_blame check_slot_mismatch hex_decode is_ours key_row key_rows
    query_decryption_keys_by_slot set_key collect_loop load rounds store success_of
    validator_or_blank query_validator_info_for_block last_trigger add_pair by_trigger pair_up
    count_row count_rows count_status is_late is_on_target query_status_ratios slot_test
    zero_counters write_report ◌-ℤ◌ int64_sub uint64_sub difference bytes_le of_bytes_le
collect_continuous_test_stats-Right_example =
    collect_continuous_test_stats-Right numbers network 5 9 [] report refl

collect_continuous_test_stats-eq-err_example :
    (collect_continuous_test_stats numbers unreachable 5 9 []).0 ≡ err "Input must not be empty."
unfolding collect_sequencer_events read_events in_range collect_submit_incoming_tx submission_of
    int64_of_uint64 block_number_from_prefix get_uint64 prefix_from_block_number put_uint64
    uint64_of_int64 block_successes lookup
collect_continuous_test_stats-eq-err_example =
    collect_continuous_test_stats-eq-err numbers unreachable 5 9 []
      (submission_of (event_at 6) ∷ submission_of (event_at 12) ∷ []) "Input must not be empty."
      refl refl (tt, (tt, tt))

send-paired_example :
    let ev : SequencerEvent = record {
      identity_prefix = (sent_state.1.store 0).prefix;
      block_number = 6;
    } in
    let block : Block = record { number = 8; transactions = [] } in
    ¬ Mem
      (submission_of ev)
      (pairing
        (success_of node block (sent_state.1.store 0).inner_tx ∷ [])
        (submission_of ev ∷ [])).failed
unfolding send_shutterized_tx pick_account get_eon_key gas_calculation_from_client sign use_nonce
    opts inner_transaction next_account initial tx_count
send-paired_example =
    send-paired plain answering (pos 5) (pos 0) two_accounts sent_state.0 initial sent_state.1
      tester node (record { number = 8; transactions = [] })
      (record { identity_prefix = (sent_state.1.store 0).prefix; block_number = 6 })
      (success_of node (record { number = 8; transactions = [] }) (sent_state.1.store 0).inner_tx
        ∷ [])
      (submission_of (record { identity_prefix = (sent_state.1.store 0).prefix; block_number = 6 })
        ∷ [])
      (omega arith) (omega arith) refl refl refl mem-cons_self
