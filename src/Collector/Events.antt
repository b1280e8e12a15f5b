-- ===== src/Collector/Events.antt =====
-- continuous/collector.go: collectSequencerEvents, the submissions in the events of the sequencer
-- contract. The iterator is the list of its events and the error that it ends with.
pub mod Filter
use shutter_tests.Prelude.{
  ℕ, String, ◌+◌, ◌%◌, List, [], ◌∷◌, Option, none, some, if◌then◌else◌, ◌&&◌, Bool,
}
use shutter_tests.Prelude.Int.{ℤ, leb_ℤ}
use shutter_tests.Prelude.Words.{int64_of_uint64, word}
use shutter_tests.Prelude.Outcomes.{Outcome, ok, err, ◌>>=◌}
use shutter_tests.Utils.Prefix.{block_number_from_prefix}

pub record Submission : Type 0 where
  pub trigger : ℤ
  pub sequenced : ℤ

pub record SequencerEvent : Type 0 where
  pub identity_prefix : List ℕ
  pub block_number : ℕ

unfoldable pub submission_of : SequencerEvent → Submission
submission_of ev = record {
  trigger = block_number_from_prefix ev.identity_prefix;
  sequenced = int64_of_uint64 ev.block_number;
}

-- `int64(endBlock) + 1000`, which wraps.
unfoldable pub last_trigger : ℕ → ℤ
last_trigger end_block = int64_of_uint64 ((end_block + 1000) % word)

unfoldable pub in_range : ℕ → ℕ → Submission → Bool
unfolding last_trigger
in_range start_block end_block s =
    leb_ℤ (int64_of_uint64 start_block) s.trigger && leb_ℤ s.trigger (last_trigger end_block)

unfoldable pub read_events : ℕ → ℕ → List SequencerEvent → List Submission
read_events start_block end_block [] = []
read_events start_block end_block (ev ∷ evs) =
    let rest = read_events start_block end_block evs in
    if in_range start_block end_block (submission_of ev) then submission_of ev ∷ rest else rest

-- The answer of `FilterTransactionSubmitted` is the events with the error behind them.
unfoldable pub collect_sequencer_events :
    ℕ → ℕ → Outcome (List SequencerEvent × Option String) → Outcome (List Submission)
collect_sequencer_events start_block end_block answer = do
  (events, error) ← answer
  elim error [ none ↦ ok (read_events start_block end_block events) | some e ↦ err e ]
