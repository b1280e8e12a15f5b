-- ===== src/Collector/Stats.antt =====
-- continuous/collector.go: CollectContinuousTestStats as a whole, and queryBlockTriggers. The file
-- that it writes is a record of what stands in it. The functions of the stats library are a parameter,
-- with numbers of any type; writing to the file does not fail.
pub mod Contents
use shutter_tests.Prelude.{
  Bool, ℕ, ◌+◌, ◌-◌, String, List, [], ◌∷◌, map, Option, none, some, length, nat_eq, int_eq,
}
use shutter_tests.Prelude.Int.{ℤ, pos, ◌-ℤ◌}
use shutter_tests.Prelude.Words.{uint64_sub}
use shutter_tests.Prelude.Outcomes.{Outcome, ok, err, panic, ◌>>=◌}
use shutter_tests.Utils.Difference.{difference}
use shutter_tests.Collector.Cache.{Success, BlockCache, Source, collect_submit_incoming_tx}
use shutter_tests.Collector.Events.{Submission, SequencerEvent, collect_sequencer_events}
use shutter_tests.Collector.Pairing.{Pairing, pairing}
use shutter_tests.Collector.Ratios.{SlotMap, Row, Counters, query_status_ratios}
use shutter_tests.Collector.Credentials.{Contracts}
use shutter_tests.Collector.Blame.{Observer, Answer, ValidatorBlame, blame_validator}

pub record Statistics (Number : Type 0) : Type 0 where
  pub mean : List ℤ → Outcome Number
  pub maximum : List ℤ → Outcome Number
  pub minimum : List ℤ → Outcome Number
  pub median : List ℤ → Outcome Number

pub record Delays (Number : Type 0) : Type 0 where
  pub average : Number
  pub maximum : Number
  pub minimum : Number
  pub median : Number

unfoldable pub delay_statistics :
    {Number : Type 0} → Statistics Number → List ℤ → Outcome (Delays Number)
delay_statistics stats delays = do
  average ← stats.mean delays
  maximum ← stats.maximum delays
  minimum ← stats.minimum delays
  median ← stats.median delays
  ok (record { average = average; maximum = maximum; minimum = minimum; median = median })

-- The error behind the rows is logged, and the nil error of `Query` is returned.
unfoldable pub query_block_triggers : Answer ℤ → Outcome (List ℤ)
query_block_triggers answer = do (rows, error) ← answer; ok rows

-- The loop over the failed submissions: an error is logged, and the blame is kept.
unfoldable pub blame_all :
    Contracts → Observer → List Submission → Outcome (List (ValidatorBlame × ℤ))
blame_all contracts observer [] = ok []
blame_all contracts observer (f ∷ failed) = do
  (blame, created_ts, error) ← blame_validator contracts observer f
  blames ← blame_all contracts observer failed
  ok ((blame, created_ts) ∷ blames)

-- What the node, the database and the contracts answer, beyond `Source`.
pub record World : Type 0 where
  pub source : Source
  pub events : ℕ → ℕ → Outcome (List SequencerEvent × Option String)
  pub block_triggers : ℕ → ℕ → Answer ℤ
  pub contracts : Contracts
  pub observer : Observer
  pub graffiti_mode : Bool
  pub targets : SlotMap
  pub status_rows : ℕ → ℕ → Outcome (List (Outcome Row) × Option String)

-- A percentage is given by its two numbers.
pub record Report (Number : Type 0) : Type 0 where
  pub found : ℕ
  pub triggers : ℕ
  pub ratios : Option Counters
  pub shutterized : ℕ × ℕ
  pub fails : ℕ
  pub missed_count : ℤ
  pub missed : List ℤ
  pub delays : Delays Number
  pub successful : List Success
  pub blames : List (ValidatorBlame × ℤ)

unfoldable pub write_report :
    {Number : Type 0}
    → Statistics Number
    → World
    → ℕ
    → ℕ
    → List Submission
    → Pairing
    → Outcome (Report Number)
write_report stats w start_block end_block submit p = do
  delays ← delay_statistics stats p.delays
  triggers ← query_block_triggers (w.block_triggers start_block (uint64_sub end_block 1))
  blames ← blame_all w.contracts w.observer p.failed
  ratios ← query_status_ratios w.graffiti_mode w.targets (w.status_rows start_block end_block)
  ok (record {
    found = length submit;
    triggers = length triggers;
    ratios = ratios;
    shutterized = (length triggers, uint64_sub end_block start_block);
    fails = length p.failed;
    missed_count = pos (length triggers) -ℤ pos (length submit);
    missed = difference triggers (map (λ s. s.trigger) submit);
    delays = delays;
    successful = p.successful;
    blames = blames;
  })

-- The report or the error, and the cache afterwards.
unfoldable pub collect_continuous_test_stats :
    {Number : Type 0}
    → Statistics Number
    → World
    → ℕ
    → ℕ
    → BlockCache
    → Outcome (Report Number) × BlockCache
unfolding write_report
collect_continuous_test_stats stats w start_block end_block cache =
    let (success, cache') = collect_submit_incoming_tx w.source start_block end_block cache in
    (
      do
        submit ← collect_sequencer_events start_block end_block (w.events start_block end_block)
        write_report stats w start_block end_block submit (pairing success submit),
      cache',
    )
