-- ===== src/Collector/RunCollector.antt =====
-- main.go: runCollector.
use shutter_tests.Prelude.{String, []}
use shutter_tests.Prelude.Outcomes.{Outcome, ok, err, panic, fatal, ◌>>=◌}
use shutter_tests.Chain.{Crypto}
use shutter_tests.Utils.Repair.{collect_block_range_from_args}
use shutter_tests.Continuous.Machine.{Machine, Answers}
use shutter_tests.Continuous.Configure.{Configuration, create_configuration}
use shutter_tests.Collector.Stats.{Statistics, World, Report, collect_continuous_test_stats}

-- `log.Fatal(err)`.
unfoldable pub log_fatal {ℓ} : {A : Type ℓ} → Outcome A → Outcome A
log_fatal (ok a) = ok a
log_fatal (err e) = panic (fatal e)
log_fatal (panic p) = panic p

-- With the two arguments behind the mode, the answers to createConfiguration, and the world that the
-- configuration gives access to. The cache is new.
unfoldable pub run_collector :
    {Number : Type 0}
    → Crypto
    → Statistics Number
    → Answers
    → Machine
    → (Configuration → World)
    → String
    → String
    → Outcome (Report Number)
unfolding log_fatal
run_collector c stats a m world first second = do
  (start, end) ← collect_block_range_from_args first second
  cfg ← log_fatal (create_configuration c a "collect" m).0
  log_fatal (collect_continuous_test_stats stats (world cfg) start end []).0
