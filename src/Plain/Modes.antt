-- ===== src/Plain/Modes.antt =====
-- main.go: the modes, and tests/sendtx.go: the tests that send at an interval.
pub mod Shadowing
use Prim.Native.Char.{code}
use Prim.Native.String.{String}
use shutter_tests.Prelude.{
  ℕ, suc, ◌+◌, Bool, List, [], ◌∷◌, length, nat_beq, ◌==◌, string_eq, if◌then◌else◌,
}
use shutter_tests.Prelude.Int.{ℤ, pos, leb_ℤ}
use shutter_tests.Prelude.Outcomes.{
  Outcome, ok, err, panic, fatal, non_positive_ticker, index_out_of_range, ◌>>=◌,
}
use shutter_tests.Plain.Config.{Config, zero_config, Environment, load_config}
use shutter_tests.Plain.Requests.{SignedTx}

-- What is started for a mode, each in a goroutine of its own, or a mode that is only logged.
pub data Job : Type 0 where
  chiado gnosis send_wait : Config → Job
  continuous : String → Job
  collect : Job
  unknown : String → Job

-- `strings.Split(mode, ",")`.
unfoldable pub split_modes : String → List String
split_modes String.[] = "" ∷ []
split_modes (String.◌∷◌ c s) =
    let rest = split_modes s in
    if nat_beq (code c) b','
    then "" ∷ rest
    else elim rest [ [] ↦ String.◌∷◌ c "" ∷ [] | m ∷ ms ↦ String.◌∷◌ c m ∷ ms ]

-- Mode "collect" wants two more arguments; `os.Args[2:]` is out of range where there is none at all.
check_arguments : ℕ → Outcome Job
check_arguments n =
    if nat_beq n 0
    then panic index_out_of_range
    else if nat_beq n 3
    then ok collect
    else panic (fatal "Usage")

-- One case of the switch.
unfoldable pub job_of : Config → List String → String → Outcome Job
unfolding check_arguments
job_of cfg args m =
    if m == "chiado"
    then ok (chiado cfg)
    else if m == "gnosis"
    then ok (gnosis cfg)
    else if m == "send-wait"
    then ok (send_wait cfg)
    else if m == "continuous"
    then ok (continuous "standard")
    else if m == "continuous-graffiti"
    then ok (continuous "graffiti")
    else if m == "collect"
    then check_arguments (length args)
    else ok (unknown m)

unfoldable pub jobs_of : Config → List String → List String → Outcome (List Job)
jobs_of cfg args [] = ok []
jobs_of cfg args (m ∷ modes) = do
  job ← job_of cfg args m
  jobs ← jobs_of cfg args modes
  ok (job ∷ jobs)

-- `os.Args[1:]`, and what `godotenv.Load` leaves. The configuration that is loaded is a variable of
-- the inner block; the jobs get the outer one, which is never set.
unfoldable pub main : Outcome Environment → List String → Outcome (List Job)
main loaded [] = do cfg ← load_config loaded; jobs_of zero_config [] (split_modes cfg.mode)
main loaded (mode ∷ args) = jobs_of zero_config (mode ∷ args) (mode ∷ [])

-- `time.NewTicker(interval)` panics unless the interval is positive.
unfoldable pub new_ticker : ℤ → Outcome (Unit {0})
new_ticker interval = if leb_ℤ interval (pos 0) then panic non_positive_ticker else ok tt

-- The loop over the ticks, with what SendLegacyTx answers at each, and the number of transactions.
unfoldable pub send_at_ticks : List (Outcome SignedTx) → ℕ → Outcome ℕ
send_at_ticks [] sent = ok sent
send_at_ticks (ok tx ∷ answers) sent = send_at_ticks answers (suc sent)
send_at_ticks (err e ∷ answers) sent = panic (fatal "Failed to send transaction")
send_at_ticks (panic p ∷ answers) sent = panic p

unfoldable pub run_chiado_transactions : Config → List (Outcome SignedTx) → Outcome ℕ
unfolding new_ticker send_at_ticks
run_chiado_transactions cfg answers = do
  _ ← new_ticker cfg.chiado_send_interval
  send_at_ticks answers 0

unfoldable pub run_gnosis_transactions : Config → List (Outcome SignedTx) → Outcome ℕ
unfolding new_ticker send_at_ticks
run_gnosis_transactions cfg answers = do
  _ ← new_ticker cfg.gnosis_send_interval
  send_at_ticks answers 0
