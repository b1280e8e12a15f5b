-- ===== src/Plain/Modes/Shadowing.antt =====
-- main.go: which configuration the tests are started with.
use shutter_tests.Prelude.{
  Bool, false, ◌≡◌, refl, subst, String, List, [], ◌∷◌, All, arith, string_eq,
}
use shutter_tests.Prelude.Int.{ℤ, pos, ltb_ℤ, ◌+ℤ◌, ◌≤ℤ◌, +ℤ_parts}
use shutter_tests.Prelude.Outcomes.{
  Outcome, ok, panic, non_positive_ticker, >>=-eq-ok, ok_injective,
}
use shutter_tests.Plain.Config.{Config, zero_config, Environment, load_config}
use shutter_tests.Plain.Requests.{SignedTx}
use shutter_tests.Plain.SendWait.{Tally, run_send_and_wait_test, send_and_wait_rounds}
use shutter_tests.Plain.Modes.{
  Job, chiado, gnosis, send_wait, continuous, collect, unknown, split_modes, job_of, jobs_of, main,
  run_chiado_transactions, run_gnosis_transactions,
}

-- A test has the zero configuration: one at an interval panics, and the send-and-wait test starts no
-- round.
abbrev pub IsUseless : List (Outcome SignedTx) → ℤ → List (ℤ × Outcome Bool) → Job → Type 0
IsUseless answers start rounds (chiado cfg) =
    (zero_config ≡ cfg) × (run_chiado_transactions cfg answers ≡ panic non_positive_ticker)
IsUseless answers start rounds (gnosis cfg) =
    (zero_config ≡ cfg) × (run_gnosis_transactions cfg answers ≡ panic non_positive_ticker)
IsUseless answers start rounds (send_wait cfg) =
    (zero_config ≡ cfg)
    × (run_send_and_wait_test cfg start rounds ≡ ok (record { success_count = 0; fail_count = 0 }))
IsUseless answers start rounds (continuous mode) = Unit
IsUseless answers start rounds collect = Unit
IsUseless answers start rounds (unknown mode) = Unit

-- A job has the configuration that it is started with.
abbrev HasConfig : Config → Job → Type 0
HasConfig z (chiado cfg) = z ≡ cfg
HasConfig z (gnosis cfg) = z ≡ cfg
HasConfig z (send_wait cfg) = z ≡ cfg
HasConfig z (continuous mode) = Unit
HasConfig z collect = Unit
HasConfig z (unknown mode) = Unit

job_of-HasConfig :
    (z : Config) (args : List String) (m : String) (job : Job)
    → job_of z args m ≡ ok job
    → HasConfig z job
unfolding job_of
job_of-HasConfig z args m (chiado cfg) h = ground (arith, h)
job_of-HasConfig z args m (gnosis cfg) h = ground (arith, h)
job_of-HasConfig z args m (send_wait cfg) h = ground (arith, h)
job_of-HasConfig z args m (continuous mode) h = tt
job_of-HasConfig z args m collect h = tt
job_of-HasConfig z args m (unknown mode) h = tt

send_and_wait_rounds-late :
    (end_time now : ℤ) (round : Outcome Bool) (rounds : List (ℤ × Outcome Bool)) (t : Tally)
    → ltb_ℤ now end_time ≡ false
    → send_and_wait_rounds end_time ((now, round) ∷ rounds) t ≡ ok t
unfolding send_and_wait_rounds
send_and_wait_rounds-late end_time now round rounds t h = ground (arith, h)

run_send_and_wait_test-zero :
    (start now : ℤ) (round : Outcome Bool) (rounds : List (ℤ × Outcome Bool))
    → start ≤ℤ now
    → run_send_and_wait_test zero_config start ((now, round) ∷ rounds)
      ≡ ok (record { success_count = 0; fail_count = 0 })
unfolding run_send_and_wait_test zero_config
run_send_and_wait_test-zero start now round rounds h =
    send_and_wait_rounds-late (start +ℤ pos 0) now round rounds _
      (ground (arith, h, +ℤ_parts start (pos 0)))

module _ (answers : List (Outcome SignedTx)) (start now : ℤ) (round : Outcome Bool)
    (rounds : List (ℤ × Outcome Bool)) (later : start ≤ℤ now) where
  abbrev Useless : Job → Type 0
  Useless = IsUseless answers start ((now, round) ∷ rounds)

  HasConfig-IsUseless : (job : Job) → HasConfig zero_config job → Useless job
  unfolding run_chiado_transactions run_gnosis_transactions zero_config
  HasConfig-IsUseless (chiado cfg) h =
      (h, subst (λ c. run_chiado_transactions c answers ≡ panic non_positive_ticker) h refl)
  HasConfig-IsUseless (gnosis cfg) h =
      (h, subst (λ c. run_gnosis_transactions c answers ≡ panic non_positive_ticker) h refl)
  HasConfig-IsUseless (send_wait cfg) h = (
    h,
    subst
        (λ c.
          run_send_and_wait_test c start ((now, round) ∷ rounds)
          ≡ ok (record { success_count = 0; fail_count = 0 }))
        h (run_send_and_wait_test-zero start now round rounds later),
  )
  HasConfig-IsUseless (continuous mode) h = tt
  HasConfig-IsUseless collect h = tt
  HasConfig-IsUseless (unknown mode) h = tt

  jobs_of-IsUseless :
      (args modes : List String) (jobs : List Job)
      → jobs_of zero_config args modes ≡ ok jobs
      → All Useless jobs
  unfolding jobs_of
  jobs_of-IsUseless args [] jobs h = subst (All Useless) (ok_injective h) tt
  jobs_of-IsUseless args (m ∷ modes) jobs h =
      let (job, e, k) = >>=-eq-ok (job_of zero_config args m) _ h in
      let (rest, f, l) = >>=-eq-ok (jobs_of zero_config args modes) _ k in
      subst (All Useless) (ok_injective l) (
        HasConfig-IsUseless job (job_of-HasConfig zero_config args m job e),
        jobs_of-IsUseless args modes rest f,
      )

-- Whatever the environment and the arguments are, the tests that `main` starts get the zero
-- configuration. Those that send at an interval then panic, whatever the node would answer; and the
-- send-and-wait test starts no round, if the clock's second reading is not before its first.
pub main-IsUseless :
    (loaded : Outcome Environment) (args : List String) (jobs : List Job)
    (answers : List (Outcome SignedTx)) (start now : ℤ) (round : Outcome Bool)
    (rounds : List (ℤ × Outcome Bool))
    → start ≤ℤ now
    → main loaded args ≡ ok jobs
    → All (IsUseless answers start ((now, round) ∷ rounds)) jobs
unfolding main
main-IsUseless loaded [] jobs answers start now round rounds later h =
    let (cfg, _, k) = >>=-eq-ok (load_config loaded) _ h in
    jobs_of-IsUseless answers start now round rounds later [] (split_modes cfg.mode) jobs k
main-IsUseless loaded (mode ∷ args) jobs answers start now round rounds later h =
    jobs_of-IsUseless answers start now round rounds later (mode ∷ args) (mode ∷ []) jobs h
