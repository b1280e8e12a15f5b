-- ===== src/Continuous/RunLoop/Ranges.antt =====
-- main.go: the ranges and the times of the statistics.
use shutter_tests.Prelude.{
  ℕ, ◌<◌, ◌≡◌, ◌≢◌, subst, List, [], ◌∷◌, none, some, All, arith, Option-cases, inl, inr,
}
use shutter_tests.Prelude.Int.{ℤ, pos, ◌+ℤ◌, ◌-ℤ◌, ◌<ℤ◌}
use shutter_tests.Prelude.Words.{word, uint64_of_int64_small}
use shutter_tests.Continuous.RunLoop.{Loop, StatsCall, set_start, on_block, run_continuous}

-- Each call comes more than 12 seconds after the one before it.
abbrev pub Spread : ℤ → List StatsCall → Type 0
Spread last [] = Unit
Spread last (c ∷ cs) = (last +ℤ pos 12 <ℤ c.time) × Spread c.time cs

-- Every call starts at the same block.
abbrev pub StartsAt : ℕ → List StatsCall → Type 0
StartsAt start cs = All (λ (c : StatsCall). c.from_block ≡ start) cs

on_block-start :
    (number now : ℤ) (l : Loop) (start : ℕ)
    → (set_start number l).start_block ≡ start
    → ((on_block number now l).0.start_block ≡ start)
      × ((c : StatsCall)
          → (on_block number now l).1 ≡ some c
          → (c.from_block ≡ start)
            × (l.last_stats +ℤ pos 12 <ℤ c.time)
            × ((on_block number now l).0.last_stats ≡ c.time))
      × ((on_block number now l).1 ≡ none → (on_block number now l).0.last_stats ≡ l.last_stats)
unfolding on_block set_start ◌-ℤ◌ ◌+ℤ◌
on_block-start number now l start h = ground (arith, h)

set_start-kept :
    (number : ℤ) (l : Loop) (start : ℕ)
    → start ≢ 0
    → l.start_block ≡ start
    → (set_start number l).start_block ≡ start
unfolding set_start
set_start-kept number l start n h = ground (arith, n, h)

abbrev Regular : ℕ → List (ℤ × ℤ) → Loop → Type 0
Regular start blocks l =
    StartsAt start (run_continuous blocks l) × Spread l.last_stats (run_continuous blocks l)

run_round :
    (number now : ℤ) (blocks : List (ℤ × ℤ)) (l : Loop) (start : ℕ)
    → (set_start number l).start_block ≡ start
    → ((l' : Loop) → l'.start_block ≡ start → Regular start blocks l')
    → Regular start ((number, now) ∷ blocks) l
unfolding run_continuous
run_round number now blocks l start h later =
    let (kept, called, idle) = on_block-start number now l start h in
    let rest = later (on_block number now l).0 kept in
    elim (Option-cases (on_block number now l).1) [
      | inl e ↦
          rw (run_continuous, e)
            (
              rest.0,
              subst (λ t. Spread t (run_continuous blocks (on_block number now l).0)) (idle e)
                  rest.1,
            )
      | inr (call, e) ↦
          let (from, after, time) = called call e in
          rw (run_continuous, e)
            (
              (from, rest.0),
              (
                after,
                subst (λ t. Spread t (run_continuous blocks (on_block number now l).0)) time rest.1,
              ),
            )
    ]

run_from :
    (blocks : List (ℤ × ℤ)) (start : ℕ) (l : Loop)
    → start ≢ 0
    → l.start_block ≡ start
    → Regular start blocks l
unfolding run_continuous
run_from [] start l n h = (tt, tt)
run_from ((number, now) ∷ blocks) start l n h =
    run_round number now blocks l start (set_start-kept number l start n h)
      (λ l' e. run_from blocks start l' n e)

-- The statistics all start at the first block that came in, if its number is positive and an int64,
-- and each comes more than 12 seconds after the one before it, or after the start of the test.
pub run_continuous-Regular :
    (number : ℕ) (now start_time : ℤ) (blocks : List (ℤ × ℤ))
    → number ≢ 0
    → number < word
    → let calls =
        run_continuous
          ((pos number, now) ∷ blocks)
          (record { start_block = 0; last_stats = start_time }) in
      StartsAt number calls × Spread start_time calls
run_continuous-Regular number now start_time blocks n lt =
    let l : Loop = record { start_block = 0; last_stats = start_time } in
    run_round (pos number) now blocks l number (unfold set_start in uint64_of_int64_small number lt)
      (λ l' e. run_from blocks number l' n e)
