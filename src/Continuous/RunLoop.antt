-- ===== src/Continuous/RunLoop.antt =====
-- main.go: runContinuous, the ranges and the times of the statistics. CheckTxInFlight and
-- SendShutterizedTX, which it calls for each block, are steps of the System.
pub mod Ranges
use shutter_tests.Prelude.{ℕ, Option, none, some, List, [], ◌∷◌, nat_beq, if◌then◌else◌}
use shutter_tests.Prelude.Int.{ℤ, pos, ◌-ℤ◌, ltb_ℤ}
use shutter_tests.Prelude.Words.{uint64_of_int64}

-- The variables of the loop. Times are in seconds.
pub record Loop : Type 0 where
  pub start_block : ℕ
  pub last_stats : ℤ

-- A call of CollectContinuousTestStats: its range, and the time.
pub record StatsCall : Type 0 where
  pub from_block : ℕ
  pub to_block : ℕ
  pub time : ℤ

unfoldable pub set_start : ℤ → Loop → Loop
set_start number l =
    if nat_beq l.start_block 0 then record l { start_block = uint64_of_int64 number } else l

-- One round, with the block's number and the time after the transaction was sent.
unfoldable pub on_block : ℤ → ℤ → Loop → Loop × Option StatsCall
unfolding set_start
on_block number now l =
    let l' = set_start number l in
    if ltb_ℤ (pos 12) (now -ℤ l'.last_stats)
    then (
      record l' { last_stats = now },
      some (record { from_block = l'.start_block; to_block = uint64_of_int64 number; time = now }),
    )
    else (l', none)

-- The statistics that are collected while the blocks come in, each with the time.
unfoldable pub run_continuous : List (ℤ × ℤ) → Loop → List StatsCall
unfolding on_block
run_continuous [] l = []
run_continuous ((number, now) ∷ blocks) l =
    let rest = run_continuous blocks (on_block number now l).0 in
    elim (on_block number now l).1 [ none ↦ rest | some call ↦ call ∷ rest ]
