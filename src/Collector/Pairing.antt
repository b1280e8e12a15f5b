-- ===== src/Collector/Pairing.antt =====
-- continuous/collector.go: CollectContinuousTestStats, the part that pairs submissions with
-- inclusions by their trigger.
pub mod Partition
pub mod Sent
use shutter_tests.Prelude.{ℕ, List, [], ◌∷◌, Option, none, some, lookup, insert, int_eq}
use shutter_tests.Prelude.Int.{ℤ}
use shutter_tests.Prelude.Words.{int64_sub}
use shutter_tests.Collector.Cache.{Success}
use shutter_tests.Collector.Events.{Submission}

-- The map that the first loop fills: a later success with the same trigger replaces an earlier one.
unfoldable pub by_trigger : List Success → List (ℤ × Success) → List (ℤ × Success)
by_trigger [] m = m
by_trigger (s ∷ success) m = by_trigger success (insert s.trigger s m)

-- `len(failed)` is `failCnt`. A delay is an int64 difference of block numbers.
pub record Pairing : Type 0 where
  pub successful : List Success
  pub delays : List ℤ
  pub failed : List Submission

-- What the second loop does with a submission and what its trigger leads to.
unfoldable pub add_pair : Option Success → Submission → Pairing → Pairing
add_pair (some included) s p = record p {
  successful = included ∷ p.successful;
  delays = (int64_sub included.included s.sequenced) ∷ p.delays;
}
add_pair none s p = record p { failed = s ∷ p.failed }

unfoldable pub pair_up : List (ℤ × Success) → List Submission → Pairing
unfolding add_pair
pair_up m [] = record { successful = []; delays = []; failed = [] }
pair_up m (s ∷ submit) = add_pair (lookup s.trigger m) s (pair_up m submit)

unfoldable pub pairing : List Success → List Submission → Pairing
unfolding pair_up by_trigger
pairing success submit = pair_up (by_trigger success []) submit
