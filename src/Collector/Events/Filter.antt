-- ===== src/Collector/Events/Filter.antt =====
-- continuous/collector.go: which events become submissions.
use mathlib.Core.List.{filter}
use shutter_tests.Prelude.{
  ℕ, List, [], ◌∷◌, map, ◌≡◌, refl, ap, ◌<◌, ◌+◌, true, Bool-cases, inl, inr, arith, ◌%◌,
}
use native.Mathlib.Decide.{dec_le}
use mathlib.Core.Logic.{if_pos, if_neg}
use shutter_tests.Prelude.Int.{pos, pos_part, neg_part, ◌≤ℤ◌}
use shutter_tests.Prelude.Words.{half_word, word, int64_of_uint64_small}
use shutter_tests.Collector.Events.{
  Submission, SequencerEvent, submission_of, in_range, last_trigger, read_events,
}

-- A submission of the range: its trigger is neither below the start nor more than 1000 above the end.
abbrev pub InRange : ℕ → ℕ → Submission → Type 0
InRange start_block end_block s =
    (pos start_block ≤ℤ s.trigger) × (s.trigger ≤ℤ pos (end_block + 1000))

in_range-InRange :
    (start_block end_block : ℕ) (s : Submission)
    → start_block < half_word
    → end_block + 1000 < half_word
    → (in_range start_block end_block s ≡ true → InRange start_block end_block s)
      × (InRange start_block end_block s → in_range start_block end_block s ≡ true)
unfolding in_range last_trigger
in_range-InRange start_block end_block s h k =
    rw
      (
        int64_of_uint64_small start_block h,
        int64_of_uint64_small ((end_block + 1000) % word) (omega arith),
      )
      (λ e. ground arith, λ e. ground arith)

unfoldable pub dec_in_range :
    (start_block end_block : ℕ) (s : Submission) → Dec (InRange start_block end_block s)
dec_in_range start_block end_block s =
    elim (dec_le (pos_part (pos start_block) + neg_part s.trigger)
      (pos_part s.trigger + neg_part (pos start_block))) [
        | no n ↦ no (λ h. n h.0)
        | yes p ↦ elim (dec_le (pos_part s.trigger + 0) (end_block + 1000 + neg_part s.trigger)) [
          | yes q ↦ yes (p, q)
          | no n ↦ no (λ h. n h.1)
        ]
      ]

-- The submissions are those of the events, in their order, whose trigger lies in the range, for block
-- numbers that leave room for the margin of 1000 in an int64.
pub read_events-filter :
    (start_block end_block : ℕ) (events : List SequencerEvent)
    → start_block < half_word
    → end_block + 1000 < half_word
    → read_events start_block end_block events
      ≡ filter (dec_in_range start_block end_block) (map submission_of events)
unfolding read_events
read_events-filter start_block end_block [] h k = refl
read_events-filter start_block end_block (ev ∷ events) h k =
    let s = submission_of ev in
    let iff = in_range-InRange start_block end_block s h k in
    let rest = read_events-filter start_block end_block events h k in
    elim (Bool-cases (in_range start_block end_block s)) [
      | inl t ↦ rw (t, if_pos (dec_in_range start_block end_block s) (iff.0 t)) (ap (◌∷◌ s) rest)
      | inr f ↦ rw (f, if_neg (dec_in_range start_block end_block s) (λ r. cc (f, iff.1 r))) rest
    ]
