-- ===== src/Collector/Pairing/Partition.antt =====
-- continuous/collector.go: every submission either failed or is paired with the last success of its
-- trigger.
use mathlib.Core.List.{Mem, filter, mem-cons_self, mem-cons_of_mem}
use mathlib.Core.Logic.{if_pos, if_neg}
use shutter_tests.Prelude.{
  ◌+◌, List, [], ◌∷◌, Option, none, some, lookup, insert, lookup-insert, int_eq, ◌==◌, ==→≡, ◌≡◌,
  refl, sym, ap, ◌∙◌, inl, inr, arith, length, if◌then◌else◌, Bool-cases, Option-cases, All,
  All-imp, ◌≢◌, subst,
}
use shutter_tests.Prelude.Int.{ℤ, int_beq_iff}
use shutter_tests.Collector.Cache.{Success}
use shutter_tests.Collector.Events.{Submission}
use shutter_tests.Collector.Pairing.{by_trigger, pair_up, pairing, add_pair}

-- The last success with a trigger.
abbrev pub last_of : ℤ → List Success → Option Success
last_of trigger [] = none
last_of trigger (s ∷ success) = elim (last_of trigger success) [
  | some later ↦ some later
  | none ↦ if s.trigger == trigger then some s else none
]

lookup-by_trigger :
    (trigger : ℤ) (success : List Success) (m : List (ℤ × Success))
    → lookup trigger (by_trigger success m)
      ≡ (elim (last_of trigger success) [ some later ↦ some later | none ↦ lookup trigger m ])
unfolding by_trigger
lookup-by_trigger trigger [] m = refl
lookup-by_trigger trigger (s ∷ success) m = ground (
  arith,
  lookup-by_trigger trigger success (insert s.trigger s m),
  lookup-insert s.trigger trigger s m,
)

-- No success has the submission's trigger.
abbrev pub Unmatched : List Success → Submission → Type 0
Unmatched success s = All (λ x. x.trigger ≢ s.trigger) success

last_of-none :
    (s : Submission) (success : List Success)
    → last_of s.trigger success ≡ none
    → Unmatched success s
last_of-none s [] h = tt
last_of-none s (x ∷ success) h = elim (Option-cases (last_of s.trigger success)) [
  | inl e ↦ ((λ k. ground (arith, int_beq_iff x.trigger s.trigger)), last_of-none s success e)
  | inr (y, e) ↦ absurd (ground arith)
]

Unmatched-last_of :
    (s : Submission) (success : List Success)
    → Unmatched success s
    → last_of s.trigger success ≡ none
Unmatched-last_of s [] h = refl
Unmatched-last_of s (x ∷ success) h =
    ground (arith, Unmatched-last_of s success h.1, int_beq_iff x.trigger s.trigger)

last_of-some :
    (trigger : ℤ) (success : List Success) (x : Success)
    → last_of trigger success ≡ some x
    → (x.trigger ≡ trigger) × Mem x success
last_of-some trigger [] x h = cc
last_of-some trigger (y ∷ success) x h = elim (Option-cases (last_of trigger success)) [
  | inr (z, e) ↦
      let same : ◌≡◌ {A = Option Success} (some z) (some x) = ground arith in
      let (t, m) = last_of-some trigger success x (e ∙ same) in (t, mem-cons_of_mem y m)
  | inl e ↦ elim (Bool-cases (y.trigger == trigger)) [
    | inl t ↦
        let same : y ≡ x = ground arith in
        (
          ap (λ (k : Success). k.trigger) (sym same) ∙ ==→≡ y.trigger trigger t,
          subst (λ k. Mem k (y ∷ success)) same mem-cons_self,
        )
    | inr f ↦ absurd (ground arith)
  ]
]

pub dec_unmatched : (success : List Success) (s : Submission) → Dec (Unmatched success s)
dec_unmatched success s = elim (Option-cases (last_of s.trigger success)) [
  | inl e ↦ yes (last_of-none s success e)
  | inr (x, e) ↦ no (λ u. cc (e, Unmatched-last_of s success u))
]

looked_up :
    (success : List Success) (s : Submission)
    → lookup s.trigger (by_trigger success []) ≡ last_of s.trigger success
unfolding lookup
looked_up success s = lookup-by_trigger s.trigger success [] ∙ ground arith

module _ (success : List Success) where
  pair_up-failed :
      (submit : List Submission)
      → (pair_up (by_trigger success []) submit).failed ≡ filter (dec_unmatched success) submit
  unfolding pair_up
  pair_up-failed [] = refl
  pair_up-failed (s ∷ submit) = elim (Option-cases (last_of s.trigger success)) [
    | inl e ↦
        rw (looked_up success s ∙ e, if_pos (dec_unmatched success s) (last_of-none s success e))
          (ap (◌∷◌ s) (pair_up-failed submit))
    | inr (x, e) ↦
        rw
          (
            looked_up success s ∙ e,
            if_neg (dec_unmatched success s) (λ u. cc (e, Unmatched-last_of s success u)),
          )
          (pair_up-failed submit)
  ]

  pair_up-counts :
      (submit : List Submission)
      → let p = pair_up (by_trigger success []) submit in
        (length p.successful + length p.failed ≡ length submit)
        × (length p.delays ≡ length p.successful)
  unfolding pair_up
  pair_up-counts [] = (omega arith, refl)
  pair_up-counts (s ∷ submit) = ground (arith, pair_up-counts submit)

  abbrev IsPaired : List Submission → Success → Type 0
  IsPaired submit x = Mem x success × ((s : Submission) × Mem s submit × (x.trigger ≡ s.trigger))

  pair_up-successful :
      (submit : List Submission)
      → All
          (λ x. Mem x success × ((s : Submission) × Mem s submit × (x.trigger ≡ s.trigger)))
          (pair_up (by_trigger success []) submit).successful
  unfolding pair_up
  pair_up-successful [] = tt
  pair_up-successful (s ∷ submit) =
      let more =
        All-imp (IsPaired submit) (IsPaired (s ∷ submit)) _
          (λ x (m, (t, k, e)). (m, (t, mem-cons_of_mem s k, e))) (pair_up-successful submit) in
      elim (Option-cases (last_of s.trigger success)) [
        | inl e ↦ rw (looked_up success s ∙ e, add_pair) more
        | inr (x, e) ↦
            let (t, m) = last_of-some s.trigger success x e in
            rw (looked_up success s ∙ e, add_pair) ((m, (s, mem-cons_self, t)), more)
      ]

-- The submissions that are counted as failed are exactly those with a trigger that no success has, in
-- their order.
pub pairing-failed :
    (success : List Success) (submit : List Submission)
    → (pairing success submit).failed ≡ filter (dec_unmatched success) submit
unfolding pairing
pairing-failed success submit = pair_up-failed success submit

-- Every submission counts once, as failed or as successful, and every success has one delay.
pub pairing-counts :
    (success : List Success) (submit : List Submission)
    → let p = pairing success submit in
      (length p.successful + length p.failed ≡ length submit)
      × (length p.delays ≡ length p.successful)
unfolding pairing
pairing-counts success submit = pair_up-counts success submit

-- What is reported as successful was collected, and has the trigger of a submission.
pub pairing-successful :
    (success : List Success) (submit : List Submission)
    → All
        (λ x. Mem x success × ((s : Submission) × Mem s submit × (x.trigger ≡ s.trigger)))
        (pairing success submit).successful
unfolding pairing
pairing-successful success submit = pair_up-successful success submit
