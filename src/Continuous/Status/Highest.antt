-- ===== src/Continuous/Status/Highest.antt =====
-- continuous/continuous.go: the first loop of CheckTxInFlight.
use mathlib.Core.List.{Mem, mem-cons_self, mem-cons_of_mem}
use shutter_tests.Prelude.{
  ℕ, List, [], ◌∷◌, if◌then◌else◌, ◌≡◌, refl, sym, ◌∙◌, ◌⊎◌, inl, inr, arith, Bool-cases, All,
}
use shutter_tests.Prelude.Int.{ℤ, pos, ltb_ℤ, ◌≤ℤ◌}
use shutter_tests.Continuous.Status.{Store, highest_inclusion}

highest_inclusion-ge_start :
    (store : Store) (h : ℤ) (ps : List ℕ) → h ≤ℤ highest_inclusion store h ps
unfolding highest_inclusion
highest_inclusion-ge_start store h [] = omega arith
highest_inclusion-ge_start store h (p ∷ ps) = ground (
  arith,
  highest_inclusion-ge_start store h ps,
  highest_inclusion-ge_start store (store p).inclusion_block ps,
)

highest_inclusion-ge :
    (store : Store) (h : ℤ) (ps : List ℕ)
    → All (λ p. (store p).inclusion_block ≤ℤ highest_inclusion store h ps) ps
unfolding highest_inclusion
highest_inclusion-ge store h [] = tt
highest_inclusion-ge store h (p ∷ ps) =
    let h' = if ltb_ℤ h (store p).inclusion_block then (store p).inclusion_block else h in
    (
      ground (
        arith,
        highest_inclusion-ge_start store h ps,
        highest_inclusion-ge_start store (store p).inclusion_block ps,
      ),
      highest_inclusion-ge store h' ps,
    )

highest_inclusion-attained :
    (store : Store) (h : ℤ) (ps : List ℕ)
    → (highest_inclusion store h ps ≡ h)
      ⊎ ((p : ℕ) × Mem p ps × ((store p).inclusion_block ≡ highest_inclusion store h ps))
unfolding highest_inclusion
highest_inclusion-attained store h [] = inl refl
highest_inclusion-attained store h (p ∷ ps) =
    let h' = if ltb_ℤ h (store p).inclusion_block then (store p).inclusion_block else h in
    elim (highest_inclusion-attained store h' ps) [
      | inl e ↦ elim (Bool-cases (ltb_ℤ h (store p).inclusion_block)) [
        | inl t ↦ inr (p, mem-cons_self, sym (e ∙ rw t))
        | inr f ↦ inl (e ∙ rw f)
      ]
      | inr (q, m, e) ↦ inr (q, mem-cons_of_mem p m, e)
    ]

-- What CheckTxInFlight compares with is the greatest of 0 and the inclusion blocks of the
-- transactions in flight: none is above it, and it is 0 or one of them.
pub highest_inclusion-greatest :
    (store : Store) (ps : List ℕ)
    → let highest = highest_inclusion store (pos 0) ps in
      (pos 0 ≤ℤ highest)
      × All (λ p. (store p).inclusion_block ≤ℤ highest) ps
      × ((highest ≡ pos 0) ⊎ ((p : ℕ) × Mem p ps × ((store p).inclusion_block ≡ highest)))
highest_inclusion-greatest store ps = (
  highest_inclusion-ge_start store (pos 0) ps,
  highest_inclusion-ge store (pos 0) ps,
  highest_inclusion-attained store (pos 0) ps,
)
