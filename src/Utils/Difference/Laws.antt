-- ===== src/Utils/Difference/Laws.antt =====
-- utils/utils.go: what Difference returns.
use mathlib.Core.List.{Mem, filter, dec_mem, mem-cons_self, mem-cons_of_mem, mem_of_ne_of_mem}
use mathlib.Core.Logic.{ite, if_pos, if_neg}
use shutter_tests.Prelude.{
  Bool, true, List, [], ◌∷◌, Option, some, lookup, insert, int_eq, lookup-insert, ◌≡◌, refl, arith,
  ◌==◌, if◌then◌else◌, ◌∙◌, false, ==_refl, ◌≢◌,
}
use shutter_tests.Prelude.Int.{ℤ, int_beq_iff}
use native.Mathlib.Decide.{ℕ_discrete}
use shutter_tests.Utils.Difference.{mark_all, absent_from, difference}

pub ℤ-discrete : Discrete ℤ
ℤ-discrete = hlevel ℕ_discrete

-- Whether a number is not in a list.
abbrev pub dec_absent : (b : List ℤ) (x : ℤ) → Dec (¬ Mem x b)
dec_absent b x = elim (dec_mem ℤ-discrete x b) [ yes m ↦ no (λ f. f m) | no n ↦ yes n ]

absent_or_not :
    (x y : ℤ) (b : List ℤ) (o : Option Bool)
    → ite (dec_mem ℤ-discrete x b) (some true) (if y == x then some true else o)
      ≡ ite (dec_mem ℤ-discrete x (y ∷ b)) (some true) o
absent_or_not x y b o = elim (dec_mem ℤ-discrete x b) [
  | yes p ↦ rw (
    if_pos (dec_mem ℤ-discrete x b) p,
    if_pos (dec_mem ℤ-discrete x (y ∷ b)) (mem-cons_of_mem y p),
  )
  | no n ↦ rw (if_neg (dec_mem ℤ-discrete x b) n) (elim (ℤ-discrete x y) [
    | yes e ↦ rw (← e, ==_refl x, if_pos (dec_mem ℤ-discrete x (x ∷ b)) mem-cons_self (some true) o)
    | no ne ↦ rw (differ ne, if_neg (dec_mem ℤ-discrete x (y ∷ b)) (λ k. n (mem_of_ne_of_mem ne k)))
  ])
]
  where
    differ : x ≢ y → (y == x) ≡ false
    differ ne = ground (arith, int_beq_iff y x)

lookup-mark_all :
    (x : ℤ) (b : List ℤ) (m : List (ℤ × Bool))
    → lookup x (mark_all b m) ≡ ite (dec_mem ℤ-discrete x b) (some true) (lookup x m)
unfolding mark_all
lookup-mark_all x [] m = refl
lookup-mark_all x (y ∷ b) m =
    lookup-mark_all x b (insert y true m)
    ∙ rw (lookup-insert y x true m) (absent_or_not x y b (lookup x m))

absent_from-filter : (a b : List ℤ) → absent_from (mark_all b []) a ≡ filter (dec_absent b) a
unfolding absent_from lookup
absent_from-filter [] b = refl
absent_from-filter (x ∷ a) b =
    rw (lookup-mark_all x b [], absent_from-filter a b)
      (elim (dec_mem ℤ-discrete x b) [
        | yes p ↦ rw (if_pos (dec_mem ℤ-discrete x b) p, if_neg (dec_absent b x) (λ f. f p))
        | no n ↦ rw (if_neg (dec_mem ℤ-discrete x b) n, if_pos (dec_absent b x) n)
      ])

-- `Difference(a, b)` is the elements of a that are not in b, in the order of a and as often as
-- they stand there.
pub difference-filter : (a b : List ℤ) → difference a b ≡ filter (dec_absent b) a
unfolding difference
difference-filter a b = absent_from-filter a b
