-- ===== src/Utils/Difference.antt =====
-- utils/utils.go: the elements of one list that are not in another.
pub mod Laws
use shutter_tests.Prelude.{
  Bool, true, List, [], ◌∷◌, ◌++◌, Option, none, some, lookup, insert, int_eq,
}
use shutter_tests.Prelude.Int.{ℤ}

-- The map that the first loop fills.
pub mark_all : List ℤ → List (ℤ × Bool) → List (ℤ × Bool)
mark_all [] m = m
mark_all (item ∷ b) m = mark_all b (insert item true m)

keep_if_absent : Option Bool → ℤ → List ℤ → List ℤ
keep_if_absent none item rest = item ∷ rest
keep_if_absent (some _) item rest = rest

-- The second loop: `diff` is appended to in order.
pub absent_from : List (ℤ × Bool) → List ℤ → List ℤ
unfolding keep_if_absent
absent_from m [] = []
absent_from m (item ∷ a) = keep_if_absent (lookup item m) item (absent_from m a)

unfoldable pub difference : List ℤ → List ℤ → List ℤ
unfolding absent_from mark_all
difference a b = absent_from (mark_all b []) a
