-- ===== src/Collector/Ratios/Counts.antt =====
-- continuous/collector.go: what the counters count.
use shutter_tests.Prelude.{
  ℕ, ◌+◌, ◌≤◌, ◌≡◌, refl, sym, ◌⊎◌, inl, inr, String, Bool, true, false, ◌&&◌, List, [], ◌∷◌, none,
  some, nat_eq, string_eq, int_eq, ◌==◌, if◌then◌else◌, arith, Bool-cases, All, subst, ==→≡,
}
use shutter_tests.Prelude.Outcomes.{Outcome, ok, err, panic}
use shutter_tests.Collector.Ratios.{
  SlotMap, Row, Counters, zero_counters, is_late, is_on_target, count_row, count_rows, count_status,
  query_status_ratios,
}

-- How many of the scanned rows pass a test.
abbrev pub number_of : (Row → Bool) → List (Outcome Row) → ℕ
number_of test [] = 0
number_of test (ok r ∷ rows) = (if test r then 1 else 0) + number_of test rows
number_of test (err e ∷ rows) = number_of test rows
number_of test (panic p ∷ rows) = number_of test rows

abbrev has_status : String → Row → Bool
has_status status r = r.tx_status == status

pub record Counted (graffiti_mode : Bool) (m : SlotMap) (rows : List (Outcome Row))
    (c c' : Counters) : Type 0 where
  pub count : c'.count ≡ c.count + number_of (λ r. true) rows
  pub shielded : c'.shielded ≡ c.shielded + number_of (has_status "shielded inclusion") rows
  pub unshielded : c'.unshielded ≡ c.unshielded + number_of (has_status "unshielded inclusion") rows
  pub not_included : c'.not_included ≡ c.not_included + number_of (has_status "not included") rows
  pub pending : c'.pending ≡ c.pending + number_of (has_status "pending") rows
  pub in_targeted_slot :
      c'.in_targeted_slot
      ≡ c.in_targeted_slot
        + number_of (λ r. has_status "shielded inclusion" r && is_on_target graffiti_mode m r) rows
  pub invalid_for_target :
      c'.invalid_for_target ≡ c.invalid_for_target + number_of (is_late graffiti_mode m) rows

-- The four statuses exclude one another.
other_status :
    (r : Row) (a b : String)
    → (r.tx_status == a) ≡ true
    → (a == b) ≡ false
    → (r.tx_status == b) ≡ false
other_status r a b h k = subst (λ s. (s == b) ≡ false) (sym (==→≡ r.tx_status a h)) k

count_row-Counted :
    (graffiti_mode : Bool) (m : SlotMap) (r : Row) (c : Counters)
    → Counted graffiti_mode m (ok r ∷ []) c (count_row graffiti_mode m (ok r) c)
unfolding count_row count_status
count_row-Counted graffiti_mode m r c = elim (Bool-cases (r.tx_status == "shielded inclusion")) [
  | inl h ↦ ground (
    arith,
    other_status r "shielded inclusion" "unshielded inclusion" h refl,
    other_status r "shielded inclusion" "not included" h refl,
    other_status r "shielded inclusion" "pending" h refl,
  )
  | inr n ↦ elim (Bool-cases (r.tx_status == "unshielded inclusion")) [
    | inl h ↦ ground (
      arith,
      other_status r "unshielded inclusion" "not included" h refl,
      other_status r "unshielded inclusion" "pending" h refl,
    )
    | inr k ↦ elim (Bool-cases (r.tx_status == "not included")) [
      | inl h ↦ ground (arith, other_status r "not included" "pending" h refl)
      | inr l ↦ ground arith
    ]
  ]
]

count_rows-Counted :
    (graffiti_mode : Bool) (m : SlotMap) (rows : List (Outcome Row)) (c : Counters)
    → Counted graffiti_mode m rows c (count_rows graffiti_mode m rows c)
unfolding count_rows count_row
count_rows-Counted graffiti_mode m [] c = omega arith
count_rows-Counted graffiti_mode m (err e ∷ rows) c =
    omega (arith, count_rows-Counted graffiti_mode m rows c)
count_rows-Counted graffiti_mode m (panic p ∷ rows) c =
    omega (arith, count_rows-Counted graffiti_mode m rows c)
count_rows-Counted graffiti_mode m (ok r ∷ rows) c = omega (
  arith,
  count_row-Counted graffiti_mode m r c,
  count_rows-Counted graffiti_mode m rows (count_row graffiti_mode m (ok r) c),
)

-- The number of rows that pass a test is at most that of the rows that pass a weaker one.
number_of_mono :
    (f g : Row → Bool) (rows : List (Outcome Row))
    → ((r : Row) → f r ≡ true → g r ≡ true)
    → number_of f rows ≤ number_of g rows
number_of_mono f g [] h = omega arith
number_of_mono f g (err e ∷ rows) h = number_of_mono f g rows h
number_of_mono f g (panic p ∷ rows) h = number_of_mono f g rows h
number_of_mono f g (ok r ∷ rows) h = ground (arith, h r, number_of_mono f g rows h)

-- Every row has one of the four statuses.
abbrev pub IsKnown : Outcome Row → Type 0
IsKnown (ok r) =
    (r.tx_status ≡ "shielded inclusion")
    ⊎ ((r.tx_status ≡ "unshielded inclusion")
        ⊎ ((r.tx_status ≡ "not included") ⊎ (r.tx_status ≡ "pending")))
IsKnown (err e) = Unit
IsKnown (panic p) = Unit

status_total :
    (rows : List (Outcome Row))
    → All IsKnown rows
    → number_of (has_status "shielded inclusion") rows
        + number_of (has_status "unshielded inclusion") rows
        + number_of (has_status "not included") rows
        + number_of (has_status "pending") rows
      ≡ number_of (λ r. true) rows
status_total [] h = refl
status_total (err e ∷ rows) h = status_total rows h.1
status_total (panic p ∷ rows) h = status_total rows h.1
status_total (ok r ∷ rows) (inl e, h) = rw e (omega (arith, status_total rows h))
status_total (ok r ∷ rows) (inr (inl e), h) = rw e (omega (arith, status_total rows h))
status_total (ok r ∷ rows) (inr (inr (inl e)), h) = rw e (omega (arith, status_total rows h))
status_total (ok r ∷ rows) (inr (inr (inr e)), h) = rw e (omega (arith, status_total rows h))

counted_result : (x c : Counters) → ok (if x.count == 0 then none else some x) ≡ ok (some c) → x ≡ c
counted_result x c h = ground arith

abbrev used_map : Bool → SlotMap → SlotMap
used_map graffiti_mode m = if graffiti_mode then m else []

-- Each counter is the number of the scanned rows that it is named for. Those included in the targeted
-- slot are among the shielded ones.
pub query_status_ratios-counts :
    (graffiti_mode : Bool) (m : SlotMap) (rows : List (Outcome Row)) (c : Counters)
    → query_status_ratios graffiti_mode m (ok (rows, none)) ≡ ok (some c)
    → let used = if graffiti_mode then m else [] in
      Counted graffiti_mode used rows zero_counters c × (c.in_targeted_slot ≤ c.shielded)
unfolding query_status_ratios
query_status_ratios-counts graffiti_mode m rows c h =
    let used = used_map graffiti_mode m in
    let counted =
      subst (Counted graffiti_mode used rows zero_counters)
        (counted_result (count_rows graffiti_mode used rows zero_counters) c h)
        (count_rows-Counted graffiti_mode used rows zero_counters) in
    (
      counted,
      omega (
        arith,
        counted.shielded,
        counted.in_targeted_slot,
        number_of_mono (λ r. has_status "shielded inclusion" r && is_on_target graffiti_mode used r)
            (has_status "shielded inclusion") rows (λ r t. ground arith),
      ),
    )

-- If every row has one of the four statuses, the four shares add up to the whole.
pub query_status_ratios-total :
    (graffiti_mode : Bool) (m : SlotMap) (rows : List (Outcome Row)) (c : Counters)
    → All IsKnown rows
    → query_status_ratios graffiti_mode m (ok (rows, none)) ≡ ok (some c)
    → c.shielded + c.unshielded + c.not_included + c.pending ≡ c.count
query_status_ratios-total graffiti_mode m rows c known h =
    unfold zero_counters in
    omega (arith, status_total rows known, (query_status_ratios-counts graffiti_mode m rows c h).0)
