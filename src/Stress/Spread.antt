-- ===== src/Stress/Spread.antt =====
-- stress/stress_test.go: when the constraint of TestStressExceedEncryptedGasLimit is satisfied.
use mathlib.Core.List.{Perm}
use mathlib.Core.List.Perm
use shutter_tests.Prelude.{
  ℕ, length, length-perm, ◌≤◌, ◌≡◌, refl, sym, ap, subst, ◌⊎◌, inl, inr, arith, List, [], ◌∷◌, All,
  All-imp, leb, nat_beq, nat_beq_iff, Bool-cases, true, false,
}
use shutter_tests.Prelude.Outcomes.{ok, err}
use shutter_tests.Chain.{Receipt}
use shutter_tests.Stress.Limit.{
  insert_receipt, sort_receipts, last_receipt, ends_differ, not_all_in_one_block,
}

-- Sorting rearranges the receipts.
insert-perm : (r : Receipt) (qs : List Receipt) → Perm (insert_receipt r qs) (r ∷ qs)
unfolding insert_receipt
insert-perm r [] = Perm.refl (r ∷ [])
insert-perm r (q ∷ qs) = elim (Bool-cases (leb r.block_number q.block_number)) [
  | inl t ↦ rw t (Perm.refl (r ∷ q ∷ qs))
  | inr t ↦ rw t (Perm.trans (Perm.cons q (insert-perm r qs)) (Perm.swap r q qs))
]

pub sort-perm : (rs : List Receipt) → Perm (sort_receipts rs) rs
unfolding sort_receipts
sort-perm [] = Perm.nil
sort-perm (r ∷ rs) = Perm.trans (insert-perm r (sort_receipts rs)) (Perm.cons r (sort-perm rs))

abbrev AtLeast : ℕ → Receipt → Type 0
AtLeast n r = n ≤ r.block_number

abbrev AtMost : ℕ → Receipt → Type 0
AtMost n r = r.block_number ≤ n

abbrev Ascending : List Receipt → Type 0
Ascending [] = Unit
Ascending (r ∷ rs) = All (AtLeast r.block_number) rs × Ascending rs

-- A predicate holds of all receipts after an insertion as it did before.
insert-All :
    (P : Receipt → Type 0) (r : Receipt) (qs : List Receipt)
    → P r
    → All P qs
    → All P (insert_receipt r qs)
unfolding insert_receipt
insert-All P r [] h all = (h, tt)
insert-All P r (q ∷ qs) h all = elim (Bool-cases (leb r.block_number q.block_number)) [
  | inl t ↦ rw t (h, all)
  | inr t ↦ rw t (all.0, insert-All P r qs h all.1)
]

insert_first :
    (r q : Receipt) (qs : List Receipt)
    → leb r.block_number q.block_number ≡ true
    → insert_receipt r (q ∷ qs) ≡ r ∷ q ∷ qs
unfolding insert_receipt
insert_first r q qs t = rw t refl

insert_later :
    (r q : Receipt) (qs : List Receipt)
    → leb r.block_number q.block_number ≡ false
    → insert_receipt r (q ∷ qs) ≡ q ∷ insert_receipt r qs
unfolding insert_receipt
insert_later r q qs t = rw t refl

insert-All_back :
    (P : Receipt → Type 0) (r : Receipt) (qs : List Receipt)
    → All P (insert_receipt r qs)
    → P r × All P qs
unfolding insert_receipt
insert-All_back P r [] all = all
insert-All_back P r (q ∷ qs) all = elim (Bool-cases (leb r.block_number q.block_number)) [
  | inl t ↦ subst (All P) (insert_first r q qs t) all
  | inr t ↦
      let moved = subst (All P) (insert_later r q qs t) all in
      let (h, rest) = insert-All_back P r qs moved.1 in (h, (moved.0, rest))
]

sort-All_back : (P : Receipt → Type 0) (rs : List Receipt) → All P (sort_receipts rs) → All P rs
unfolding sort_receipts
sort-All_back P [] all = tt
sort-All_back P (r ∷ rs) all =
    let (h, rest) = insert-All_back P r (sort_receipts rs) all in (h, sort-All_back P rs rest)

insert-Ascending :
    (r : Receipt) (qs : List Receipt) → Ascending qs → Ascending (insert_receipt r qs)
unfolding insert_receipt
insert-Ascending r [] a = (tt, tt)
insert-Ascending r (q ∷ qs) a = elim (Bool-cases (leb r.block_number q.block_number)) [
  | inl t ↦ rw t (
    (
      ground (arith, t),
      All-imp (AtLeast q.block_number) (AtLeast r.block_number) qs (λ x h. ground (arith, t, h))
          a.0,
    ),
    a,
  )
  | inr t ↦
      rw t (
        insert-All (AtLeast q.block_number) r qs (ground (arith, t)) a.0,
        insert-Ascending r qs a.1,
      )
]

sort-Ascending : (rs : List Receipt) → Ascending (sort_receipts rs)
unfolding sort_receipts
sort-Ascending [] = tt
sort-Ascending (r ∷ rs) = insert-Ascending r (sort_receipts rs) (sort-Ascending rs)

-- The last receipt has the greatest number.
last-AtMost :
    (r : Receipt) (rs : List Receipt)
    → Ascending (r ∷ rs)
    → All (AtMost (last_receipt r rs).block_number) (r ∷ rs)
unfolding last_receipt
last-AtMost r [] a = (omega arith, tt)
last-AtMost r (q ∷ qs) a = let rest = last-AtMost q qs a.1 in (omega (arith, a.0.0, rest.0), rest)

abbrev pub InBlock : ℕ → Receipt → Type 0
InBlock n r = r.block_number ≡ n

between : (n : ℕ) (rs : List Receipt) → All (AtLeast n) rs → All (AtMost n) rs → All (InBlock n) rs
between n [] lo hi = tt
between n (r ∷ rs) lo hi = (omega (arith, lo.0, hi.0), between n rs lo.1 hi.1)

last-InBlock :
    (n : ℕ) (r : Receipt) (rs : List Receipt)
    → All (InBlock n) (r ∷ rs)
    → (last_receipt r rs).block_number ≡ n
unfolding last_receipt
last-InBlock n r [] all = all.0
last-InBlock n r (q ∷ qs) all = last-InBlock n q qs all.1

-- Of sorted receipts the first and the last tell whether all are in one block.
ends-cases :
    (q : Receipt) (qs : List Receipt)
    → Ascending (q ∷ qs)
    → ((ends_differ (q ∷ qs) ≡ err "tx must not be all in the same block")
        × All (InBlock q.block_number) (q ∷ qs))
      ⊎ ((ends_differ (q ∷ qs) ≡ ok (q ∷ qs)) × ((n : ℕ) → ¬ All (InBlock n) (q ∷ qs)))
unfolding ends_differ
ends-cases q qs a = elim (Bool-cases (nat_beq q.block_number (last_receipt q qs).block_number)) [
  | inl t ↦ inl (
    rw t refl,
    (
      refl,
      between q.block_number qs a.0 (
          subst (λ n. All (AtMost n) qs)
            (sym ((nat_beq_iff q.block_number (last_receipt q qs).block_number).0 t))
            (last-AtMost q qs a).1),
    ),
  )
  | inr t ↦ inr (rw t refl, λ n all. absurd (ground (arith, t, all.0, last-InBlock n q qs all)))
]

sort-All : (P : Receipt → Type 0) (rs : List Receipt) → All P rs → All P (sort_receipts rs)
unfolding sort_receipts
sort-All P [] all = tt
sort-All P (r ∷ rs) all = insert-All P r (sort_receipts rs) all.0 (sort-All P rs all.1)

sorted-cases :
    (r : Receipt) (rs sorted : List Receipt)
    → sorted ≡ sort_receipts (r ∷ rs)
    → ((ends_differ sorted ≡ err "tx must not be all in the same block")
        × ((n : ℕ) × All (InBlock n) (r ∷ rs)))
      ⊎ ((ends_differ sorted ≡ ok sorted) × ((n : ℕ) → ¬ All (InBlock n) (r ∷ rs)))
sorted-cases r rs [] e = absurd (omega (arith, ap length e, length-perm (sort-perm (r ∷ rs))))
sorted-cases r rs (q ∷ qs) e =
    elim (ends-cases q qs (subst Ascending (sym e) (sort-Ascending (r ∷ rs)))) [
      | inl (same, all) ↦ inl (
        same,
        (
          q.block_number,
          sort-All_back (InBlock q.block_number) (r ∷ rs)
              (subst (All (InBlock q.block_number)) e all),
        ),
      )
      | inr (differ, other) ↦ inr (
        differ,
        λ n all. other n (subst (All (InBlock n)) (sym e) (sort-All (InBlock n) (r ∷ rs) all)),
      )
    ]

-- Whatever is sent, TestStressExceedEncryptedGasLimit is satisfied just where the receipts that it has
-- got, one at least, are not all in one block. It leaves the same receipts, in some order.
pub not_all_in_one_block-cases :
    (r : Receipt) (rs : List Receipt)
    → ((not_all_in_one_block (r ∷ rs) ≡ err "tx must not be all in the same block")
        × ((n : ℕ) × All (InBlock n) (r ∷ rs)))
      ⊎ ((sorted : List Receipt) × (not_all_in_one_block (r ∷ rs) ≡ ok sorted)
          × Perm sorted (r ∷ rs)
          × (¬ ((n : ℕ) × All (InBlock n) (r ∷ rs))))
unfolding not_all_in_one_block
not_all_in_one_block-cases r rs = elim (sorted-cases r rs (sort_receipts (r ∷ rs)) refl) [
  | inl same ↦ inl same
  | inr (differ, other) ↦
      inr (sort_receipts (r ∷ rs), differ, sort-perm (r ∷ rs), λ p. other p.0 p.1)
]
