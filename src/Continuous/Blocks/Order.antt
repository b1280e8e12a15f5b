-- ===== src/Continuous/Blocks/Order.antt =====
-- continuous/continuous.go: the order of the blocks that are sent to the channel.
use shutter_tests.Prelude.{
  ◌-◌, List, [], ◌∷◌, ◌≡◌, ◌≢◌, subst, inl, inr, arith, Option-cases, All, Option, none, some,
  string_eq, int_eq,
}
use shutter_tests.Prelude.Int.{ℤ, pos, ◌+ℤ◌, ◌≤ℤ◌, ◌<ℤ◌}
use shutter_tests.Prelude.Words.{half_word, int64_of_uint64-uint64_of_int64}
use shutter_tests.Prelude.Outcomes.{Outcome, ok, err, panic, >>=-eq-ok, ok_injective}
use shutter_tests.Continuous.Blocks.{
  ShutterBlock, no_block, Rows, newest, query_newest_shutter_block, GraffitiRow, GraffitiSet,
  slot_after, query_graffiti_next_shutter_block, poll_standard, poll_graffiti, or_panic,
  query_all_graffiti,
}

-- The slot has a next one that is an int64.
abbrev pub IsSlot : ℤ → Type 0
IsSlot slot = (pos 0 ≤ℤ slot) × (slot <ℤ pos (half_word - 1))

abbrev pub HasSlot : Outcome GraffitiRow → Type 0
HasSlot (ok r) = IsSlot r.next_slot
HasSlot (err e) = Unit
HasSlot (panic p) = Unit

-- From a slot on, every targeted slot is at least two behind the one before it, and every block has a
-- time.
abbrev pub Spaced : ℤ → List ShutterBlock → Type 0
Spaced slot [] = Unit
Spaced slot (b ∷ bs) =
    (slot +ℤ pos 2 ≤ℤ b.targeted_slot) × (b.ts ≢ none) × Spaced b.targeted_slot bs

slot_after-small : (slot : ℤ) → IsSlot slot → slot_after slot ≡ slot +ℤ pos 1
unfolding slot_after ◌+ℤ◌
slot_after-small slot h = int64_of_uint64-uint64_of_int64 (slot +ℤ pos 1) (ground (arith, h))

query_graffiti-spaced :
    (graffitis : GraffitiSet) (slot : ℤ) (answer : Outcome GraffitiRow) (t : ℤ)
    → IsSlot slot
    → HasSlot answer
    → (query_graffiti_next_shutter_block graffitis slot answer).ts ≡ some t
    → let b = query_graffiti_next_shutter_block graffitis slot answer in
      (slot +ℤ pos 2 ≤ℤ b.targeted_slot) × IsSlot b.targeted_slot
unfolding query_graffiti_next_shutter_block no_block ◌+ℤ◌
query_graffiti-spaced graffitis slot (ok r) t h k e =
    ground (arith, h, k, e, slot_after-small slot h)
query_graffiti-spaced graffitis slot (err _) t h k e = ground (arith, e)
query_graffiti-spaced graffitis slot (panic _) t h k e = ground (arith, e)

poll_graffiti-Spaced_from :
    (graffitis : GraffitiSet) (answers : List (Outcome GraffitiRow)) (slot : ℤ)
    → IsSlot slot
    → All HasSlot answers
    → Spaced slot (poll_graffiti graffitis answers slot)
unfolding poll_graffiti
poll_graffiti-Spaced_from graffitis [] slot h k = tt
poll_graffiti-Spaced_from graffitis (answer ∷ answers) slot h (k, ks) =
    let block = query_graffiti_next_shutter_block graffitis slot answer in
    elim (Option-cases block.ts) [
      | inl e ↦ rw (poll_graffiti, e) (poll_graffiti-Spaced_from graffitis answers slot h ks)
      | inr (t, e) ↦
          let (far, small) = query_graffiti-spaced graffitis slot answer t h k e in
          rw (poll_graffiti, e)
            (
              far,
              (λ n. cc (e, n)),
              poll_graffiti-Spaced_from graffitis answers block.targeted_slot small ks,
            )
    ]

-- In graffiti mode, if the slots of the database are not negative and below the greatest int64, the
-- targeted slots of the blocks that are sent grow by two or more each time, so no slot is targeted
-- twice and no two consecutive ones are; and each block has a time.
pub query_all_graffiti-Spaced :
    (answer : Rows (Option ℤ)) (graffitis : GraffitiSet) (answers : List (Outcome GraffitiRow))
    (blocks : List ShutterBlock)
    → All HasSlot answers
    → query_all_graffiti answer graffitis answers ≡ ok blocks
    → Spaced (pos 0) blocks
unfolding query_all_graffiti
query_all_graffiti-Spaced answer graffitis answers blocks h k =
    let ((rows, error), _, e) = >>=-eq-ok (or_panic answer) _ k in
    subst (Spaced (pos 0)) (ok_injective e)
      (poll_graffiti-Spaced_from graffitis answers (pos 0) (omega arith) h)

-- The database answers with blocks later than the time that is asked for.
abbrev pub IsLater : ℤ → Rows (ℤ × Option ℤ) → Type 0
IsLater t (ok (rows, error)) = All (λ r. (u : ℤ) → r.1 ≡ some u → t <ℤ u) rows
IsLater t (err e) = Unit
IsLater t (panic p) = Unit

-- Every block has a time, later than the one before it.
abbrev pub Increasing : ℤ → List ShutterBlock → Type 0
Increasing t [] = Unit
Increasing t (b ∷ bs) = (u : ℤ) × (b.ts ≡ some u) × (t <ℤ u) × Increasing u bs

newest-IsLater :
    (block : ℤ) (rows : List (ℤ × Option ℤ)) (ts : Option ℤ) (t u : ℤ) (b : ShutterBlock)
    → ((v : ℤ) → ts ≡ some v → t <ℤ v)
    → All (λ r. (v : ℤ) → r.1 ≡ some v → t <ℤ v) rows
    → newest block ts rows ≡ ok b
    → b.ts ≡ some u
    → t <ℤ u
unfolding newest
newest-IsLater block [] ts t u b h k e f = h u (cc (e, f))
newest-IsLater block ((n, v) ∷ rows) ts t u b h (k, ks) e f =
    newest-IsLater n rows v t u b k ks (ground (arith, e)) f

query_newest-IsLater :
    (t u : ℤ) (answer : Rows (ℤ × Option ℤ)) (b : ShutterBlock)
    → IsLater t answer
    → query_newest_shutter_block answer ≡ ok b
    → b.ts ≡ some u
    → t <ℤ u
unfolding query_newest_shutter_block or_panic
query_newest-IsLater t u (ok (rows, error)) b h e f =
    newest-IsLater (pos 0) rows none t u b (λ v n. cc n) h e f
query_newest-IsLater t u (err _) b h e f = cc e
query_newest-IsLater t u (panic _) b h e f = cc e

-- In standard mode, if the database answers with blocks later than the time that it is asked for, the
-- times of the blocks that are sent increase.
pub poll_standard-Increasing :
    (asks : List (Option ℤ → Rows (ℤ × Option ℤ))) (t : ℤ) (blocks : List ShutterBlock)
    → All (λ ask. (u : ℤ) → IsLater u (ask (some u))) asks
    → poll_standard asks (some t) ≡ ok blocks
    → Increasing t blocks
unfolding poll_standard
poll_standard-Increasing [] t blocks h k = ground (arith, k)
poll_standard-Increasing (ask ∷ asks) t blocks (h, hs) k =
    let (b, e, f) = >>=-eq-ok (query_newest_shutter_block (ask (some t))) _ k in
    elim (Option-cases b.ts) [
      | inl n ↦ poll_standard-Increasing asks t blocks hs (ground (arith, n, f))
      | inr (u, n) ↦
          let (bs, c, d) =
            >>=-eq-ok {B = List ShutterBlock} (poll_standard asks (some u))
              (λ blocks. ok (b ∷ blocks)) (ground (arith, n, f)) in
          let later = query_newest-IsLater t u (ask (some t)) b (h t) e n in
          subst (Increasing t) (ok_injective d)
            (u, n, later, poll_standard-Increasing asks u bs hs c)
    ]
