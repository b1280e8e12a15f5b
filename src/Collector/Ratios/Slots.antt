-- ===== src/Collector/Ratios/Slots.antt =====
-- continuous/collector.go: where the targeted slots of buildInnerTxHashToTargetSlotMap come from.
use mathlib.Core.List.{Mem, mem-cons_self, mem-cons_of_mem}
use shutter_tests.Prelude.{
  ℕ, ◌≡◌, ◌≢◌, ◌⊎◌, inl, inr, List, [], ◌∷◌, ◌++◌, some, lookup, lookup-insert, nat_eq, int_eq,
  ◌==◌, arith, Bool-cases, ==→≡, ==_refl, ◌∙◌,
}
use shutter_tests.Prelude.Int.{ℤ, pos}
use shutter_tests.Chain.{Transaction}
use shutter_tests.Continuous.Status.{Store, Status}
use shutter_tests.Collector.Ratios.{SlotMap, add_target_slots, inner_tx_hash_to_target_slot}

-- What the map holds for a hash comes from a transaction, and is never 0.
abbrev pub IsTarget : (Transaction → ℕ) → Store → List ℕ → ℕ → ℤ → Type 0
IsTarget hash store ps h slot =
    (p : ℕ) × Mem p ps
    × (hash (store p).inner_tx ≡ h)
    × ((store p).target_slot ≡ slot)
    × (slot ≢ pos 0)

add_target_slots-IsTarget :
    (hash : Transaction → ℕ) (store : Store) (ps : List ℕ) (m : SlotMap) (h : ℕ) (slot : ℤ)
    → lookup h (add_target_slots hash store ps m) ≡ some slot
    → IsTarget hash store ps h slot ⊎ (lookup h m ≡ some slot)
unfolding add_target_slots
add_target_slots-IsTarget hash store [] m h slot e = inr e
add_target_slots-IsTarget hash store (p ∷ ps) m h slot e =
    elim (add_target_slots-IsTarget hash store ps _ h slot e) [
      | inl (q, k, a, b, c) ↦ inl (q, mem-cons_of_mem p k, a, b, c)
      | inr k ↦ elim (Bool-cases ((store p).target_slot == pos 0)) [
        | inl t ↦ inr (ground (arith, t, k))
        | inr f ↦ elim (Bool-cases (hash (store p).inner_tx == h)) [
          | inl t ↦
              let y : (store p).target_slot ≡ slot =
                ground (
                  arith,
                  t,
                  k,
                  lookup-insert (hash (store p).inner_tx) h (store p).target_slot m,
                ) in
              inl (
                p,
                mem-cons_self,
                ==→≡ (hash (store p).inner_tx) h t,
                y,
                λ z. cc (f, y ∙ z, ==_refl (pos 0)),
              )
          | inr g ↦ inr (
              ground
                (arith, k, f, g, lookup-insert (hash (store p).inner_tx) h (store p).target_slot m))
        ]
      ]
    ]

-- What the map holds for a hash is the targeted slot of one of the transactions in memory, in flight
-- or done, that has this hash, and it is not 0.
pub inner_tx_hash_to_target_slot-IsTarget :
    (hash : Transaction → ℕ) (store : Store) (s : Status) (h : ℕ) (slot : ℤ)
    → lookup h (inner_tx_hash_to_target_slot hash store s) ≡ some slot
    → IsTarget hash store (s.tx_in_flight ++ s.tx_done) h slot
unfolding inner_tx_hash_to_target_slot lookup
inner_tx_hash_to_target_slot-IsTarget hash store s h slot e =
    elim (add_target_slots-IsTarget hash store (s.tx_in_flight ++ s.tx_done) [] h slot e) [
      | inl t ↦ t
      | inr k ↦ ground (arith, k)
    ]
