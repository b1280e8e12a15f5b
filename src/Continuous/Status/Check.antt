-- ===== src/Continuous/Status/Check.antt =====
-- continuous/continuous.go: what CheckTxInFlight does to the two lists and to the transactions.
use mathlib.Core.Logic.{if_pos, if_neg}
use mathlib.Core.List.Perm
use mathlib.Core.List.{
  filter, append_assoc, Mem, Perm, perm_append_comm, mem-cons_self, mem-cons_of_mem, not-mem-nil,
  mem_of_ne_of_mem,
}
use shutter_tests.Prelude.{
  ℕ, true, false, List, [], ◌∷◌, ◌++◌, nat_beq, nat_beq_iff, ◌≡◌, refl, sym, ap, ◌∙◌, ◌⊎◌, inl, inr,
  arith, Bool-cases, subst, not, ◌≢◌, filter-split-perm,
}
use shutter_tests.Prelude.Int.{ℤ, pos}
use shutter_tests.Continuous.Tx.{cancel, ShutterTx}
use shutter_tests.Continuous.Status.{
  Store, Status, highest_inclusion, check_one, check_tx_in_flight,
}
use shutter_tests.Continuous.Status.Leaving.{IsOvertaken, dec_leaves, dec_stays}
use shutter_tests.Continuous.Status.Select.{
  check_one-Leaves, Leaves-check_one, is_in, checked, leaving, select, check_all-select,
}

select-leaves :
    (highest block : ℤ) (store : Store) (ps : List ℕ)
    → select (leaving highest block store) ps ≡ filter (λ p. dec_leaves highest (store p)) ps
unfolding select
select-leaves highest block store [] = refl
select-leaves highest block store (p ∷ ps) = elim (Bool-cases (leaving highest block store p)) [
  | inl e ↦
      rw (e, if_pos (dec_leaves highest (store p)) (check_one-Leaves highest block (store p) e))
        (ap (◌∷◌ p) (select-leaves highest block store ps))
  | inr e ↦
      rw
        (
          e,
          if_neg (dec_leaves highest (store p))
              (λ l. cc (e, Leaves-check_one highest block (store p) l)),
        )
        (select-leaves highest block store ps)
]

select-stays :
    (highest block : ℤ) (store : Store) (ps : List ℕ)
    → select (λ p. not (leaving highest block store p)) ps
      ≡ filter (λ p. dec_stays highest (store p)) ps
unfolding select
select-stays highest block store [] = refl
select-stays highest block store (p ∷ ps) = elim (Bool-cases (leaving highest block store p)) [
  | inl e ↦
      rw
        (
          e,
          if_neg (dec_stays highest (store p))
              (λ n. n (check_one-Leaves highest block (store p) e)),
        )
        (select-stays highest block store ps)
  | inr e ↦
      rw
        (
          e,
          if_pos (dec_stays highest (store p))
              (λ l. cc (e, Leaves-check_one highest block (store p) l)),
        )
        (ap (◌∷◌ p) (select-stays highest block store ps))
]

-- CheckTxInFlight keeps in flight, in order, exactly the transactions that were not overtaken by a
-- later inclusion, not included and not failed, and appends the others, in order, to the done ones.
pub check_tx_in_flight-lists :
    (block : ℤ) (store : Store) (s : Status)
    → let highest = highest_inclusion store (pos 0) s.tx_in_flight in
      let s' = (check_tx_in_flight block store s).1 in
      (s'.tx_in_flight ≡ filter (λ p. dec_stays highest (store p)) s.tx_in_flight)
      × (s'.tx_done ≡ s.tx_done ++ filter (λ p. dec_leaves highest (store p)) s.tx_in_flight)
unfolding check_tx_in_flight
check_tx_in_flight-lists block store s =
    let highest = highest_inclusion store (pos 0) s.tx_in_flight in
    let e = check_all-select highest block store s.tx_in_flight [] s.tx_done in
    (
      ap (λ r. r.1) e ∙ select-stays highest block store s.tx_in_flight,
      ap (λ r. r.2) e ∙ ap (◌++◌ s.tx_done) (select-leaves highest block store s.tx_in_flight),
    )

is_in-mem : (q : ℕ) (ps : List ℕ) → is_in q ps ≡ true → Mem q ps
is_in-mem q [] h = cc
is_in-mem q (p ∷ ps) h = elim (Bool-cases (nat_beq p q)) [
  | inl e ↦ subst (λ r. Mem q (r ∷ ps)) (sym ((nat_beq_iff p q).0 e)) mem-cons_self
  | inr e ↦ mem-cons_of_mem p (is_in-mem q ps (ground arith))
]

not_is_in-not_mem : (q : ℕ) (ps : List ℕ) → is_in q ps ≡ false → ¬ Mem q ps
not_is_in-not_mem q [] h m = not-mem-nil m
not_is_in-not_mem q (p ∷ ps) h m = not_is_in-not_mem q ps (ground arith) (mem_of_ne_of_mem differ m)
  where
    differ : q ≢ p
    differ = ground arith

check_one_overtaken :
    (highest block : ℤ) (tx : ShutterTx)
    → IsOvertaken highest tx
    → (check_one highest block tx).0 ≡ record tx { ctx = cancel tx.ctx; cancel_block = block }
unfolding check_one
check_one_overtaken highest block tx h = ground arith

IsOvertaken-or_unchanged :
    (highest block : ℤ) (tx : ShutterTx)
    → IsOvertaken highest tx ⊎ ((check_one highest block tx).0 ≡ tx)
unfolding check_one
IsOvertaken-or_unchanged highest block tx = ground arith

check_one_unchanged :
    (highest block : ℤ) (tx : ShutterTx)
    → ¬ IsOvertaken highest tx
    → (check_one highest block tx).0 ≡ tx
check_one_unchanged highest block tx h = elim (IsOvertaken-or_unchanged highest block tx) [
  | inl o ↦ absurd (h o)
  | inr e ↦ e
]

module _ (highest block : ℤ) (store : Store) (ps : List ℕ) (q : ℕ) where
  checked_overtaken :
      Mem q ps
      → IsOvertaken highest (store q)
      → checked highest block store ps q
        ≡ record (store q) { ctx = cancel (store q).ctx; cancel_block = block }
  checked_overtaken m o = elim (Bool-cases (is_in q ps)) [
    | inl e ↦ rw e (check_one_overtaken highest block (store q) o)
    | inr e ↦ absurd (not_is_in-not_mem q ps e m)
  ]

  checked_unchanged :
      ¬ (Mem q ps × IsOvertaken highest (store q)) → checked highest block store ps q ≡ store q
  checked_unchanged n = elim (Bool-cases (is_in q ps)) [
    | inl e ↦ rw e (check_one_unchanged highest block (store q) (λ o. n (is_in-mem q ps e, o)))
    | inr e ↦ rw e
  ]

-- CheckTxInFlight cancels the overtaken transactions in flight and notes the block at which it did
-- so. It changes no other transaction.
pub check_tx_in_flight-store :
    (block : ℤ) (store : Store) (s : Status) (q : ℕ)
    → let highest = highest_inclusion store (pos 0) s.tx_in_flight in
      let store' = (check_tx_in_flight block store s).0 in
      (Mem q s.tx_in_flight
        → IsOvertaken highest (store q)
        → store' q ≡ record (store q) { ctx = cancel (store q).ctx; cancel_block = block })
      × (¬ (Mem q s.tx_in_flight × IsOvertaken highest (store q)) → store' q ≡ store q)
unfolding check_tx_in_flight
check_tx_in_flight-store block store s q =
    let highest = highest_inclusion store (pos 0) s.tx_in_flight in
    let e = check_all-select highest block store s.tx_in_flight [] s.tx_done in
    rw (ap (λ r. r.0) e) (
      checked_overtaken highest block store s.tx_in_flight q,
      checked_unchanged highest block store s.tx_in_flight q,
    )

-- The shape of the store for proofs: a transaction is as it was, or was in flight and is checked.
pub check_tx_in_flight_cases :
    (block : ℤ) (store : Store) (s : Status) (q : ℕ)
    → let highest = highest_inclusion store (pos 0) s.tx_in_flight in
      ((check_tx_in_flight block store s).0 q ≡ store q)
      ⊎ (Mem q s.tx_in_flight
          × ((check_tx_in_flight block store s).0 q ≡ (check_one highest block (store q)).0))
unfolding check_tx_in_flight
check_tx_in_flight_cases block store s q =
    let highest = highest_inclusion store (pos 0) s.tx_in_flight in
    let e = check_all-select highest block store s.tx_in_flight [] s.tx_done in
    elim (Bool-cases (is_in q s.tx_in_flight)) [
      | inl t ↦ inr (is_in-mem q s.tx_in_flight t, ap (λ r. r.0 q) e ∙ rw t)
      | inr f ↦ inl (ap (λ r. r.0 q) e ∙ rw f)
    ]

-- CheckTxInFlight loses no transaction and makes none up.
pub check_tx_in_flight-perm :
    (block : ℤ) (store : Store) (s : Status)
    → let s' = (check_tx_in_flight block store s).1 in
      Perm (s'.tx_in_flight ++ s'.tx_done) (s.tx_in_flight ++ s.tx_done)
check_tx_in_flight-perm block store s =
    let highest = highest_inclusion store (pos 0) s.tx_in_flight in
    let stays = filter (λ p. dec_stays highest (store p)) s.tx_in_flight in
    let leaves = filter (λ p. dec_leaves highest (store p)) s.tx_in_flight in
    let e = check_tx_in_flight-lists block store s in
    rw (e.0, e.1)
      (Perm.trans (Perm.append_left stays (perm_append_comm s.tx_done leaves)) (
        subst (λ l. Perm l (s.tx_in_flight ++ s.tx_done)) (append_assoc stays leaves s.tx_done)
          (Perm.append_right s.tx_done (
            filter-split-perm (λ p. dec_leaves highest (store p)) (λ p. dec_stays highest (store p))
              s.tx_in_flight))))
