-- ===== src/Continuous/Status/Select.antt =====
-- continuous/continuous.go: the second loop of CheckTxInFlight, by what it selects.
use mathlib.Core.Path.{fun_ext}
use mathlib.Core.List.{append_assoc, append-nil}
use shutter_tests.Prelude.{
  ℕ, Bool, true, false, List, [], ◌∷◌, ◌++◌, if◌then◌else◌, nat_beq, nat_beq_iff, ◌≡◌, refl, ◌∙◌,
  arith, ◌||◌, not,
}
use shutter_tests.Prelude.Int.{ℤ}
use shutter_tests.Continuous.Tx.{cancel, ShutterTx}
use shutter_tests.Continuous.Status.{Store, update, check_one, check_all}
use shutter_tests.Continuous.Status.Leaving.{Leaves}

pub check_one-Leaves :
    (highest block : ℤ) (tx : ShutterTx) → (check_one highest block tx).1 ≡ true → Leaves highest tx
unfolding check_one
check_one-Leaves highest block tx h = ground arith

pub Leaves-check_one :
    (highest block : ℤ) (tx : ShutterTx) → Leaves highest tx → (check_one highest block tx).1 ≡ true
unfolding check_one
Leaves-check_one highest block tx h = ground arith

-- Checking a transaction again changes nothing more.
check_one-check_one :
    (highest block : ℤ) (tx : ShutterTx)
    → check_one highest block (check_one highest block tx).0 ≡ check_one highest block tx
unfolding check_one cancel
check_one-check_one highest block tx = ground arith

-- The store after a check of the pointers of a list.
abbrev pub is_in : ℕ → List ℕ → Bool
is_in q [] = false
is_in q (p ∷ ps) = nat_beq p q || is_in q ps

abbrev pub checked : ℤ → ℤ → Store → List ℕ → Store
checked highest block store ps q =
    if is_in q ps then (check_one highest block (store q)).0 else store q

unfoldable pub select : (ℕ → Bool) → List ℕ → List ℕ
select f [] = []
select f (p ∷ ps) = if f p then p ∷ select f ps else select f ps

abbrev pub leaving : ℤ → ℤ → Store → ℕ → Bool
leaving highest block store p = (check_one highest block (store p)).1

module _ (highest block : ℤ) (store : Store) where
  store_after : ℕ → Store
  store_after p = update store p (check_one highest block (store p)).0

  checked_after :
      (p : ℕ) (ps : List ℕ) (q : ℕ)
      → checked highest block (store_after p) ps q ≡ checked highest block store (p ∷ ps) q
  unfolding store_after
  checked_after p ps q =
      ground (arith, check_one-check_one highest block (store q), nat_beq_iff p q)

  leaving_after :
      (p q : ℕ) → leaving highest block (store_after p) q ≡ leaving highest block store q
  unfolding store_after
  leaving_after p q = ground (arith, check_one-check_one highest block (store q), nat_beq_iff p q)

append_kept :
    (leaves : Bool) (p : ℕ) (xs rest : List ℕ)
    → (if leaves then xs else xs ++ p ∷ []) ++ rest ≡ xs ++ (if not leaves then p ∷ rest else rest)
append_kept true p xs rest = refl
append_kept false p xs rest = append_assoc xs (p ∷ []) rest

append_left :
    (leaves : Bool) (p : ℕ) (xs rest : List ℕ)
    → (if leaves then xs ++ p ∷ [] else xs) ++ rest ≡ xs ++ (if leaves then p ∷ rest else rest)
append_left true p xs rest = append_assoc xs (p ∷ []) rest
append_left false p xs rest = refl

pub check_all-select :
    (highest block : ℤ) (store : Store) (ps in_flight done : List ℕ)
    → check_all highest block store ps in_flight done ≡ (
      checked highest block store ps,
      in_flight ++ select (λ p. not (leaving highest block store p)) ps,
      done ++ select (leaving highest block store) ps,
    )
unfolding check_all select
check_all-select highest block store [] in_flight done = rw (append-nil in_flight, append-nil done)
check_all-select highest block store (p ∷ ps) in_flight done =
    let leaves = leaving highest block store p in
    check_all-select highest block (update store p (check_one highest block (store p)).0) ps
      (if leaves then in_flight else in_flight ++ p ∷ []) (if leaves then done ++ p ∷ [] else done)
    ∙ unfold store_after in
      rw
        (
          fun_ext (checked_after highest block store p ps),
          fun_ext (leaving_after highest block store p),
        )
        (rw (
          append_kept leaves p in_flight (select (λ q. not (leaving highest block store q)) ps),
          append_left leaves p done (select (leaving highest block store) ps),
        ))
