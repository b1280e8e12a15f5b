-- ===== src/Continuous/System/Reachable.antt =====
-- continuous/: what the program shows of its transactions, in every state that it can reach.
use mathlib.Core.List.{
  Mem, Perm, Nodup, Nodup-cons, Nodup-nil, Nodup-append, mem-append_left, mem-cons, mem-filter,
  not-mem-nil,
}
use mathlib.Core.List.Perm
use mathlib.Core.Logic.Or
use native.Mathlib.Bridge.{le_prop}
use shutter_tests.Prelude.{
  ℕ, zero, suc, ◌%◌, ◌<◌, ◌≡◌, refl, sym, ap, ◌∙◌, subst, ◌≢◌, ◌⊎◌, inl, inr, arith, List, ◌++◌,
  Bool-cases, nat_beq, nat_beq_iff, length, length-append, length-perm,
}
use shutter_tests.Prelude.Int.{ℤ, pos}
use shutter_tests.Chain.{Transaction}
use shutter_tests.Continuous.Tx.{
  TxStatus, signed, sequenced, included, not_sequenced, not_included, system_failure, ShutterTx,
  expire,
}
use shutter_tests.Continuous.Watch.{Phase}
use shutter_tests.Continuous.Status.{tx_count, highest_inclusion}
use shutter_tests.Continuous.Status.Leaving.{Leaves, IsOvertaken, dec_stays}
use shutter_tests.Continuous.Status.Check.{check_tx_in_flight-lists, check_tx_in_flight_cases}
use shutter_tests.Continuous.System.{
  System, Step, sends, checks, expires, submitted, includes, forfeits, Reach, here, next, launch,
  put, check, expire_at, initial,
}
use shutter_tests.Continuous.System.Coherence.{
  after_submission-sender, after_inclusion-sender, after_forfeit-sender, check_one-sender,
}
use shutter_tests.Continuous.System.Invariant.{pointers, Reach-Inv}

mem-pointers-lt : (p n : ℕ) → Mem p (pointers n) → p < n
mem-pointers-lt p zero m = absurd (not-mem-nil m)
mem-pointers-lt p (suc n) m =
    Or.elim le_prop (mem-cons.0 m) (λ e. omega arith) (λ k. omega (arith, mem-pointers-lt p n k))

pointers-Nodup : (n : ℕ) → Nodup (pointers n)
pointers-Nodup zero = Nodup-nil
pointers-Nodup (suc n) =
    Nodup-cons.1 (λ m. absurd (omega (arith, mem-pointers-lt n n m)), pointers-Nodup n)

length-pointers : (n : ℕ) → length (pointers n) ≡ n
length-pointers zero = refl
length-pointers (suc n) = ap suc (length-pointers n)

-- No transaction ever gets the status NotSequenced: only CheckTxInFlight cancels a transaction, and
-- it cancels none that is not sequenced yet.
pub Reach-ne-not_sequenced :
    {n : ℕ} {s : System} → Reach n s → (p : ℕ) → p < s.sent → (s.store p).tx_status ≢ not_sequenced
Reach-ne-not_sequenced r p h = ((Reach-Inv r).coherent p h).never

-- A transaction with the status NotIncluded was put among the done ones before.
pub Reach-not_included :
    {n : ℕ} {s : System}
    → Reach n s
    → (p : ℕ) → p < s.sent
    → (s.store p).tx_status ≡ not_included
    → Mem p s.status.tx_done
Reach-not_included r p h e = ((Reach-Inv r).coherent p h).given_up e

-- The transactions in flight and the done ones are those that were sent, each once, and TxCount is
-- their number.
pub Reach-partition :
    {n : ℕ} {s : System}
    → Reach n s
    → Perm (s.status.tx_in_flight ++ s.status.tx_done) (pointers s.sent)
      × (tx_count s.status ≡ s.sent)
unfolding tx_count
Reach-partition {s = s} r =
    let v = Reach-Inv r in
    (
      v.partition,
      sym (length-append s.status.tx_in_flight s.status.tx_done)
          ∙ length-perm v.partition
          ∙ length-pointers s.sent,
    )

-- Whom every transaction was sent by, in terms of the order of sending.
abbrev SentBy : ℕ → System → Type 0
SentBy n s = (p : ℕ) → p < s.sent → (s.store p).sender ≡ p % n

put-SentBy :
    (n : ℕ) (s : System) (p : ℕ) (r : ShutterTx × Phase)
    → SentBy n s
    → r.0.sender ≡ (s.store p).sender
    → SentBy n (put p r s)
unfolding put
put-SentBy n s p r b e q h = elim (Bool-cases (nat_beq p q)) [
  | inl t ↦
      let same : p ≡ q = (nat_beq_iff p q).0 t in
      rw t (subst (λ k. r.0.sender ≡ k % n) same (e ∙ b p (subst (λ k. k < s.sent) (sym same) h)))
  | inr f ↦ rw f (b q h)
]

launch-SentBy :
    (n : ℕ) (s : System) (inner outer : Transaction) (prefix : List ℕ) (trigger slot : ℤ)
    → tx_count s.status ≡ s.sent
    → SentBy n s
    → SentBy n (launch n inner outer prefix trigger slot s)
unfolding launch
launch-SentBy n s inner outer prefix trigger slot c b q h = elim (Bool-cases (nat_beq s.sent q)) [
  | inl t ↦ rw t (ap (λ k. k % n) (c ∙ (nat_beq_iff s.sent q).0 t))
  | inr f ↦ rw f (b q (ground (arith, nat_beq_iff s.sent q)))
]

check-SentBy : (n : ℕ) (s : System) (block : ℤ) → SentBy n s → SentBy n (check block s)
unfolding check
check-SentBy n s block b q h = elim (check_tx_in_flight_cases block s.store s.status q) [
  | inl e ↦ rw e (b q h)
  | inr (_, e) ↦ rw e (check_one-sender _ block (s.store q) ∙ b q h)
]

expire_at-SentBy : (n : ℕ) (s : System) (p : ℕ) → SentBy n s → SentBy n (expire_at p s)
unfolding expire_at
expire_at-SentBy n s p b =
    put-SentBy n s p (record (s.store p) { ctx = expire (s.store p).ctx }, s.phase p) b refl

Step-SentBy :
    {n : ℕ} {s t : System} → Step n s t → tx_count s.status ≡ s.sent → SentBy n s → SentBy n t
Step-SentBy {n} {s} (sends inner outer prefix trigger slot) c b =
    launch-SentBy n s inner outer prefix trigger slot c b
Step-SentBy {n} {s} (checks block) c b = check-SentBy n s block b
Step-SentBy {n} {s} (expires p h) c b = expire_at-SentBy n s p b
Step-SentBy {n} {s} (submitted p w r h e f) c b =
    put-SentBy n s p r b (after_submission-sender w (s.store p) r f)
Step-SentBy {n} {s} (includes p w h e) c b =
    put-SentBy n s p _ b (after_inclusion-sender w (s.store p))
Step-SentBy {n} {s} (forfeits p e r h g f) c b =
    put-SentBy n s p r b (after_forfeit-sender (s.phase p) e (s.store p) r f)

none_sent : (n : ℕ) → SentBy n initial
unfolding initial
none_sent n p h = elim h [ ]

-- The accounts take turns: with n accounts, the transaction that was sent after k others comes from
-- the account with the index k % n, whatever the goroutines and the checks do in between.
pub Reach-round_robin :
    {n : ℕ} {s : System} → Reach n s → (p : ℕ) → p < s.sent → (s.store p).sender ≡ p % n
Reach-round_robin {n} here p h = none_sent n p h
Reach-round_robin {n} (next r st) p h =
    Step-SentBy st (Reach-partition r).1 (Reach-round_robin r) p h

in_flight-lt : {n : ℕ} {s : System} → Reach n s → (p : ℕ) → Mem p s.status.tx_in_flight → p < s.sent
in_flight-lt {s = s} r p m =
    mem-pointers-lt p s.sent ((Perm.mem_iff (Reach-Inv r).partition).0 (mem-append_left _ m))

in_flight_not_done :
    {n : ℕ} {s : System}
    → Reach n s
    → (p : ℕ) → Mem p s.status.tx_in_flight
    → ¬ Mem p s.status.tx_done
in_flight_not_done {s = s} r p m d =
    (Nodup-append.0 (Perm.nodup (Perm.symm (Reach-Inv r).partition) (pointers-Nodup s.sent))).2 p m
      d

in_flight_status :
    (highest : ℤ) (tx : ShutterTx)
    → ¬ Leaves highest tx
    → tx.tx_status ≢ not_sequenced
    → tx.tx_status ≢ not_included
    → (tx.tx_status ≡ signed) ⊎ ((tx.tx_status ≡ sequenced) × ¬ IsOvertaken highest tx)
in_flight_status highest tx l a b = by_status tx.tx_status refl
  where
    by_status :
        (x : TxStatus)
        → tx.tx_status ≡ x
        → (tx.tx_status ≡ signed) ⊎ ((tx.tx_status ≡ sequenced) × ¬ IsOvertaken highest tx)
    by_status signed e = inl e
    by_status sequenced e = inr (e, λ o. l (inl o))
    by_status included e = absurd (l (inr (inl e)))
    by_status system_failure e = absurd (l (inr (inr e)))
    by_status not_sequenced e = absurd (a e)
    by_status not_included e = absurd (b e)

-- Right after CheckTxInFlight, whatever is still in flight is either not sequenced yet, or sequenced
-- and not overtaken.
pub check-in_flight :
    {n : ℕ} {s : System}
    → Reach n s
    → (block : ℤ) (p : ℕ)
    → let highest = highest_inclusion s.store (pos 0) s.status.tx_in_flight in
      Mem p (check block s).status.tx_in_flight
      → ((s.store p).tx_status ≡ signed)
        ⊎ (((s.store p).tx_status ≡ sequenced) × ¬ IsOvertaken highest (s.store p))
unfolding check
check-in_flight {n} {s} r block p m =
    let highest = highest_inclusion s.store (pos 0) s.status.tx_in_flight in
    let kept =
      (mem-filter (λ q. dec_stays highest (s.store q))).0
        (subst (Mem p) (check_tx_in_flight-lists block s.store s.status).0 m) in
    let c = (Reach-Inv r).coherent p (in_flight-lt r p kept.0) in
    in_flight_status highest (s.store p) kept.1 c.never
      (λ e. in_flight_not_done r p kept.0 (c.given_up e))
