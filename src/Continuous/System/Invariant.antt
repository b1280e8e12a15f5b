-- ===== src/Continuous/System/Invariant.antt =====
-- continuous/: what holds of the main loop and the goroutines after any steps.
use mathlib.Core.List.{Mem, Perm, mem-append_left, mem-append, mem-filter, perm_append_comm}
use mathlib.Core.List.Perm
use mathlib.Core.Logic.Or
use shutter_tests.Prelude.{
  ℕ, zero, suc, ◌<◌, subst, inl, inr, arith, List, [], ◌∷◌, ◌++◌, Bool-cases, nat_beq, nat_beq_iff,
}
use shutter_tests.Prelude.Int.{ℤ, pos}
use shutter_tests.Chain.{Transaction}
use shutter_tests.Continuous.Tx.{ShutterTx, expire}
use shutter_tests.Continuous.Watch.{Phase, after_inclusion}
use shutter_tests.Continuous.Status.{update, check_tx_in_flight, highest_inclusion}
use shutter_tests.Continuous.Status.Leaving.{dec_leaves}
use shutter_tests.Continuous.Status.Check.{
  check_tx_in_flight-lists, check_tx_in_flight-perm, check_tx_in_flight_cases,
}
use shutter_tests.Continuous.System.{
  System, Step, sends, checks, expires, submitted, includes, forfeits, Reach, here, next, launch,
  put, check, expire_at, initial, next_account,
}
use shutter_tests.Continuous.System.Coherence.{
  IsCoherent, after_submission-IsCoherent, after_inclusion-IsCoherent, after_forfeit-IsCoherent,
  check_one-IsCoherent, expire-IsCoherent, new-IsCoherent, weaken-IsCoherent,
}

-- The pointers below n, the newest first.
abbrev pub pointers : ℕ → List ℕ
pointers zero = []
pointers (suc n) = n ∷ pointers n

pub record Inv (s : System) : Type 0 where
  pub partition : Perm (s.status.tx_in_flight ++ s.status.tx_done) (pointers s.sent)
  pub coherent : (p : ℕ) → p < s.sent → IsCoherent (s.store p) (s.phase p) (Mem p s.status.tx_done)

initial-Inv : Inv initial
unfolding initial
initial-Inv = record { partition = Perm.nil; coherent = λ p h. elim h [ ] }

put-Inv :
    (s : System) (p : ℕ) (r : ShutterTx × Phase)
    → Inv s
    → IsCoherent r.0 r.1 (Mem p s.status.tx_done)
    → Inv (put p r s)
unfolding put
put-Inv s p r v c = record { partition = v.partition; coherent = each }
  where
    each :
        (q : ℕ)
        → q < s.sent
        → IsCoherent (update s.store p r.0 q) (update s.phase p r.1 q) (Mem q s.status.tx_done)
    each q h = elim (Bool-cases (nat_beq p q)) [
      | inl e ↦
          rw e (subst (λ q. IsCoherent r.0 r.1 (Mem q s.status.tx_done)) ((nat_beq_iff p q).0 e) c)
      | inr e ↦ rw e (v.coherent q h)
    ]

launch-Inv :
    (n : ℕ) (inner outer : Transaction) (prefix : List ℕ) (trigger slot : ℤ) (s : System)
    → Inv s
    → Inv (launch n inner outer prefix trigger slot s)
unfolding launch
launch-Inv n inner outer prefix trigger slot s v = record {
  partition =
      Perm.trans
        (Perm.append_right s.status.tx_done (perm_append_comm s.status.tx_in_flight (s.sent ∷ [])))
        (Perm.cons s.sent v.partition);
  coherent = each;
}
  where
    s' : System
    s' = launch n inner outer prefix trigger slot s

    each : (q : ℕ) → q < suc s.sent → IsCoherent (s'.store q) (s'.phase q) (Mem q s.status.tx_done)
    each q h = elim (Bool-cases (nat_beq s.sent q)) [
      | inl e ↦ rw e (
          new-IsCoherent (Mem q s.status.tx_done) inner outer (next_account n s.status) prefix
            trigger slot)
      | inr e ↦ rw e (v.coherent q (ground (arith, nat_beq_iff s.sent q)))
    ]

-- What was done stays done.
done-stays :
    (block : ℤ) (s : System) (q : ℕ)
    → Mem q s.status.tx_done
    → Mem q (check_tx_in_flight block s.store s.status).1.tx_done
done-stays block s q m =
    rw (check_tx_in_flight-lists block s.store s.status).1 (mem-append_left _ m)

check-IsCoherent :
    (block : ℤ) (s : System) (q : ℕ)
    → IsCoherent (s.store q) (s.phase q) (Mem q s.status.tx_done)
    → let (store, status) = check_tx_in_flight block s.store s.status in
      IsCoherent (store q) (s.phase q) (Mem q status.tx_done)
check-IsCoherent block s q c =
    let highest = highest_inclusion s.store (pos 0) s.status.tx_in_flight in
    elim (check_tx_in_flight_cases block s.store s.status q) [
      | inl e ↦ rw e (weaken-IsCoherent (s.store q) _ (s.phase q) _ c (done-stays block s q))
      | inr (m, e) ↦ rw e (
          check_one-IsCoherent (s.store q) _ (s.phase q) highest block _ c (done-stays block s q)
            (λ o. rw (check_tx_in_flight-lists block s.store s.status).1 (
              mem-append.1
                (Or.inr ((mem-filter (λ p. dec_leaves highest (s.store p))).1 (m, inl o))))))
    ]

check-Inv : (block : ℤ) (s : System) → Inv s → Inv (check block s)
unfolding check
check-Inv block s v = record {
  partition = Perm.trans (check_tx_in_flight-perm block s.store s.status) v.partition;
  coherent = λ q h. check-IsCoherent block s q (v.coherent q h);
}

expire_at-Inv : (p : ℕ) (s : System) → p < s.sent → Inv s → Inv (expire_at p s)
unfolding expire_at
expire_at-Inv p s h v =
    put-Inv s p (record (s.store p) { ctx = expire (s.store p).ctx }, s.phase p) v
      (expire-IsCoherent (s.store p) (Mem p s.status.tx_done) (s.phase p) (v.coherent p h))

Step-Inv : {n : ℕ} {s t : System} → Step n s t → Inv s → Inv t
Step-Inv {n} {s} (sends inner outer prefix trigger slot) v =
    launch-Inv n inner outer prefix trigger slot s v
Step-Inv {s = s} (checks block) v = check-Inv block s v
Step-Inv {s = s} (expires p h) v = expire_at-Inv p s h v
Step-Inv {s = s} (submitted p w r h e f) v = put-Inv s p r v (
    after_submission-IsCoherent (s.store p) (Mem p s.status.tx_done) w r
      (subst (λ ph. IsCoherent (s.store p) ph (Mem p s.status.tx_done)) e (v.coherent p h)) f)
Step-Inv {s = s} (includes p w h e) v = put-Inv s p (after_inclusion w (s.store p)) v (
    after_inclusion-IsCoherent (s.store p) (Mem p s.status.tx_done) w
      (subst (λ ph. IsCoherent (s.store p) ph (Mem p s.status.tx_done)) e (v.coherent p h)))
Step-Inv {s = s} (forfeits p e r h g f) v = put-Inv s p r v (
    after_forfeit-IsCoherent (s.store p) (Mem p s.status.tx_done) (s.phase p) e r (v.coherent p h)
      f)

pub Reach-Inv : {n : ℕ} {s : System} → Reach n s → Inv s
Reach-Inv here = initial-Inv
Reach-Inv (next r st) = Step-Inv st (Reach-Inv r)
