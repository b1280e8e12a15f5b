-- ===== src/Continuous/System/Progress.antt =====
-- continuous/tx.go: how often the goroutine of a transaction goes on, and that it can always return.
use mathlib.Core.List.{Mem}
use shutter_tests.Prelude.{
  ℕ, ◌+◌, ◌≤◌, ◌<◌, ◌≡◌, refl, ◌≢◌, arith, Option, ◌⊎◌, Bool-cases, inl, inr, nat_beq, nat_beq_iff,
  if◌then◌else◌, String, true, subst,
}
use shutter_tests.Prelude.Outcomes.{Outcome, ok, ◌>>=◌}
use shutter_tests.Utils.Wait.{Waited}
use shutter_tests.Continuous.Tx.{
  system_failure, not_included, Ctx, alive, canceled, deadline_exceeded, ShutterTx, expire, cancel,
}
use shutter_tests.Continuous.Watch.{
  Phase, waiting_submission, waiting_inclusion, forfeiting_failed, forfeiting, returned,
  after_submission, after_inclusion, after_forfeit, check_message,
}
use shutter_tests.Continuous.System.{
  System, Step, sends, checks, expires, submitted, includes, forfeits, Reach, here, next, launch,
  put, check, expire_at, initial, is_forfeiting,
}
use shutter_tests.Continuous.System.Invariant.{Reach-Inv}
use shutter_tests.Continuous.System.Coherence.{IsCoherent}

-- How often a goroutine can still go on.
abbrev pub rank : Phase → ℕ
rank waiting_submission = 3
rank waiting_inclusion = 2
rank forfeiting_failed = 1
rank (forfeiting x) = 1
rank returned = 0

abbrev once : ℕ → ℕ → ℕ
once p q = if nat_beq p q then 1 else 0

-- 1 for a step in which the goroutine of `q` comes back from where it blocked.
abbrev pub step_wakes : ℕ → {n : ℕ} {s t : System} → Step n s t → ℕ
step_wakes q (sends inner outer prefix trigger slot) = 0
step_wakes q (checks block) = 0
step_wakes q (expires p h) = 0
step_wakes q (submitted p w r h e f) = once p q
step_wakes q (includes p w h e) = once p q
step_wakes q (forfeits p e r h g f) = once p q

abbrev pub wakes : ℕ → {n : ℕ} {s : System} → Reach n s → ℕ
wakes q here = 0
wakes q (next r st) = wakes q r + step_wakes q st

after_submission-rank :
    (w : Waited) (tx : ShutterTx) (r : ShutterTx × Phase)
    → after_submission w tx ≡ ok r
    → rank r.1 < 3
unfolding after_submission
after_submission-rank w tx r h = ground arith

after_inclusion-rank : (w : Waited) (tx : ShutterTx) → rank (after_inclusion w tx).1 < 2
unfolding after_inclusion
after_inclusion-rank w tx = ground arith

after_forfeit-rank :
    (ph : Phase) (e : Option String) (tx : ShutterTx) (r : ShutterTx × Phase)
    → is_forfeiting ph ≡ true
    → after_forfeit ph e tx ≡ ok r
    → rank r.1 < rank ph
unfolding after_forfeit
after_forfeit-rank ph e tx r g h = ground arith

-- What is left of the three times for the goroutine of `q`, which went on `k` times.
record Budget (k : ℕ) (s : System) (q : ℕ) : Type 0 where
  left : q < s.sent → k + rank (s.phase q) ≤ 3
  unborn : s.sent ≤ q → k ≡ 0

put-Budget :
    (k : ℕ) (s : System) (q p : ℕ) (r : ShutterTx × Phase)
    → p < s.sent
    → rank r.1 < rank (s.phase p)
    → Budget k s q
    → Budget (k + once p q) (put p r s) q
unfolding put
put-Budget k s q p r h d b = elim (Bool-cases (nat_beq p q)) [
  | inl t ↦
      let d' : rank r.1 < rank (s.phase q) =
        subst (λ x. rank r.1 < rank (s.phase x)) ((nat_beq_iff p q).0 t) d in
      record { left = λ l. ground (arith, b.left l); unborn = ground (arith, nat_beq_iff p q) }
  | inr f ↦ record {
    left = λ l. ground (arith, b.left l);
    unborn = λ l. ground (arith, b.unborn l);
  }
]

Step-Budget :
    {n k q : ℕ} {s t : System} (st : Step n s t) → Budget k s q → Budget (k + step_wakes q st) t q
unfolding launch check expire_at put
Step-Budget {k = k} {q} {s} (sends inner outer prefix trigger slot) b = record {
  left = λ l. ground (arith, b.left, b.unborn, nat_beq_iff s.sent q);
  unborn = λ l. ground (arith, b.unborn (omega arith));
}
Step-Budget {k = k} {q} {s} (checks block) b = record {
  left = λ l. omega (arith, b.left l);
  unborn = λ l. omega (arith, b.unborn l);
}
Step-Budget {k = k} {q} {s} (expires p h) b = record {
  left = λ l. ground (arith, b.left l, nat_beq_iff p q);
  unborn = λ l. omega (arith, b.unborn l);
}
Step-Budget {k = k} {q} {s} (submitted p w r h e f) b =
    put-Budget k s q p r h (rw e (after_submission-rank w (s.store p) r f)) b
Step-Budget {k = k} {q} {s} (includes p w h e) b =
    put-Budget k s q p _ h (rw e (after_inclusion-rank w (s.store p))) b
Step-Budget {k = k} {q} {s} (forfeits p e r h g f) b =
    put-Budget k s q p r h (after_forfeit-rank (s.phase p) e (s.store p) r g f) b

no_sent : {q : ℕ} → q < initial.sent → 0 + rank (initial.phase q) ≤ 3
unfolding initial
no_sent h = elim h [ ]

Reach-Budget : {n q : ℕ} {s : System} (r : Reach n s) → Budget (wakes q r) s q
Reach-Budget here = record { left = λ l. no_sent l; unborn = λ l. refl }
Reach-Budget (next r st) = Step-Budget st (Reach-Budget r)

-- The goroutine of a transaction goes on at most three times, after each of the three waits, in any
-- run of the program: the times that it went on and the waits that can still follow are three at most.
pub Reach-wakes :
    {n : ℕ} {s : System} (r : Reach n s) (q : ℕ) → q < s.sent → wakes q r + rank (s.phase q) ≤ 3
Reach-wakes r q h = (Reach-Budget r).left h

-- One part of WatchTx, from where it blocks to where it blocks next.
abbrev pub go_on : Waited → Option String → ShutterTx × Phase → Outcome (ShutterTx × Phase)
go_on w e (tx, waiting_submission) = after_submission w tx
go_on w e (tx, waiting_inclusion) = ok (after_inclusion w tx)
go_on w e (tx, forfeiting_failed) = after_forfeit forfeiting_failed e tx
go_on w e (tx, forfeiting x) = after_forfeit (forfeiting x) e tx
go_on w e (tx, returned) = ok (tx, returned)

-- How a transaction ends whose time is over.
pub record IsGivenUp (r : ShutterTx × Phase) (D : Type 0) : Type 0 where
  pub back : r.1 ≡ returned
  pub status : (r.0.tx_status ≡ system_failure) ⊎ ((r.0.tx_status ≡ not_included) × D)

abbrev pub overdue : ShutterTx → ShutterTx
overdue tx = record tx { ctx = expire tx.ctx }

dec_canceled : (x : Ctx) → Dec (x ≡ canceled)
dec_canceled canceled = yes refl
dec_canceled alive = no (cc)
dec_canceled deadline_exceeded = no (cc)

module _ (w : Waited) (e : Option String) (fine : check_message e ≡ ok tt) (tx : ShutterTx)
    (D : Type 0) where
  given_up :
      (ph : Phase)
      → ph ≢ returned
      → IsCoherent tx ph D
      → (r : ShutterTx × Phase) × ((go_on w e (overdue tx, ph) >>= go_on w e) ≡ ok r)
        × IsGivenUp r D
  unfolding expire after_submission after_inclusion after_forfeit
  given_up waiting_submission h c = (
    (record tx { tx_status = system_failure; ctx = cancel (expire tx.ctx) }, returned),
    ground (arith, fine),
    ground arith,
  )
  given_up waiting_inclusion h c = elim (dec_canceled tx.ctx) [
    | yes t ↦ (
      (record tx { tx_status = not_included; ctx = cancel (expire tx.ctx) }, returned),
      ground (arith, fine),
      record { back = refl; status = inr (refl, c.canceled_done t refl) },
    )
    | no f ↦ (
      (record tx { tx_status = system_failure; ctx = cancel (expire tx.ctx) }, returned),
      ground (arith, fine),
      record { back = refl; status = inl refl },
    )
  ]
  given_up forfeiting_failed h c = (
    (record tx { ctx = cancel (expire tx.ctx) }, returned),
    ground (arith, fine),
    record { back = refl; status = inl (c.failed refl) },
  )
  given_up (forfeiting x) h c = (
    (record tx { tx_status = x; ctx = cancel (expire tx.ctx) }, returned),
    ground (arith, fine),
    record { back = refl; status = (c.forfeits x refl).1 },
  )
  given_up returned h c = absurd (h refl)

-- Once its time is over, a transaction whose goroutine has not returned is settled within two goings-on
-- of the goroutine, whatever the waits answer, if an error of forfeitNonce has at least eight bytes: the
-- goroutine returns, and the status is SystemFailure, or NotIncluded for one among the done ones.
pub Reach-IsGivenUp :
    {n : ℕ} {s : System}
    → Reach n s
    → (q : ℕ) (w : Waited) (e : Option String) → q < s.sent
    → s.phase q ≢ returned
    → check_message e ≡ ok tt
    → (r : ShutterTx × Phase) × ((go_on w e (overdue (s.store q), s.phase q) >>= go_on w e) ≡ ok r)
      × IsGivenUp r (Mem q s.status.tx_done)
Reach-IsGivenUp {s = s} r q w e h p fine =
    given_up w e fine (s.store q) (Mem q s.status.tx_done) (s.phase q) p
      ((Reach-Inv r).coherent q h)
