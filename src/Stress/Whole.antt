-- ===== src/Stress/Whole.antt =====
-- stress/stress_test.go: what transact as a whole has done where it succeeds.
use shutter_tests.Prelude.{
  ℕ, suc, ◌≡◌, sym, ap, subst, ◌∙◌, arith, false, List, [], ◌∷◌, Pairs, none_left, pair,
}
use shutter_tests.Prelude.Outcomes.{ok, ok_injective, or_error, or_error-eq-ok, >>=-eq-ok}
use shutter_tests.Prelude.Runs
use shutter_tests.Prelude.Runs.{ask, ask-eq-ok}
use shutter_tests.Chain.{Transaction, Receipt, Crypto}
use shutter_tests.Utils.Receipts.{Line, count_and_log, wait_for_tx_timeout}
use shutter_tests.Stress.World.{World, StressCalls}
use shutter_tests.Stress.Transact.{wait_for, wait_for_all, send_all, transact}
use shutter_tests.Stress.Submits.{Kept, Kept-refl, Kept-trans}
use shutter_tests.Stress.Batches.{wait_for-Kept}
use shutter_tests.Stress.Sent.{IsSent, send_all-IsSent}

abbrev pub IsSuccess : Receipt → Type 0
IsSuccess r = r.status ≡ 1

-- The receipt is one that WaitMined answered for the transaction, with status 1.
pub record IsMined (calls : StressCalls) (i : ℕ) (tx : Transaction) (r : Receipt) : Type 0 where
  pub wait : ℕ
  pub answered : calls.mined wait tx ≡ ok r
  pub succeeded : IsSuccess r

module _ (c : Crypto) (calls : StressCalls) where
  wait_for-IsSuccess :
      (tx : Transaction) (r : Receipt) (w w' : World)
      → wait_for c calls tx w ≡ (ok r, w')
      → (calls.mined w.waits tx ≡ ok r) × IsSuccess r
  unfolding wait_for wait_for_tx_timeout
  wait_for-IsSuccess tx r w w' h =
      let (receipt, e, h1) =
        >>=-eq-ok (or_error (calls.mined w.waits tx) "error on WaitMined") _ (ap (λ q. q.0) h) in
      let same : receipt ≡ r = ground (arith, h1) in
      (
        or_error-eq-ok (calls.mined w.waits tx) "error on WaitMined" (e ∙ ap ok same),
        ground (arith, h1),
      )

  wait_for_all-IsSuccess :
      (i : ℕ) (txs : List Transaction) (rs : List Receipt) (w w' : World)
      → wait_for_all c calls txs w ≡ (ok rs, w')
      → Pairs (IsMined calls) i txs rs × Kept w w'
  unfolding wait_for_all
  wait_for_all-IsSuccess i [] rs w w' h =
      subst (λ q. Pairs (IsMined calls) i [] q × Kept w w') (ok_injective (ap (λ r. r.0) h))
        (none_left, subst (Kept w) (ap (λ r. r.1) h) (Kept-refl w))
  wait_for_all-IsSuccess i (tx ∷ txs) rs w w' h =
      let (r, w1, e1, h1) = Runs.>>=-eq-ok (wait_for c calls tx) _ w w' h in
      let (rest, w2, e2, h2) = Runs.>>=-eq-ok (wait_for_all c calls txs) _ w1 w' h1 in
      let (answered, succeeded) = wait_for-IsSuccess tx r w w1 e1 in
      let (all, k) = wait_for_all-IsSuccess (suc i) txs rest w1 w2 e2 in
      subst (λ q. Pairs (IsMined calls) i (tx ∷ txs) q × Kept w w')
        (ok_injective (ap (λ q. q.0) h2))
        (
          pair (record { wait = w.waits; answered = answered; succeeded = succeeded }) all,
          subst (Kept w) (ap (λ q. q.1) h2) (Kept-trans (wait_for-Kept c calls tx r w w1 e1) k),
        )

  -- A batch that went through: what was sent, and for each inner transaction, in order, a receipt of
  -- success, which the constraints were satisfied with.
  pub record IsTransacted (count : ℕ) (w w' : World) (lines : List Line) : Type 0 where
    pub sent : IsSent c calls count w w'
    pub receipts : List Receipt
    pub counted : List Receipt
    pub mined : Pairs (IsMined calls) 0 sent.inner receipts
    pub satisfied : w.env.inclusion_constraints receipts ≡ ok counted
    pub logged : lines ≡ count_and_log counted

  IsSent-Kept :
      (count : ℕ) (w v v' : World)
      → IsSent c calls count w v
      → Kept v v'
      → IsSent c calls count w v'
  IsSent-Kept count w v v' s k = record {
    fresh = s.fresh;
    inner = s.inner;
    submissions = s.submissions;
    tip = s.tip;
    price = s.price;
    drawn = s.drawn;
    counted = s.counted;
    suggested = s.suggested;
    signed = s.signed;
    submitted = k.submitted ∙ s.submitted;
    carries = s.carries;
    transact_account = ap (λ t. t.transact_account) k.setup ∙ s.transact_account;
    submit_account = ap (λ t. t.submit_account) k.setup ∙ s.submit_account;
    prefixes = ap (λ e. e.identity_prefixes) k.env ∙ s.prefixes;
  }

  settled :
      (count : ℕ) (w w1 w2 w3 w' : World) (inner submissions : List Transaction)
      (mined receipts counted : List Receipt) (lines : List Line)
      → w.env.random_identity_suffix ≡ false
      → send_all c calls count w ≡ (ok (inner, submissions), w1)
      → wait_for_all c calls submissions w1 ≡ (ok mined, w2)
      → wait_for_all c calls inner w2 ≡ (ok receipts, w3)
      → w.env.inclusion_constraints receipts ≡ ok counted
      → (count_and_log counted ≡ lines) × (w3 ≡ w')
      → IsTransacted count w w' lines
  unfolding IsSent-Kept
  settled count w w1 w2 w3 w' inner submissions mined receipts counted lines f e1 e2 e3 e4 h =
      let (sent, same) = send_all-IsSent c calls count w w1 inner submissions f e1 in
      let (_, k2) = wait_for_all-IsSuccess 0 submissions mined w1 w2 e2 in
      let (all, k3) = wait_for_all-IsSuccess 0 inner receipts w2 w3 e3 in
      let kept : (s : IsSent c calls count w w') × (s.inner ≡ inner) =
        subst (λ v. (s : IsSent c calls count w v) × (s.inner ≡ inner)) h.1
          (IsSent-Kept count w w1 w3 sent (Kept-trans k2 k3), same) in
      record {
        sent = kept.0;
        receipts = receipts;
        counted = counted;
        mined = subst (λ q. Pairs (IsMined calls) 0 q receipts) (sym kept.1) all;
        satisfied = e4;
        logged = sym h.0;
      }

  pub transact-IsTransacted :
      (count : ℕ) (w w' : World) (lines : List Line)
      → w.env.random_identity_suffix ≡ false
      → transact c calls count w ≡ (ok lines, w')
      → IsTransacted count w w' lines
  unfolding transact
  transact-IsTransacted count w w' lines f h =
      let ((inner, submissions), w1, e1, h1) = Runs.>>=-eq-ok (send_all c calls count) _ w w' h in
      let (mined, w2, e2, h2) = Runs.>>=-eq-ok (wait_for_all c calls submissions) _ w1 w' h1 in
      let (receipts, w3, e3, h3) = Runs.>>=-eq-ok (wait_for_all c calls inner) _ w2 w' h2 in
      let (counted, e4, h4) = ask-eq-ok (w.env.inclusion_constraints receipts) _ w3 w' h3 in
      settled count w w1 w2 w3 w' inner submissions mined receipts counted lines f e1 e2 e3 e4
        (ok_injective (ap (λ q. q.0) h4), ap (λ q. q.1) h4)
