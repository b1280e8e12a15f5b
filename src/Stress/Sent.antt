-- ===== src/Stress/Sent.antt =====
-- stress/stress_test.go: what the loops of transact have signed and submitted together.
use shutter_tests.Prelude.{
  ℕ, ◌+◌, ◌-◌, ◌≤◌, ◌≡◌, sym, ap, subst, ◌∙◌, arith, false, List, ◌++◌, length, length-append,
  AllFrom, Pairs,
}
use shutter_tests.Prelude.Int.{ℤ}
use shutter_tests.Prelude.Outcomes.{ok, ok_injective}
use shutter_tests.Prelude.Runs
use shutter_tests.Prelude.Runs.{ask, ask-eq-ok}
use shutter_tests.Chain.{Transaction, Crypto}
use shutter_tests.Utils.Account.{Account}
use shutter_tests.Stress.World.{World, StressCalls, Submission, StressEnvironment, StressSetup}
use shutter_tests.Stress.Transact.{more_prefixes, sign_all, submit_all, send_all}
use shutter_tests.Stress.Submits.{Kept}
use shutter_tests.Stress.Signing.{more_prefixes-lem, IsInner, sign_all-IsInner}
use shutter_tests.Utils.Account.Nonces.{counted_up, not_counted_up}
use shutter_tests.Stress.Batches.{Carries, submit_all-Submitted, with_submitter, with_last, unused}

abbrev pub with_prefixes : StressEnvironment → List ℕ → StressEnvironment
with_prefixes env prefixes = record env { identity_prefixes = prefixes }

abbrev prepared : World → List ℕ → World
prepared w prefixes = record w { env = with_prefixes w.env prefixes }

abbrev with_transacter : StressSetup → Account → StressSetup
with_transacter t a = record t { transact_account = a }

module _ (c : Crypto) (calls : StressCalls) where
  -- What the loops have signed and submitted, in which order, and with which nonces.
  pub record IsSent (count : ℕ) (w w' : World) : Type 0 where
    pub fresh : List ℕ
    pub inner : List Transaction
    pub submissions : List Submission
    pub tip : ℤ
    pub price : ℤ
    pub drawn : length fresh ≡ count - length w.env.identity_prefixes
    pub counted : length inner ≡ count
    pub suggested : (calls.suggest_tip ≡ ok tip) × (calls.suggest_price ≡ ok price)
    pub signed :
        AllFrom
          (IsInner w.setup (with_prefixes w.env (w.env.identity_prefixes ++ fresh)) tip price count)
          0
          inner
    pub submitted : w'.submitted ≡ w.submitted ++ submissions
    pub carries :
        Pairs
          (Carries c calls w.setup.submit_account
            (with_prefixes w.env (w.env.identity_prefixes ++ fresh)))
          0
          inner
          submissions
    pub transact_account : w'.setup.transact_account ≡ counted_up w.setup.transact_account count
    pub submit_account : w'.setup.submit_account ≡ counted_up w.setup.submit_account count
    pub prefixes : w'.env.identity_prefixes ≡ w.env.identity_prefixes ++ fresh

  -- Between the loop that signs and the one that submits.
  record Ready (count : ℕ) (w : World) (all : List ℕ) (v : World) : Type 0 where
    setup : v.setup ≡ with_transacter w.setup (counted_up w.setup.transact_account count)
    env : v.env ≡ with_prefixes w.env all
    submitted : v.submitted ≡ w.submitted

  signs :
      (count : ℕ) (tip price : ℤ) (all : List ℕ) (w w1 w2 : World) (inner : List Transaction)
      → Kept w w1
      → sign_all c calls tip price count count 0 (prepared w1 all) ≡ (ok inner, w2)
      → AllFrom (IsInner w.setup (with_prefixes w.env all) tip price count) 0 inner
        × (length inner ≡ count)
        × Ready count w all w2
  signs count tip price all w w1 w2 inner k h =
      let (signed, counted, last) =
        sign_all-IsInner c calls tip price count count 0 (prepared w1 all) w2 inner (
          subst
            (λ a.
              sign_all c calls tip price count count 0
                (record (prepared w1 all) { setup = with_transacter w1.setup a })
              ≡ (ok inner, w2))
            (not_counted_up w1.setup.transact_account) h) in
      (
        subst (λ e. AllFrom (IsInner w.setup (with_prefixes e all) tip price count) 0 inner) k.env
            (subst (λ t. AllFrom (IsInner t (with_prefixes w1.env all) tip price count) 0 inner)
              k.setup signed),
        counted,
        record {
          setup =
              ap (λ v. v.setup) last
              ∙ ap (λ t. with_transacter t (counted_up t.transact_account (count + 0))) k.setup
              ∙ ap (λ n. with_transacter w.setup (counted_up w.setup.transact_account n))
                  (omega arith);
          env = ap (λ v. v.env) last ∙ ap (λ e. with_prefixes e all) k.env;
          submitted = ap (λ v. v.submitted) last ∙ k.submitted;
        },
      )

  submits :
      (count : ℕ) (all : List ℕ) (w w2 w3 : World) (inner submissions : List Transaction)
      → w.env.random_identity_suffix ≡ false
      → length inner ≡ count
      → count ≤ length all
      → Ready count w all w2
      → submit_all c calls 0 inner w2 ≡ (ok submissions, w3)
      → (new : List Submission) × (w3.submitted ≡ w.submitted ++ new)
        × Pairs (Carries c calls w.setup.submit_account (with_prefixes w.env all)) 0 inner new
        × (w3.setup.transact_account ≡ counted_up w.setup.transact_account count)
        × (w3.setup.submit_account ≡ counted_up w.setup.submit_account count)
        × (w3.env.identity_prefixes ≡ all)
  submits count all w w2 w3 inner submissions f n l g h =
      let r =
        submit_all-Submitted c calls 0 inner submissions w2 w2 w3
          (ap (λ e. e.random_identity_suffix) g.env ∙ f)
          (subst (λ e. 0 + length inner ≤ length e.identity_prefixes) (sym g.env)
            (omega (arith, n, l)))
          (unused w2) h in
      (
        r.new,
        r.submitted ∙ ap (λ ss. ss ++ r.new) g.submitted,
        subst (λ e. Pairs (Carries c calls w.setup.submit_account e) 0 inner r.new) g.env
            (subst (λ t. Pairs (Carries c calls t.submit_account w2.env) 0 inner r.new) g.setup
              r.carries),
        ap (λ t. t.transact_account)
            (r.after.setup
              ∙ ap (λ t. with_submitter t (counted_up w2.setup.submit_account (length inner + 0)))
                  g.setup),
        ap (λ t. t.submit_account) r.after.setup
            ∙ ap (λ t. counted_up t.submit_account (length inner + 0)) g.setup
            ∙ ap (counted_up w.setup.submit_account) (omega (arith, n)),
        ap (λ e. e.identity_prefixes) (r.after.env ∙ ap (λ e. with_last e r.after.last) g.env),
      )

  assemble :
      (count : ℕ) (tip price : ℤ) (all : List ℕ) (w w1 w2 w3 w' : World)
      (inner' inner submissions' submissions : List Transaction)
      → w.env.random_identity_suffix ≡ false
      → calls.suggest_tip ≡ ok tip
      → calls.suggest_price ≡ ok price
      → more_prefixes c calls (count - length w.env.identity_prefixes) w.env.identity_prefixes w
        ≡ (ok all, w1)
      → sign_all c calls tip price count count 0 (prepared w1 all) ≡ (ok inner', w2)
      → submit_all c calls 0 inner' w2 ≡ (ok submissions', w3)
      → (inner' ≡ inner) × (w3 ≡ w')
      → (sent : IsSent count w w') × (sent.inner ≡ inner)
  assemble count tip price all w w1 w2 w3 w' inner' inner submissions' submissions f e1 e2 e3 e4 e5
        h =
      let (fresh, both, drawn, k) =
        more_prefixes-lem c calls (count - length w.env.identity_prefixes) w.env.identity_prefixes
          all w w1 e3 in
      let (signed, counted, g) = signs count tip price all w w1 w2 inner' k e4 in
      let (new, submitted, carries, transacter, submitter, prefixes) =
        submits count all w w2 w3 inner' submissions' f counted
          (subst (λ a. count ≤ length a) (sym both)
            (omega (arith, drawn, length-append w.env.identity_prefixes fresh)))
          g e5 in
      subst (λ v. (sent : IsSent count w v) × (sent.inner ≡ inner)) h.1
        (
          record {
            fresh = fresh;
            inner = inner';
            submissions = new;
            tip = tip;
            price = price;
            drawn = drawn;
            counted = counted;
            suggested = (e1, e2);
            signed =
                subst
                  (λ a. AllFrom (IsInner w.setup (with_prefixes w.env a) tip price count) 0 inner')
                  both signed;
            submitted = submitted;
            carries =
                subst
                  (λ a.
                    Pairs (Carries c calls w.setup.submit_account (with_prefixes w.env a)) 0 inner'
                      new)
                  both carries;
            transact_account = transacter;
            submit_account = submitter;
            prefixes = prefixes ∙ both;
          },
          h.0,
        )

  pub send_all-IsSent :
      (count : ℕ) (w w' : World) (inner submissions : List Transaction)
      → w.env.random_identity_suffix ≡ false
      → send_all c calls count w ≡ (ok (inner, submissions), w')
      → (sent : IsSent count w w') × (sent.inner ≡ inner)
  unfolding send_all
  send_all-IsSent count w w' inner submissions f h =
      let (tip, e1, h1) = ask-eq-ok calls.suggest_tip _ w w' h in
      let (price, e2, h2) = ask-eq-ok calls.suggest_price _ w w' h1 in
      let (all, w1, e3, h3) =
        Runs.>>=-eq-ok
          (more_prefixes c calls (count - length w.env.identity_prefixes) w.env.identity_prefixes) _
          w w' h2 in
      let (inner', w2, e4, h4) =
        Runs.>>=-eq-ok (sign_all c calls tip price count count 0) _ (prepared w1 all) w' h3 in
      let (submissions', w3, e5, h5) = Runs.>>=-eq-ok (submit_all c calls 0 inner') _ w2 w' h4 in
      assemble count tip price all w w1 w2 w3 w' inner' inner submissions' submissions f e1 e2 e3 e4
        e5 (ap (λ q. q.0) (ok_injective (ap (λ q. q.0) h5)), ap (λ q. q.1) h5)
