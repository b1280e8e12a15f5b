-- ===== src/Stress/Batches.antt =====
-- stress/stress_test.go: what the loop of transact submits.
use mathlib.Core.List.{append-nil, append_assoc}
use shutter_tests.Prelude.{
  ℕ, suc, ◌+◌, ◌≤◌, ◌<◌, ◌≡◌, refl, sym, ap, subst, ◌∙◌, arith, Bool, true, false, List, [], ◌∷◌,
  ◌++◌, some, get_elem?, get_elem?-some, length, Pairs, none_left, pair,
}
use shutter_tests.Prelude.Int.{ℤ, pos, ◌+ℤ◌, ◌-ℤ◌}
use shutter_tests.Prelude.Outcomes.{ok}
use shutter_tests.Prelude.Runs.{>>=-eq-ok}
use shutter_tests.Chain.{Transaction, Receipt, Crypto}
use shutter_tests.Utils.Account.{Account, use_nonce}
use shutter_tests.Stress.World.{World, StressCalls, StressSetup, StressEnvironment, Submission}
use shutter_tests.Stress.Transact.{
  next_submit_nonce, wait_for, wait_if, submit_encrypted_tx, submit_all,
}
use shutter_tests.Stress.Submits.{Kept, Kept-refl, IsEncrypted, submit_encrypted_tx-Submits}
use shutter_tests.Utils.Account.Nonces.{counted_up, counted_up_once, not_counted_up}

abbrev pub with_submitter : StressSetup → Account → StressSetup
with_submitter t a = record t { submit_account = a }

abbrev pub with_last : StressEnvironment → ℤ → StressEnvironment
with_last e z = record e { submitter_opts = record (e.submitter_opts) { nonce = z } }

-- The state once the nonces were used i times, whatever else was submitted, drawn and waited for.
pub record After (w : World) (i : ℕ) (v : World) : Type 0 where
  pub last : ℤ
  pub setup : v.setup ≡ with_submitter w.setup (counted_up w.setup.submit_account i)
  pub env : v.env ≡ with_last w.env last

pub unused : (w : World) → After w 0 w
unused w = record {
  last = w.env.submitter_opts.nonce;
  setup = ap (with_submitter w.setup) (not_counted_up w.setup.submit_account);
  env = refl;
}

Kept-After : {w u v : World} {i : ℕ} → After w i u → Kept u v → After w i v
Kept-After a k = record { last = a.last; setup = k.setup ∙ a.setup; env = k.env ∙ a.env }

module _ (c : Crypto) (calls : StressCalls) where
  pub wait_for-Kept :
      (tx : Transaction) (receipt : Receipt) (w w' : World)
      → wait_for c calls tx w ≡ (ok receipt, w')
      → Kept w w'
  unfolding wait_for
  wait_for-Kept tx receipt w w' h =
      subst (Kept w) (ap (λ r. r.1) h) (record { setup = refl; env = refl; submitted = refl })

  wait_if-Kept :
      (wait : Bool) (tx : Transaction) (u : Unit {0}) (w w' : World)
      → wait_if c calls wait tx w ≡ (ok u, w')
      → Kept w w'
  unfolding wait_if
  wait_if-Kept false tx u w w' h = subst (Kept w) (ap (λ r. r.1) h) (Kept-refl w)
  wait_if-Kept true tx u w w' h =
      let (receipt, w1, e, h1) = >>=-eq-ok (wait_for c calls tx) _ w w' h in
      subst (Kept w) (ap (λ r. r.1) h1) (wait_for-Kept tx receipt w w1 e)

  -- What the i-th submission carries, told by the state before the loop.
  pub record Carries (account : Account) (env : StressEnvironment) (i : ℕ) (tx : Transaction)
      (s : Submission) : Type 0 where
    pub from : s.options.from ≡ env.submitter_opts.from
    pub nonce : s.options.nonce ≡ account.nonce +ℤ pos i
    pub value : s.options.value ≡ c.cost tx -ℤ tx.value
    pub eon : s.eon ≡ env.eon
    pub gas : s.gas ≡ tx.gas
    pub prefix : get_elem? env.identity_prefixes i ≡ some s.prefix
    pub message : IsEncrypted c calls env.eon_public_key account.address s.prefix tx s.encrypted

  -- One round of the loop that submits.
  round :
      (i : ℕ) (tx submit_tx : Transaction) (w v v' : World)
      → w.env.random_identity_suffix ≡ false
      → i < length w.env.identity_prefixes
      → After w i v
      → submit_encrypted_tx c calls tx i (next_submit_nonce c calls v) ≡ (ok submit_tx, v')
      → (s : Submission) × (v'.submitted ≡ v.submitted ++ s ∷ [])
        × Carries w.setup.submit_account w.env i tx s
        × After w (suc i) v'
  unfolding next_submit_nonce use_nonce
  round i tx submit_tx w v v' f l a h =
      let (prefix, p) = get_elem?-some w.env.identity_prefixes i l in
      let r =
        submit_encrypted_tx-Submits c calls tx submit_tx i prefix _ v'
          (ap (λ e. e.random_identity_suffix) a.env ∙ f)
          (ap (λ e. get_elem? e.identity_prefixes i) a.env ∙ p) h in
      (
        r.new,
        r.submitted,
        record {
          from = r.is.from ∙ ap (λ e. e.submitter_opts.from) a.env;
          nonce = r.is.nonce ∙ ap (λ s. s.submit_account.nonce) a.setup;
          value = r.is.value;
          eon = r.is.eon ∙ ap (λ e. e.eon) a.env;
          gas = r.is.gas;
          prefix = ap (λ e. get_elem? e.identity_prefixes i) (sym a.env) ∙ r.is.prefix;
          message =
              subst
                (λ e.
                  IsEncrypted c calls e.eon_public_key w.setup.submit_account.address r.new.prefix
                    tx r.new.encrypted)
                a.env
                (subst
                  (λ t.
                    IsEncrypted c calls v.env.eon_public_key t.submit_account.address r.new.prefix
                      tx r.new.encrypted)
                  a.setup r.is.message);
        },
        record {
          last = v.setup.submit_account.nonce;
          setup =
              r.setup
              ∙ ap (λ t. with_submitter t (counted_up t.submit_account 1)) a.setup
              ∙ ap (with_submitter w.setup) (counted_up_once w.setup.submit_account i);
          env = r.env ∙ ap (λ e. with_last e v.setup.submit_account.nonce) a.env;
        },
      )

  -- All rounds.
  pub record Submitted (w : World) (i : ℕ) (txs : List Transaction) (v v' : World) : Type 0 where
    pub new : List Submission
    pub submitted : v'.submitted ≡ v.submitted ++ new
    pub carries : Pairs (Carries w.setup.submit_account w.env) i txs new
    pub after : After w (length txs + i) v'

  pub submit_all-Submitted :
      (i : ℕ) (txs submissions : List Transaction) (w v v' : World)
      → w.env.random_identity_suffix ≡ false
      → i + length txs ≤ length w.env.identity_prefixes
      → After w i v
      → submit_all c calls i txs v ≡ (ok submissions, v')
      → Submitted w i txs v v'
  unfolding submit_all
  submit_all-Submitted i [] submissions w v v' f l a h =
      subst (Submitted w i [] v) (ap (λ r. r.1) h) (record {
        new = [];
        submitted = sym (append-nil v.submitted);
        carries = none_left;
        after = subst (λ k. After w k v) (omega arith) a;
      })
  submit_all-Submitted i (tx ∷ txs) submissions w v v' f l a h =
      let (submit_tx, v1, e1, h1) =
        >>=-eq-ok (submit_encrypted_tx c calls tx i) _ (next_submit_nonce c calls v) v' h in
      let (_, v2, e2, h2) =
        >>=-eq-ok (wait_if c calls v.env.wait_on_every_submit submit_tx) _ v1 v' h1 in
      let (rest, v3, e3, h3) = >>=-eq-ok (submit_all c calls (i + 1) txs) _ v2 v' h2 in
      let (s, submitted, carries, after) = round i tx submit_tx w v v1 f (omega (arith, l)) a e1 in
      let k = wait_if-Kept v.env.wait_on_every_submit submit_tx _ v1 v2 e2 in
      let r =
        submit_all-Submitted (suc i) txs rest w v2 v3 f (omega (arith, l)) (Kept-After after k)
          (subst (λ j. submit_all c calls j txs v2 ≡ (ok rest, v3)) (omega arith) e3) in
      subst (Submitted w i (tx ∷ txs) v) (ap (λ q. q.1) h3) (record {
        new = s ∷ r.new;
        submitted =
            r.submitted
            ∙ ap (λ ss. ss ++ r.new) (k.submitted ∙ submitted)
            ∙ append_assoc v.submitted (s ∷ []) r.new;
        carries = pair carries r.carries;
        after = subst (λ j. After w j v3) (omega arith) r.after;
      })
