-- ===== src/Stress/Submits.antt =====
-- stress/stress_test.go: what a submission carries, and what submitting leaves as it was.
use shutter_tests.Prelude.{
  ℕ, ◌≡◌, refl, sym, ap, subst, ◌∙◌, false, List, [], ◌∷◌, ◌++◌, some, get_elem?,
}
use shutter_tests.Prelude.Int.{◌-ℤ◌}
use shutter_tests.Prelude.Outcomes.{Outcome, ok, err, panic, or_error, or_error-eq-ok, ok_injective}
use shutter_tests.Prelude.Runs.{>>=-eq-ok, ask-eq-ok}
use shutter_tests.Chain.{Transaction, Crypto}
use shutter_tests.Utils.Eon.{compute_identity}
use shutter_tests.Stress.World.{World, StressCalls, Submission}
use shutter_tests.Stress.Transact.{
  encrypt, prefix_for, suffix_for, random_sigma, submit, submit_encrypted_tx, paying,
  could_not_encrypt,
}

-- The message is the transaction, encrypted for the key of the eon and for the identity that the
-- prefix and the submitter make up.
pub record IsEncrypted (c : Crypto) (calls : StressCalls) (key submitter prefix : ℕ)
    (tx : Transaction) (message : List ℕ) : Type 0 where
  pub bytes : List ℕ
  pub sigma : ℕ
  pub marshals : c.marshal_binary tx ≡ ok bytes
  pub encrypts :
      message ≡ c.encrypt bytes key (compute_identity c (calls.block_bytes prefix) submitter) sigma

-- What the steps leave as it was that only draw random numbers or wait.
pub record Kept (w w' : World) : Type 0 where
  pub setup : w'.setup ≡ w.setup
  pub env : w'.env ≡ w.env
  pub submitted : w'.submitted ≡ w.submitted

pub Kept-refl : (w : World) → Kept w w
Kept-refl w = record { setup = refl; env = refl; submitted = refl }

pub Kept-trans : {u v w : World} → Kept u v → Kept v w → Kept u w
Kept-trans k l = record {
  setup = l.setup ∙ k.setup;
  env = l.env ∙ k.env;
  submitted = l.submitted ∙ k.submitted;
}

module _ (c : Crypto) (calls : StressCalls) where
  prefix_found :
      (i prefix : ℕ) (w : World)
      → get_elem? w.env.identity_prefixes i ≡ some prefix
      → prefix_for c calls i w ≡ (ok prefix, w)
  unfolding prefix_for
  prefix_found i prefix w p = rw (prefix_for, p) refl

  suffix_own :
      (submitter : ℕ) (w : World)
      → w.env.random_identity_suffix ≡ false
      → suffix_for c calls submitter w ≡ (ok submitter, w)
  unfolding suffix_for
  suffix_own submitter w f = rw f refl

  prefix_for-Kept :
      (i prefix drawn : ℕ) (w w' : World)
      → get_elem? w.env.identity_prefixes i ≡ some prefix
      → prefix_for c calls i w ≡ (ok drawn, w')
      → (drawn ≡ prefix) × Kept w w'
  prefix_for-Kept i prefix drawn w w' p h =
      let e = sym h ∙ prefix_found i prefix w p in
      (ok_injective (ap (λ r. r.0) e), subst (Kept w) (sym (ap (λ r. r.1) e)) (Kept-refl w))

  suffix_for-Kept :
      (submitter suffix : ℕ) (w w' : World)
      → w.env.random_identity_suffix ≡ false
      → suffix_for c calls submitter w ≡ (ok suffix, w')
      → (suffix ≡ submitter) × Kept w w'
  suffix_for-Kept submitter suffix w w' f h =
      let e = sym h ∙ suffix_own submitter w f in
      (ok_injective (ap (λ r. r.0) e), subst (Kept w) (sym (ap (λ r. r.1) e)) (Kept-refl w))

  encrypt-Kept :
      (tx : Transaction) (submitter i prefix : ℕ) (w w' : World) (r : List ℕ × ℕ)
      → w.env.random_identity_suffix ≡ false
      → get_elem? w.env.identity_prefixes i ≡ some prefix
      → encrypt c calls tx submitter i w ≡ (ok r, w')
      → Kept w w'
        × (r.1 ≡ prefix)
        × IsEncrypted c calls w.env.eon_public_key submitter prefix tx r.0
  unfolding encrypt random_sigma
  encrypt-Kept tx submitter i prefix w w' r f p h =
      let (sigma, w1, e1, h1) =
        >>=-eq-ok
          (λ v. (
            or_error (random_sigma c calls v).0 "could not get sigma bytes",
            (random_sigma c calls v).1,
          ))
          _ w w' h in
      let (drawn, w2, e2, h2) = >>=-eq-ok (prefix_for c calls i) _ w1 w' h1 in
      let (suffix, w3, e3, h3) = >>=-eq-ok (suffix_for c calls submitter) _ w2 w' h2 in
      let (buff, e4, h4) =
        ask-eq-ok (or_error (c.marshal_binary tx) "failed encode RLP") _ w3 w' h3 in
      let (_, e5, h5) =
        ask-eq-ok (or_error (calls.marshal_json tx) "failed to marshal json") _ w3 w' h4 in
      let k1 : Kept w w1 =
        subst (Kept w) (ap (λ x. x.1) e1) (record { setup = refl; env = refl; submitted = refl }) in
      let (same, k2) =
        prefix_for-Kept i prefix drawn w1 w2
          (subst (λ env. get_elem? env.identity_prefixes i ≡ some prefix) (sym k1.env) p) e2 in
      let k12 = Kept-trans k1 k2 in
      let (own, k3) =
        suffix_for-Kept submitter suffix w2 w3
          (subst (λ env. env.random_identity_suffix ≡ false) (sym k12.env) f) e3 in
      let e : r ≡ (
        c.encrypt buff w.env.eon_public_key (compute_identity c (calls.block_bytes drawn) suffix)
            sigma,
        drawn,
      ) =
        sym (ok_injective (ap (λ x. x.0) h5)) in
      (
        subst (Kept w) (ap (λ x. x.1) h5) (Kept-trans k12 k3),
        ap (λ x. x.1) e ∙ same,
        record {
          bytes = buff;
          sigma = sigma;
          marshals = or_error-eq-ok (c.marshal_binary tx) "failed encode RLP" e4;
          encrypts =
              ap (λ x. x.0) e
              ∙ ap
                  (λ d.
                    c.encrypt buff w.env.eon_public_key
                      (compute_identity c (calls.block_bytes d) suffix) sigma)
                  same
              ∙ ap
                  (λ d.
                    c.encrypt buff w.env.eon_public_key
                      (compute_identity c (calls.block_bytes prefix) d) sigma)
                  own;
        },
      )

  could_not_encrypt-eq-ok :
      (o : Outcome (List ℕ × ℕ) × World) {r : List ℕ × ℕ} {w : World}
      → could_not_encrypt c calls o ≡ (ok r, w)
      → o ≡ (ok r, w)
  unfolding could_not_encrypt
  could_not_encrypt-eq-ok (ok a, v) h = h
  could_not_encrypt-eq-ok (err e, v) h = cc h
  could_not_encrypt-eq-ok (panic p, v) h = cc h

  -- The submission that a call adds, and what it leaves as it was.
  pub record IsSubmission (w : World) (i : ℕ) (tx : Transaction) (s : Submission) : Type 0 where
    pub from : s.options.from ≡ w.env.submitter_opts.from
    pub nonce : s.options.nonce ≡ w.env.submitter_opts.nonce
    pub value : s.options.value ≡ c.cost tx -ℤ tx.value
    pub eon : s.eon ≡ w.env.eon
    pub gas : s.gas ≡ tx.gas
    pub prefix : get_elem? w.env.identity_prefixes i ≡ some s.prefix
    pub message :
        IsEncrypted c calls w.env.eon_public_key w.setup.submit_account.address s.prefix tx
          s.encrypted

  pub record Submits (w w' : World) (i : ℕ) (tx : Transaction) : Type 0 where
    pub new : Submission
    pub setup : w'.setup ≡ w.setup
    pub env : w'.env ≡ w.env
    pub submitted : w'.submitted ≡ w.submitted ++ new ∷ []
    pub is : IsSubmission w i tx new

  submit-lem :
      (s : Submission) (w w' : World) (tx : Transaction)
      → submit c calls s w ≡ (ok tx, w')
      → w' ≡ record w { submitted = w.submitted ++ s ∷ [] }
  unfolding submit
  submit-lem s w w' tx h =
      let (sent, e, h1) =
        ask-eq-ok
          (or_error (calls.submit_encrypted s.options s.eon s.prefix s.encrypted s.gas)
            "Could not submit")
          _ w w' h in
      ap (λ r. r.1) (sym h1)

  pub submit_encrypted_tx-Submits :
      (tx submit_tx : Transaction) (i prefix : ℕ) (w w' : World)
      → w.env.random_identity_suffix ≡ false
      → get_elem? w.env.identity_prefixes i ≡ some prefix
      → submit_encrypted_tx c calls tx i w ≡ (ok submit_tx, w')
      → Submits w w' i tx
  unfolding submit_encrypted_tx paying could_not_encrypt
  submit_encrypted_tx-Submits tx submit_tx i prefix w w' f p h =
      let ((encrypted, drawn), w1, e1, h1) =
        >>=-eq-ok
          (λ v. could_not_encrypt c calls (encrypt c calls tx w.setup.submit_account.address i v)) _
          w w' h in
      let (k, same, message) =
        encrypt-Kept tx w.setup.submit_account.address i prefix w w1 (encrypted, drawn) f p
          (could_not_encrypt-eq-ok (encrypt c calls tx w.setup.submit_account.address i w) e1) in
      let new : Submission = record {
        options = paying c calls tx w.env.submitter_opts;
        eon = w.env.eon;
        prefix = drawn;
        encrypted = encrypted;
        gas = tx.gas;
      } in
      let e = submit-lem new w1 w' submit_tx h1 in
      record {
        new = new;
        setup = ap (λ v. v.setup) e ∙ k.setup;
        env = ap (λ v. v.env) e ∙ k.env;
        submitted = ap (λ v. v.submitted) e ∙ ap (λ ss. ss ++ new ∷ []) k.submitted;
        is = record {
          from = refl;
          nonce = refl;
          value = refl;
          eon = refl;
          gas = refl;
          prefix = p ∙ ap some (sym same);
          message =
              subst
                (λ d.
                  IsEncrypted c calls w.env.eon_public_key w.setup.submit_account.address d tx
                    encrypted)
                (sym same) message;
        };
      }
