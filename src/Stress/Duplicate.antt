-- ===== src/Stress/Duplicate.antt =====
-- stress/stress_test.go: what two of the tests have sent where they succeed.
use shutter_tests.Prelude.{
  ℕ, ◌≡◌, refl, sym, ap, ◌∙◌, arith, false, List, [], ◌∷◌, ◌++◌, Pairs, none_left, pair, length,
  some_injective, get_elem?,
}
use shutter_tests.Prelude.Outcomes.{ok}
use shutter_tests.Prelude.Int.{pos, ◌+ℤ◌}
use shutter_tests.Prelude.Runs.{>>=-eq-ok}
use shutter_tests.Chain.{Transaction, Crypto}
use shutter_tests.Utils.Receipts.{Line}
use shutter_tests.Stress.World.{World, StressEnvironment, StressCalls, Submission}
use shutter_tests.Stress.Transact.{create_identity_prefix}
use shutter_tests.Stress.Signing.{create_identity_prefix-Kept}
use shutter_tests.Stress.Batches.{Carries}
use shutter_tests.Stress.Whole.{transact-IsTransacted}
use shutter_tests.Stress.Cases.{test_stress_dual_duplicate_prefix}

-- Two submissions of the same account, one after the other, with the same prefix.
pub record AreTwins (w w' : World) : Type 0 where
  pub first : Submission
  pub second : Submission
  pub submitted : w'.submitted ≡ w.submitted ++ first ∷ second ∷ []
  pub same_prefix : first.prefix ≡ second.prefix
  pub first_nonce : first.options.nonce ≡ w.setup.submit_account.nonce +ℤ pos 0
  pub second_nonce : second.options.nonce ≡ w.setup.submit_account.nonce +ℤ pos 1

module _ (c : Crypto) (calls : StressCalls) where
  twins :
      (env : StressEnvironment) (prefix : ℕ) (fresh : List ℕ) (w w' : World)
      (inner : List Transaction) (ss : List Submission)
      → env.identity_prefixes ≡ prefix ∷ prefix ∷ fresh
      → length inner ≡ 2
      → Pairs (Carries c calls w.setup.submit_account env) 0 inner ss
      → w'.submitted ≡ w.submitted ++ ss
      → AreTwins w w'
  twins env prefix fresh w w' [] ss e n ps h = absurd (omega (arith, n))
  twins env prefix fresh w w' (t ∷ []) ss e n ps h = absurd (omega (arith, n))
  twins env prefix fresh w w' (t ∷ t' ∷ t'' ∷ ts) ss e n ps h = absurd (omega (arith, n))
  twins env prefix fresh w w' (t ∷ t' ∷ []) [] e n ps h = elim ps [ ]
  twins env prefix fresh w w' (t ∷ t' ∷ []) (s ∷ []) e n (pair p ps) h = elim ps [ ]
  twins env prefix fresh w w' (t ∷ t' ∷ []) (s ∷ s' ∷ s'' ∷ ss) e n (pair p (pair p' ps)) h =
      elim ps [ ]
  twins env prefix fresh w w' (t ∷ t' ∷ []) (s ∷ s' ∷ []) e n (pair p (pair p' none_left)) h =
      record {
        first = s;
        second = s';
        submitted = h;
        same_prefix = some_injective (
            sym p.prefix
            ∙ ap (λ ps. get_elem? ps 0) e
            ∙ ap (λ ps. get_elem? ps 1) (sym e)
            ∙ p'.prefix);
        first_nonce = p.nonce;
        second_nonce = p'.nonce;
      }

  -- If TestStressDualDuplicatePrefix goes through, its two transactions were submitted one after the
  -- other, with the same prefix and the next two nonces of the submitting account, and nothing else.
  pub test_stress_dual_duplicate_prefix-AreTwins :
      (w w' : World) (lines : List Line)
      → w.env.random_identity_suffix ≡ false
      → test_stress_dual_duplicate_prefix c calls w ≡ (ok lines, w')
      → AreTwins w w'
  unfolding test_stress_dual_duplicate_prefix
  test_stress_dual_duplicate_prefix-AreTwins w w' lines f h =
      let (prefix, w1, e1, h1) = >>=-eq-ok (create_identity_prefix c calls) _ w w' h in
      let k = create_identity_prefix-Kept c calls prefix w w1 e1 in
      let v : World = record w1 {
        env = record (w1.env) { identity_prefixes = prefix ∷ prefix ∷ [] };
      } in
      let s =
        (transact-IsTransacted c calls 2 v w' lines (ap (λ e. e.random_identity_suffix) k.env ∙ f)
          h1).sent in
      let t =
        twins _ prefix s.fresh v w' s.inner s.submissions refl s.counted s.carries s.submitted in
      record {
        first = t.first;
        second = t.second;
        submitted = t.submitted ∙ ap (λ ss. ss ++ t.first ∷ t.second ∷ []) k.submitted;
        same_prefix = t.same_prefix;
        first_nonce = t.first_nonce ∙ ap (λ g. g.submit_account.nonce +ℤ pos 0) k.setup;
        second_nonce = t.second_nonce ∙ ap (λ g. g.submit_account.nonce +ℤ pos 1) k.setup;
      }
