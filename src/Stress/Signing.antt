-- ===== src/Stress/Signing.antt =====
-- stress/stress_test.go: the prefixes that transact draws and the transactions that it signs.
use mathlib.Core.List.{append-nil, append_assoc}
use shutter_tests.Prelude.{
  ℕ, zero, suc, ◌+◌, ◌≡◌, refl, sym, ap, subst, ◌∙◌, arith, List, [], ◌∷◌, ◌++◌, some, length,
  AllFrom,
}
use shutter_tests.Prelude.Int.{ℤ, pos, ◌+ℤ◌}
use shutter_tests.Prelude.Outcomes.{ok, ok_injective}
use shutter_tests.Prelude.Runs.{>>=-eq-ok}
use shutter_tests.Prelude.Words.{uint64_of_big}
use shutter_tests.Chain.{Transaction, Crypto}
use shutter_tests.Utils.Account.{use_nonce, sign, sign-eq-ok}
use shutter_tests.Utils.Account.Nonces.{counted_up, counted_up_once}
use shutter_tests.Stress.World.{World, StressCalls, StressSetup, StressEnvironment}
use shutter_tests.Stress.Transact.{
  create_identity_prefix, random_sigma, more_prefixes, stress_transaction, sign_one, sign_all,
}
use shutter_tests.Stress.Submits.{Kept, Kept-refl, Kept-trans}

-- The i-th of the inner transactions: the nonce, the fees and the gas that it is signed with.
pub record IsInner (setup : StressSetup) (env : StressEnvironment) (tip price : ℤ) (count i : ℕ)
    (tx : Transaction) : Type 0 where
  pub nonce : tx.nonce ≡ uint64_of_big (setup.transact_account.nonce +ℤ pos i)
  pub to : tx.to ≡ some setup.submit_account.address
  pub value : tx.value ≡ pos 1
  pub chain_id : tx.chain_id ≡ setup.chain_id
  pub fee : tx.gas_fee_cap ≡ (env.transact_gas_price_fn tip price i count).fee
  pub tip_cap : tx.gas_tip_cap ≡ (env.transact_gas_price_fn tip price i count).tip
  pub gas : tx.gas ≡ env.transact_gas_limit_fn [] setup.submit_account.address i count

abbrev pub signed_so_far : World → ℕ → World
signed_so_far w i = record w {
  setup = record (w.setup) { transact_account = counted_up w.setup.transact_account i };
}

module _ (c : Crypto) (calls : StressCalls) where
  pub create_identity_prefix-Kept :
      (identity : ℕ) (w w' : World)
      → create_identity_prefix c calls w ≡ (ok identity, w')
      → Kept w w'
  unfolding create_identity_prefix random_sigma
  create_identity_prefix-Kept identity w w' h =
      subst (Kept w) (ap (λ r. r.1) h) (record { setup = refl; env = refl; submitted = refl })

  -- The prefixes that are there stay, and as many as are missing come behind them.
  pub more_prefixes-lem :
      (n : ℕ) (prefixes all : List ℕ) (w w' : World)
      → more_prefixes c calls n prefixes w ≡ (ok all, w')
      → (fresh : List ℕ) × (all ≡ prefixes ++ fresh) × (length fresh ≡ n) × Kept w w'
  unfolding more_prefixes
  more_prefixes-lem zero prefixes all w w' h = (
    [],
    sym (ok_injective (ap (λ r. r.0) h)) ∙ sym (append-nil prefixes),
    refl,
    subst (Kept w) (ap (λ r. r.1) h) (Kept-refl w),
  )
  more_prefixes-lem (suc n) prefixes all w w' h =
      let (identity, w1, e, h1) = >>=-eq-ok (create_identity_prefix c calls) _ w w' h in
      let (fresh, both, counted, k) =
        more_prefixes-lem n (prefixes ++ identity ∷ []) all w1 w' h1 in
      (
        identity ∷ fresh,
        both ∙ append_assoc prefixes (identity ∷ []) fresh,
        ap suc counted,
        Kept-trans (create_identity_prefix-Kept identity w w1 e) k,
      )

  sign_one-IsInner :
      (tip price : ℤ) (count i : ℕ) (w w' : World) (tx : Transaction)
      → sign_one c calls tip price i count (signed_so_far w i) ≡ (ok tx, w')
      → IsInner w.setup w.env tip price count i tx × (w' ≡ signed_so_far w (suc i))
  unfolding sign_one use_nonce stress_transaction sign
  sign_one-IsInner tip price count i w w' tx h =
      let e = sign-eq-ok c (counted_up w.setup.transact_account i) _ _ tx (ap (λ r. r.0) h) in
      (
        record {
          nonce = ap (λ t. t.nonce) e;
          to = ap (λ t. t.to) e;
          value = ap (λ t. t.value) e;
          chain_id = ap (λ t. t.chain_id) e;
          fee = ap (λ t. t.gas_fee_cap) e;
          tip_cap = ap (λ t. t.gas_tip_cap) e;
          gas = ap (λ t. t.gas) e;
        },
        ap (λ r. r.1) (sym h)
            ∙ ap (λ a. record w { setup = record (w.setup) { transact_account = a } })
                (counted_up_once w.setup.transact_account i),
      )

  pub sign_all-IsInner :
      (tip price : ℤ) (count n i : ℕ) (w w' : World) (txs : List Transaction)
      → sign_all c calls tip price count n i (signed_so_far w i) ≡ (ok txs, w')
      → AllFrom (IsInner w.setup w.env tip price count) i txs
        × (length txs ≡ n)
        × (w' ≡ signed_so_far w (n + i))
  unfolding sign_all
  sign_all-IsInner tip price count zero i w w' txs h =
      subst
        (λ ts.
          AllFrom (IsInner w.setup w.env tip price count) i ts
          × (length ts ≡ 0)
          × (w' ≡ signed_so_far w (0 + i)))
        (ok_injective (ap (λ r. r.0) h))
        (tt, refl, ap (λ r. r.1) (sym h) ∙ ap (signed_so_far w) (omega arith))
  sign_all-IsInner tip price count (suc n) i w w' txs h =
      let (tx, w1, e, h1) =
        >>=-eq-ok (sign_one c calls tip price i count) _ (signed_so_far w i) w' h in
      let (inner, e1) = sign_one-IsInner tip price count i w w1 tx e in
      let (rest, w2, e2, h2) = >>=-eq-ok (sign_all c calls tip price count n (i + 1)) _ w1 w' h1 in
      let (all, counted, last) = sign_all-IsInner tip price count n (suc i) w w2 rest (
        subst (λ k. sign_all c calls tip price count n k (signed_so_far w (suc i)) ≡ (ok rest, w2))
          (omega arith)
          (subst (λ v. sign_all c calls tip price count n (i + 1) v ≡ (ok rest, w2)) e1 e2)) in
      subst
        (λ ts.
          AllFrom (IsInner w.setup w.env tip price count) i ts
          × (length ts ≡ suc n)
          × (w' ≡ signed_so_far w (suc n + i)))
        (ok_injective (ap (λ r. r.0) h2))
        (
          (inner, all),
          ap suc counted,
          ap (λ r. r.1) (sym h2) ∙ last ∙ ap (signed_so_far w) (omega arith),
        )
