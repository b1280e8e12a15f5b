-- ===== src/Stress/Exceeds.antt =====
-- stress/stress_test.go: the gas of the batch that TestStressExceedEncryptedGasLimit sends.
use shutter_tests.Prelude.{
  ℕ, suc, ◌+◌, ◌≤◌, ◌<◌, ◌≡◌, refl, sym, ap, subst, ◌∙◌, arith, false, List, [], ◌∷◌, ◌++◌, AllFrom,
  All, inl, inr, Pairs, none_left, pair, length,
}
use shutter_tests.Prelude.Int.{ℤ}
use shutter_tests.Prelude.Outcomes.{ok, panic, index_out_of_range}
use shutter_tests.Chain.{Transaction, Receipt, Crypto}
use shutter_tests.Utils.Account.{Account}
use shutter_tests.Utils.Receipts.{Line}
use shutter_tests.Stress.World.{World, StressSetup, StressEnvironment, StressCalls, Submission}
use shutter_tests.Stress.Limit.{
  not_all_in_one_block, exceeding_gas_limit, total_gas, exceeding_gas_limit-total,
}
use shutter_tests.Stress.Signing.{IsInner}
use shutter_tests.Stress.Batches.{Carries}
use shutter_tests.Stress.Whole.{IsMined, transact-IsTransacted}
use shutter_tests.Stress.Sent.{IsSent}
use shutter_tests.Stress.Spread.{InBlock, not_all_in_one_block-cases}
use shutter_tests.Stress.Cases.{test_stress_exceed_encrypted_gas_limit}

abbrev pub submitted_gas : List Submission → ℕ
submitted_gas [] = 0
submitted_gas (s ∷ ss) = s.gas + submitted_gas ss

-- What is submitted is the gas that the limits give to the inner transactions.
submitted_gas-total :
    (c : Crypto) (calls : StressCalls) (setup : StressSetup) (env : StressEnvironment)
    (account : Account) (tip price : ℤ) (count i : ℕ) (txs : List Transaction)
    (ss : List Submission)
    → AllFrom (IsInner setup env tip price count) i txs
    → Pairs (Carries c calls account env) i txs ss
    → submitted_gas ss
      ≡ total_gas env.transact_gas_limit_fn setup.submit_account.address count (length txs) i
unfolding total_gas
submitted_gas-total c calls setup env account tip price count i [] [] all none_left = refl
submitted_gas-total c calls setup env account tip price count i [] (s ∷ ss) all p = elim p [ ]
submitted_gas-total c calls setup env account tip price count i (tx ∷ txs) [] all p = elim p [ ]
submitted_gas-total c calls setup env account tip price count i (tx ∷ txs) (s ∷ ss) all
      (pair p ps) =
    ap (λ g. g + submitted_gas ss) (p.gas ∙ all.0.gas)
    ∙ ap (λ g. env.transact_gas_limit_fn [] setup.submit_account.address i count + g)
        (submitted_gas-total c calls setup env account tip price count (suc i) txs ss all.1 ps)

-- With the gas limits of TestStressExceedEncryptedGasLimit, one to 48 transactions take one more than a
-- million of gas together.
exceeds :
    (c : Crypto) (calls : StressCalls) (count : ℕ) (w w' : World)
    → 0 < count
    → count ≤ 48
    → w.env.transact_gas_limit_fn ≡ exceeding_gas_limit
    → (s : IsSent c calls count w w') → submitted_gas s.submissions ≡ 1_000_001
exceeds c calls count w w' lo hi limit s =
    submitted_gas-total c calls w.setup _ w.setup.submit_account s.tip s.price count 0 s.inner
      s.submissions s.signed s.carries
    ∙ ap (λ fn. total_gas fn w.setup.submit_account.address count (length s.inner) 0) limit
    ∙ ap (λ n. total_gas exceeding_gas_limit w.setup.submit_account.address count n 0) s.counted
    ∙ exceeding_gas_limit-total w.setup.submit_account.address count lo hi

no_receipts : not_all_in_one_block [] ≡ panic index_out_of_range
unfolding not_all_in_one_block
no_receipts = refl

-- A constraint that is satisfied tells of receipts that are not all in one block.
satisfied :
    (receipts counted : List Receipt)
    → not_all_in_one_block receipts ≡ ok counted
    → ¬ ((n : ℕ) × All (InBlock n) receipts)
satisfied [] counted h = cc (subst (λ o. o ≡ ok counted) no_receipts h)
satisfied (r ∷ rs) counted h = elim (not_all_in_one_block-cases r rs) [
  | inl (failed, same) ↦ absurd (ground (arith, sym failed ∙ h))
  | inr (sorted, passed, rearranged, other) ↦ other
]

-- The test's environment: its gas limits and its constraint.
abbrev pub exceeding : World → World
exceeding w = record w {
  env = record (w.env) {
    transact_gas_limit_fn = exceeding_gas_limit;
    inclusion_constraints = not_all_in_one_block;
  };
}

-- What the test has shown where it succeeds.
pub record Exceeds (c : Crypto) (calls : StressCalls) (w w' : World) : Type 0 where
  pub sent : IsSent c calls 2 (exceeding w) w'
  pub receipts : List Receipt
  pub submitted : w'.submitted ≡ w.submitted ++ sent.submissions
  pub gas : submitted_gas sent.submissions ≡ 1_000_001
  pub mined : Pairs (IsMined calls) 0 sent.inner receipts
  pub apart : ¬ ((n : ℕ) × All (InBlock n) receipts)

-- If TestStressExceedEncryptedGasLimit goes through, and no random suffix was asked for, then it has
-- sent two transactions, which were submitted for one more than a million of gas together; WaitMined
-- answered a receipt with status 1 for each of the two; and those receipts are not of one block.
pub test_stress_exceed_encrypted_gas_limit-Exceeds :
    (c : Crypto) (calls : StressCalls) (w w' : World) (lines : List Line)
    → w.env.random_identity_suffix ≡ false
    → test_stress_exceed_encrypted_gas_limit c calls w ≡ (ok lines, w')
    → Exceeds c calls w w'
unfolding test_stress_exceed_encrypted_gas_limit
test_stress_exceed_encrypted_gas_limit-Exceeds c calls w w' lines f h =
    let t = transact-IsTransacted c calls 2 (exceeding w) w' lines f h in
    record {
      sent = t.sent;
      receipts = t.receipts;
      submitted = t.sent.submitted;
      gas = exceeds c calls 2 (exceeding w) w' (omega arith) (omega arith) refl t.sent;
      mined = t.mined;
      apart = satisfied t.receipts t.counted t.satisfied;
    }
