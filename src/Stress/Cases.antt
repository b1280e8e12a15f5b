-- ===== src/Stress/Cases.antt =====
-- stress/stress_test.go: the tests that call transact, from the environment on that they have created,
-- and TestEmptyAccounts.
use shutter_tests.Prelude.{true, List, [], ◌∷◌}
use shutter_tests.Prelude.Runs.{◌>>=◌}
use shutter_tests.Chain.{Crypto}
use shutter_tests.Utils.Receipts.{Line}
use shutter_tests.Stress.World.{Act, StressEnvironment, StressCalls}
use shutter_tests.Stress.Limit.{exceeding_gas_limit, not_all_in_one_block}
use shutter_tests.Stress.Transact.{change, create_identity_prefix, transact}

-- An assignment to fields of the environment.
abbrev pub set_env : (StressEnvironment → StressEnvironment) → Act (Unit {0})
set_env f = change (λ w. record w { env = f w.env })

module _ (c : Crypto) (calls : StressCalls) where
  -- TestStressSingle, TestStressDualNoWait and TestStressManyNoWait.
  unfoldable pub test_stress_single : Act (List Line)
  test_stress_single = transact c calls 1

  unfoldable pub test_stress_dual_no_wait : Act (List Line)
  test_stress_dual_no_wait = transact c calls 2

  unfoldable pub test_stress_many_no_wait : Act (List Line)
  test_stress_many_no_wait = transact c calls 10

  unfoldable pub test_stress_dual_wait : Act (List Line)
  test_stress_dual_wait = do
    _ ← set_env (λ env. record env { wait_on_every_submit = true })
    transact c calls 2

  unfoldable pub test_stress_dual_duplicate_prefix : Act (List Line)
  test_stress_dual_duplicate_prefix = do
    prefix ← create_identity_prefix c calls
    _ ← set_env (λ env. record env { identity_prefixes = prefix ∷ prefix ∷ [] })
    transact c calls 2

  unfoldable pub test_stress_exceed_encrypted_gas_limit : Act (List Line)
  test_stress_exceed_encrypted_gas_limit = do
    _ ← set_env (λ env. record env {
      transact_gas_limit_fn = exceeding_gas_limit;
      inclusion_constraints = not_all_in_one_block;
    })
    transact c calls 2

  unfoldable pub test_incorrect_identity_suffix : Act (List Line)
  test_incorrect_identity_suffix = do
    _ ← set_env (λ env. record env { random_identity_suffix = true })
    transact c calls 1
