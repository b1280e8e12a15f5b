-- ===== src/Stress/Examples.antt =====
-- stress/stress_test.go: batches of two transactions and a setup, on small inputs.
use shutter_tests.Prelude.{refl, true, List}
use shutter_tests.Prelude.Outcomes.{Outcome, ok, err, panic}
use shutter_tests.Utils.Receipts.{Line, wait_for_tx_timeout}
use shutter_tests.Utils.Account.{sign}
use shutter_tests.Continuous.Samples.{plain}
use shutter_tests.Stress.World.{World}
use shutter_tests.Stress.Transact.{transact}
use shutter_tests.Stress.Cases.{
  test_stress_dual_duplicate_prefix, test_stress_exceed_encrypted_gas_limit,
}
use shutter_tests.Stress.Limit.{not_all_in_one_block}
use shutter_tests.Stress.Duplicate.{AreTwins, test_stress_dual_duplicate_prefix-AreTwins}
use shutter_tests.Stress.Exceeds.{Exceeds, test_stress_exceed_encrypted_gas_limit-Exceeds}
use shutter_tests.Stress.Stored.{IsStoredFirst, create_setup-IsStoredFirst}
use shutter_tests.Stress.Setup.{create_setup}
use shutter_tests.Stress.Samples.{test_world, test_calls, two_blocks, no_file, setup_calls}

abbrev lines_of : Outcome (List Line) → List Line
lines_of (ok lines) = lines
lines_of (err e) = List.[]
lines_of (panic p) = List.[]

abbrev after_two : Outcome (List Line) × World
after_two = transact plain test_calls 2 test_world

abbrev after_twins : Outcome (List Line) × World
after_twins = test_stress_dual_duplicate_prefix plain test_calls test_world

test_stress_dual_duplicate_prefix-AreTwins_example : AreTwins test_world after_twins.1
unfolding transact sign wait_for_tx_timeout test_stress_dual_duplicate_prefix
test_stress_dual_duplicate_prefix-AreTwins_example =
    test_stress_dual_duplicate_prefix-AreTwins plain test_calls test_world after_twins.1
      (lines_of after_twins.0) refl refl

abbrev after_exceeding : Outcome (List Line) × World
after_exceeding = test_stress_exceed_encrypted_gas_limit plain two_blocks test_world

test_stress_exceed_encrypted_gas_limit-Exceeds_example :
    Exceeds plain two_blocks test_world after_exceeding.1
unfolding transact sign wait_for_tx_timeout test_stress_exceed_encrypted_gas_limit
    not_all_in_one_block
test_stress_exceed_encrypted_gas_limit-Exceeds_example =
    test_stress_exceed_encrypted_gas_limit-Exceeds plain two_blocks test_world after_exceeding.1
      (lines_of after_exceeding.0) refl refl

create_setup-IsStoredFirst_example :
    IsStoredFirst plain setup_calls no_file (create_setup plain setup_calls true no_file).1
create_setup-IsStoredFirst_example = create_setup-IsStoredFirst plain setup_calls true no_file
