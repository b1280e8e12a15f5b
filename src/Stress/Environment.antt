-- ===== src/Stress/Environment.antt =====
-- stress/stress_test.go: createStressEnvironment.
use shutter_tests.Prelude.{ℕ, List, [], false}
use shutter_tests.Prelude.Int.{pos}
use shutter_tests.Prelude.Words.{int64_of_uint64}
use shutter_tests.Prelude.Outcomes.{Outcome, ok, or_error, ◌>>=◌}
use shutter_tests.Utils.Gas.{Float64, default_gas_price_fn}
use shutter_tests.Utils.Eon.{EonCalls, get_eon_key}
use shutter_tests.Stress.World.{StressSetup, StressEnvironment}

unfoldable pub default_gas_limit_fn : List ℕ → ℕ → ℕ → ℕ → ℕ
default_gas_limit_fn payload to i count = 21000

-- The literal. The nonce of SubmitterOpts is nil until transact sets it.
unfoldable pub new_environment : Float64 → StressSetup → ℕ → ℕ → StressEnvironment
unfolding default_gas_limit_fn
new_environment f setup eon eon_key = record {
  transact_gas_price_fn = λ tip price i count. default_gas_price_fn f tip price;
  transact_gas_limit_fn = default_gas_limit_fn;
  inclusion_constraints = λ receipts. ok receipts;
  submitter_opts = record {
    nonce = pos 0;
    from = setup.submit_account.address;
    signer = setup.submit_account;
    value = pos 0;
    gas_fee_cap = pos 0;
    gas_tip_cap = pos 0;
  };
  eon = eon;
  eon_public_key = eon_key;
  wait_on_every_submit = false;
  identity_prefixes = [];
  random_identity_suffix = false;
}

-- createStressEnvironment, with the setup whose accounts get the pending nonces.
unfoldable pub create_stress_environment :
    Float64 → EonCalls → (ℕ → Outcome ℕ) → StressSetup → Outcome (StressSetup × StressEnvironment)
unfolding new_environment
create_stress_environment f calls pending_nonce setup = do
  (eon, eon_key) ← or_error (get_eon_key calls 2) "could not get eonKey"
  submitter_nonce ←
      or_error (pending_nonce setup.submit_account.address) "could not query starting nonce"
  transact_nonce ←
      or_error (pending_nonce setup.transact_account.address) "could not query starting nonce"
  ok (
    record setup {
      submit_account = record (setup.submit_account) { nonce = int64_of_uint64 submitter_nonce };
      transact_account = record (setup.transact_account) { nonce = int64_of_uint64 transact_nonce };
    },
    new_environment f setup eon eon_key,
  )
