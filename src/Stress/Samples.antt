-- ===== src/Stress/Samples.antt =====
-- stress/stress_test.go: a setup, an environment and a node that answers.
use shutter_tests.Prelude.{◌+◌, false, [], ◌∷◌, none}
use shutter_tests.Prelude.Int.{pos}
use shutter_tests.Prelude.Outcomes.{ok}
use shutter_tests.Continuous.System.{blank}
use shutter_tests.Continuous.Samples.{tester, submitter}
use shutter_tests.Continuous.Machine.{Machine}
use shutter_tests.Stress.Connect.{SetupCalls}
use shutter_tests.Stress.World.{World, StressSetup, StressEnvironment, StressCalls}

abbrev pub test_setup : StressSetup
test_setup = record {
  chain_id = pos 100;
  submit_account = submitter;
  transact_account = tester;
  sequencer = 7;
  sequencer_contract_address = 7;
  keyper_set_manager = 8;
  key_broadcast_contract = 9;
}

abbrev pub test_env : StressEnvironment
test_env = record {
  transact_gas_price_fn = λ tip price i count. record { fee = price; tip = tip };
  transact_gas_limit_fn = λ payload to i count. 21000;
  inclusion_constraints = λ receipts. ok receipts;
  submitter_opts = record {
    nonce = pos 0;
    from = submitter.address;
    signer = submitter;
    value = pos 0;
    gas_fee_cap = pos 0;
    gas_tip_cap = pos 0;
  };
  eon = 3;
  eon_public_key = 9;
  wait_on_every_submit = false;
  identity_prefixes = 50 ∷ [];
  random_identity_suffix = false;
}

abbrev pub test_world : World
test_world = record { setup = test_setup; env = test_env; submitted = []; draws = 0; waits = 0 }

abbrev pub test_calls : StressCalls
test_calls = record {
  suggest_tip = ok (pos 1);
  suggest_price = ok (pos 2);
  random_sigma = λ k. ok k;
  generate_key = λ k. ok k;
  block_bytes = λ block. block ∷ [];
  marshal_json = λ tx. ok tt;
  submit_encrypted = λ options eon prefix encrypted gas. ok blank;
  mined = λ k tx. ok (record { status = 1; block_number = 12; gas_used = 21000 });
}

-- The receipts are of one block after the other.
abbrev pub two_blocks : StressCalls
two_blocks = record test_calls {
  mined = λ k tx. ok (record { status = 1; block_number = 12 + k; gas_used = 21000 });
}

abbrev pub no_file : Machine
no_file = record { pk_hex = none; sent = [] }

abbrev pub setup_calls : SetupCalls
setup_calls = record {
  env = λ name. "0x64";
  dial = λ url. ok tt;
  network_id = ok (pos 100);
  codec = record { from_ecdsa = λ key. key ∷ []; hex_to_ecdsa = λ text. ok 2 };
  generate_key = ok 1;
  open_error = none;
  write_error = λ i. none;
  gas_price = ok (pos 2);
  head_nonce = ok 5;
  send_error = none;
  mined = ok (record { status = 1; block_number = 12; gas_used = 21000 });
  bindings = record {
    hex_to_address = λ text. 7;
    new_keyper_set_manager = λ address. ok address;
    new_key_broadcast_contract = λ address. ok address;
    new_sequencer = λ address. ok address;
    new_deposit_contract = λ address. ok address;
  };
}
