-- ===== src/Stress/Connect.antt =====
-- stress/stress_test.go: the parts of createSetup that only read the environment and ask the node.
use shutter_tests.Prelude.{ℕ, String, Option}
use shutter_tests.Prelude.Int.{ℤ}
use shutter_tests.Prelude.Text.{codes}
use shutter_tests.Prelude.Outcomes.{Outcome, ok, or_error, ◌>>=◌}
use shutter_tests.Chain.{Receipt, Crypto}
use shutter_tests.Utils.Account.{Account, account_from_private_key}
use shutter_tests.Utils.Repair.{read_string_from_env}
use shutter_tests.Utils.PkFile.{KeyCodec}
use shutter_tests.Utils.Contracts.{Bindings, Contracts, setup_contracts}

-- What is answered to createSetup.
pub record SetupCalls : Type 0 where
  pub env : String → String
  pub dial : String → Outcome (Unit {0})
  pub network_id : Outcome ℤ
  pub codec : KeyCodec
  pub generate_key : Outcome ℕ
  pub open_error : Option String
  pub write_error : ℕ → Option String
  pub gas_price : Outcome ℤ
  pub head_nonce : Outcome ℕ
  pub send_error : Option String
  pub mined : Outcome Receipt
  pub bindings : Bindings

-- The chain and the submitting account.
unfoldable pub connect : Crypto → SetupCalls → Outcome (ℤ × Account)
connect c a = do
  rpc_url ← read_string_from_env a.env "STRESS_TEST_RPC_URL"
  _ ← or_error (a.dial rpc_url) "could not create client"
  chain_id ← or_error a.network_id "could not query chainId"
  submit_key_hex ← read_string_from_env a.env "STRESS_TEST_PK"
  submit_key ← a.codec.hex_to_ecdsa (codes submit_key_hex)
  ok (chain_id, account_from_private_key c submit_key)

unfoldable pub bind_contracts : SetupCalls → ℤ → Outcome Contracts
bind_contracts a chain_id = do
  keyper_set ← read_string_from_env a.env "STRESS_TEST_KEYPER_SET_MANAGER_CONTRACT_ADDRESS"
  key_broadcast ← read_string_from_env a.env "STRESS_TEST_KEY_BROADCAST_CONTRACT_ADDRESS"
  sequencer ← read_string_from_env a.env "STRESS_TEST_SEQUENCER_CONTRACT_ADDRESS"
  setup_contracts a.bindings key_broadcast sequencer keyper_set chain_id
