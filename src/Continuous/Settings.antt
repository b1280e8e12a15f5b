-- ===== src/Continuous/Settings.antt =====
-- continuous/config.go: the parts of createConfiguration that only read the environment and ask the node.
use shutter_tests.Prelude.{String, Bool, List, [], length, nat_beq, ◌==◌, string_eq, if◌then◌else◌}
use shutter_tests.Prelude.Int.{ℤ}
use shutter_tests.Prelude.Words.{int64_of_uint64}
use shutter_tests.Prelude.Text.{codes}
use shutter_tests.Prelude.Outcomes.{Outcome, ok, or_error, ◌>>=◌}
use shutter_tests.Chain.{Crypto}
use shutter_tests.Utils.Account.{Account, account_from_private_key}
use shutter_tests.Utils.Repair.{read_string_from_env}
use shutter_tests.Utils.Contracts.{Contracts, setup_contracts}
use shutter_tests.Continuous.Accounts.{load_graffiti_json}
use shutter_tests.Continuous.Machine.{Answers}

-- The chain and the submit account.
unfoldable pub read_chain : Crypto → Answers → Outcome (ℤ × Account)
read_chain c a = do
  rpc_url ← read_string_from_env a.env "CONTINUOUS_TEST_RPC_URL"
  _ ← or_error (a.dial rpc_url) "could not create client"
  chain_id ← or_error a.network_id "could not query chainId"
  submit_key_hex ← read_string_from_env a.env "CONTINUOUS_TEST_PK"
  key ← a.codec.hex_to_ecdsa (codes submit_key_hex)
  nonce ← a.submit_nonce
  ok (chain_id, record (account_from_private_key c key) { nonce = int64_of_uint64 nonce })

unfoldable pub read_contracts : Answers → ℤ → Outcome Contracts
read_contracts a chain_id = do
  key_broadcast ← read_string_from_env a.env "CONTINUOUS_KEY_BROADCAST_CONTRACT_ADDRESS"
  keyper_set ← read_string_from_env a.env "CONTINUOUS_KEYPER_SET_CONTRACT_ADDRESS"
  sequencer ← read_string_from_env a.env "CONTINUOUS_SEQUENCER_ADDRESS"
  setup_contracts a.bindings key_broadcast sequencer keyper_set chain_id

pub record Database : Type 0 where
  pub name : String
  pub user : String
  pub addr : String
  pub pass : String

unfoldable pub read_database : Answers → Outcome Database
read_database a = do
  name ← read_string_from_env a.env "CONTINUOUS_DB_NAME"
  user ← read_string_from_env a.env "CONTINUOUS_DB_USER"
  addr ← read_string_from_env a.env "CONTINUOUS_DB_ADDRESS"
  pass ← read_string_from_env a.env "CONTINUOUS_DB_PASS"
  ok (record { name = name; user = user; addr = addr; pass = pass })

unfoldable pub read_blame_folder : Answers → Outcome String
read_blame_folder a = do
  blame_folder ← read_string_from_env a.env "CONTINUOUS_BLAME_FOLDER"
  if nat_beq (length (codes blame_folder)) 0 then a.mkdir_temp else ok blame_folder

-- The graffiti file is read in mode "graffiti" only.
unfoldable pub read_graffiti_set : Answers → String → Outcome (List (String × Bool))
read_graffiti_set a mode =
    if mode == "graffiti"
    then load_graffiti_json (read_string_from_env a.env "GRAFFITI_FILE_PATH") a.read_graffiti
    else ok []
