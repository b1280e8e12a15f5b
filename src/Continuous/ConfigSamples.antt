-- ===== src/Continuous/ConfigSamples.antt =====
-- continuous/config.go: answers to createConfiguration, and a file that holds one key.
use shutter_tests.Prelude.{
  ℕ, ◌+◌, ◌*◌, ◌-◌, [], ◌∷◌, ◌++◌, List, none, some, get_elem?, replicate, ltb, ◌==◌, string_eq,
  if◌then◌else◌,
}
use shutter_tests.Prelude.Int.{pos}
use shutter_tests.Prelude.Outcomes.{Outcome, ok, err, panic}
use shutter_tests.Chain.{Crypto}
use shutter_tests.Utils.PkFile.{KeyCodec, store_account}
use shutter_tests.Utils.Contracts.{Bindings}
use shutter_tests.Utils.Account.{Account}
use shutter_tests.Continuous.Accounts.{FundCalls}
use shutter_tests.Continuous.Machine.{Machine, Answers}
use shutter_tests.Continuous.Configure.{Configuration, create_configuration}
use shutter_tests.Continuous.Samples.{plain}

abbrev pub wide : Crypto
wide = record plain { address_bytes = λ a. replicate 20 a }

abbrev digit_at : List ℕ → ℕ → ℕ
digit_at text i = elim (get_elem? text i) [
  | none ↦ 0
  | some c ↦ if ltb c 58 then c - 48 else c - 87
]

-- Keys are written into the last of 32 bytes.
abbrev pub last_byte : KeyCodec
last_byte = record {
  from_ecdsa = λ key. replicate 31 0 ++ key ∷ [];
  hex_to_ecdsa = λ text. ok (digit_at text 62 * 16 + digit_at text 63);
}

abbrev pub bound : Bindings
bound = record {
  hex_to_address = λ text. 5;
  new_keyper_set_manager = ok;
  new_key_broadcast_contract = ok;
  new_sequencer = ok;
  new_deposit_contract = ok;
}

abbrev poor : FundCalls
poor = record {
  balance = ok (pos 0);
  gas_price = ok (pos 3);
  send_transaction = λ tx. none;
  wait_mined = none;
}

abbrev pub answers : Answers
answers = record {
  env = λ name.
      if name == "CONTINUOUS_PK_FILE"
      then "pk.hex"
      else if name == "CONTINUOUS_TEST_PK"
      then "0000000000000000000000000000000000000000000000000000000000000002"
      else "value";
  dial = λ url. ok tt;
  network_id = ok (pos 100);
  submit_nonce = ok 8;
  submit_nonce_again = ok 14;
  nonce_at = λ address. ok 4;
  other_file = λ name. err "no such file";
  generate_key = λ i. ok (20 + i);
  open_error = λ i. none;
  write_error = λ i j. none;
  fund_calls = λ i. poor;
  mkdir_temp = ok "/tmp";
  read_graffiti = λ path. ok ("shutter" ∷ []);
  codec = last_byte;
  bindings = bound;
}

abbrev pub old_account : Account
old_account = record { address = 107; private_key = 7; nonce = pos 0 }

abbrev pub old_machine : Machine
old_machine = record {
  pk_hex = (store_account wide last_byte none (λ i. none) old_account none).1;
  sent = [];
}

abbrev pub new_machine : Machine
new_machine = (create_configuration wide answers "standard" old_machine).1

abbrev configuration_of : Outcome Configuration → Configuration → Configuration
configuration_of (ok cfg) other = cfg
configuration_of (err e) other = other
configuration_of (panic p) other = other

abbrev no_configuration : Configuration
no_configuration = record {
  accounts = [];
  submit_account = old_account;
  contracts = record {
    keyper_set_manager = 0;
    key_broadcast_contract = 0;
    sequencer_contract_address = 0;
    sequencer = 0;
    deposit_contract = 0;
    deposit_contract_address = 0;
  };
  chain_id = pos 0;
  db_user = "";
  db_pass = "";
  db_addr = "";
  db_name = "";
  pk_file = "";
  blame_folder = "";
  graffiti_set = [];
  db = none;
}

abbrev pub new_configuration : Configuration
new_configuration =
    configuration_of (create_configuration wide answers "standard" old_machine).0 no_configuration
