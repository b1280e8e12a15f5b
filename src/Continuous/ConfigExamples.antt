-- ===== src/Continuous/ConfigExamples.antt =====
-- continuous/config.go: createConfiguration run on answers, and the theorems about it there.
use shutter_tests.Prelude.{ℕ, ◌≡◌, refl, ap, [], ◌∷◌, ◌++◌, List, some, none, arith}
use shutter_tests.Prelude.Int.{◌+ℤ◌, ◌-ℤ◌}
use shutter_tests.Prelude.Words.{int64_of_big, int64_of_uint64, uint64_of_big}
use shutter_tests.Prelude.Outcomes.{ok}
use shutter_tests.Utils.Account.{Account, sign, account_from_private_key}
use shutter_tests.Utils.Repair.{read_string_from_env, get_deposit_contract_address_by_chain_id}
use shutter_tests.Utils.Contracts.{setup_contracts}
use shutter_tests.Continuous.Accounts.{retrieve_accounts, create_accounts, fund_new_account}
use shutter_tests.Continuous.Settings.{
  read_chain, read_contracts, read_database, read_blame_folder, read_graffiti_set,
}
use shutter_tests.Utils.PkFile.{hex_encode, store_account, read_pks, text_of, is_space}
use shutter_tests.Utils.PkFile.Words.{IsClosed}
use shutter_tests.Utils.PkFile.RoundTrip.{IsCodec, read_pks-store_account}
use shutter_tests.Continuous.Configure.{create_configuration, prepare_accounts, store_one, fund_one}
use shutter_tests.Continuous.Configure.Prepare.{private_keys}
use shutter_tests.Continuous.Configure.Restart.{Holds, NoErrors}
use shutter_tests.Continuous.Configure.Success.{IsConfigured, create_configuration-IsConfigured}
use shutter_tests.Continuous.Configure.Again.{create_configuration-prepare_accounts}
use shutter_tests.Continuous.ConfigSamples.{
  wide, answers, old_account, old_machine, new_machine, new_configuration, last_byte,
}

last_byte-IsCodec : IsCodec wide last_byte
unfolding hex_encode
last_byte-IsCodec = record {
  key_length = λ key. refl;
  key_back = λ key. ground arith;
  address_length = λ a. refl;
}

read_pks-nil : read_pks last_byte (ok (text_of none)) ≡ ok []
unfolding read_pks text_of
read_pks-nil = refl

nil-IsClosed : IsClosed (text_of none)
unfolding text_of
nil-IsClosed = tt

read_pks-store_account_example :
    (text : List ℕ) × (store_account wide last_byte none (λ i. none) old_account none
      ≡ (none, some text))
    × IsClosed text
    × (read_pks last_byte (ok text) ≡ ok ([] ++ 7 ∷ []))
read_pks-store_account_example =
    read_pks-store_account wide last_byte last_byte-IsCodec old_account none [] nil-IsClosed
      read_pks-nil

created :
    (create_configuration wide answers "standard" old_machine ≡ (ok new_configuration, new_machine))
    × (new_configuration.pk_file ≡ "pk.hex")
unfolding create_configuration read_string_from_env read_chain retrieve_accounts read_pks
    store_account is_space create_accounts store_one fund_one fund_new_account int64_of_big ◌-ℤ◌
    sign account_from_private_key read_contracts setup_contracts
    get_deposit_contract_address_by_chain_id read_database read_blame_folder read_graffiti_set
    int64_of_uint64 uint64_of_big ◌+ℤ◌
created = (refl, refl)

create_configuration-IsConfigured_example : IsConfigured wide answers "standard" new_configuration
create_configuration-IsConfigured_example =
    create_configuration-IsConfigured wide answers "standard" old_machine new_machine
      new_configuration created.0

no_errors : NoErrors answers
no_errors = record { opens = λ i. refl; writes = λ i. refl }

one_key : Holds answers old_machine (7 ∷ [])
one_key =
    let (text, stored, closed, reads) = read_pks-store_account_example in
    record { text = text; there = ap (λ r. r.1) stored; closed = closed; reads = reads }

create_configuration-prepare_accounts_example :
    (accounts : List Account) × (prepare_accounts wide answers "pk.hex" new_machine
      ≡ (ok accounts, new_machine))
    × (private_keys accounts ≡ private_keys new_configuration.accounts)
create_configuration-prepare_accounts_example =
    create_configuration-prepare_accounts wide answers answers "standard" old_machine new_machine
      new_configuration (7 ∷ []) last_byte-IsCodec no_errors one_key created.0 created.1 refl
