-- ===== src/Continuous/Configure.antt =====
-- continuous/config.go: createConfiguration.
pub mod Prepare
pub mod Restart
pub mod Success
pub mod Again
use shutter_tests.Prelude.{
  ℕ, zero, suc, ◌+◌, ◌-◌, String, Bool, List, [], ◌∷◌, ◌++◌, Option, none, some, length, nat_beq,
  ◌==◌, string_eq, if◌then◌else◌,
}
use shutter_tests.Prelude.Int.{ℤ}
use shutter_tests.Prelude.Words.{int64_of_uint64}
use shutter_tests.Prelude.Text.{codes}
use shutter_tests.Prelude.Outcomes.{Outcome, ok, err, panic, or_error}
use shutter_tests.Chain.{Crypto, Transaction}
use shutter_tests.Utils.Account.{Account, account_from_private_key}
use shutter_tests.Utils.Repair.{read_string_from_env}
use shutter_tests.Utils.PkFile.{read_pks, store_account}
use shutter_tests.Utils.Contracts.{Contracts, setup_contracts}
use shutter_tests.Continuous.Accounts.{
  num_funded_accounts, minimal_funding, retrieve_accounts, create_accounts, fund_new_account,
  load_graffiti_json,
}
use shutter_tests.Continuous.Settings.{
  read_chain, read_contracts, Database, read_database, read_blame_folder, read_graffiti_set,
}
use shutter_tests.Continuous.Machine.{Machine, Run, ◌>>=◌, ask, Answers}

-- The client is left out, and the status, which is the initial one of the System. `db` is the pool of
-- the embedded Connection, if there is one.
pub record Configuration : Type 0 where
  pub accounts : List Account
  pub submit_account : Account
  pub contracts : Contracts
  pub chain_id : ℤ
  pub db_user : String
  pub db_pass : String
  pub db_addr : String
  pub db_name : String
  pub pk_file : String
  pub blame_folder : String
  pub graffiti_set : List (String × Bool)
  pub db : Option ℕ

-- What reading the file gives: a file that is not there reads as an error. Only the name pk.hex
-- itself stands for the file that StoreAccount writes.
unfoldable pub open_pk_file : Answers → String → Machine → Outcome (List ℕ)
open_pk_file a name m =
    if name == "pk.hex"
    then elim m.pk_hex [ none ↦ err "invalid argument" | some text ↦ ok text ]
    else a.other_file name

-- `crypto.GenerateKey` for `num` accounts.
unfoldable pub generated : (ℕ → Outcome ℕ) → ℕ → List (Outcome ℕ)
generated key zero = []
generated key (suc num) = key num ∷ generated key num

error_or {ℓ} : {A : Type ℓ} → Option String → A → Outcome A
error_or none a = ok a
error_or (some e) a = err e

unfoldable pub store_one : Crypto → Answers → ℕ → Account → Run (Unit {0})
unfolding error_or
store_one c a i created m =
    let (error, file) =
      store_account c a.codec (a.open_error i) (a.write_error i) created m.pk_hex in
    (error_or error tt, record m { pk_hex = file })

-- The loop over createdAccounts.
unfoldable pub store_all : Crypto → Answers → ℕ → List Account → Run (Unit {0})
store_all c a i [] = ask (ok tt)
store_all c a i (created ∷ rest) = do _ ← store_one c a i created; store_all c a (i + 1) rest

-- The accounts: those of the file, then new ones that are stored.
unfoldable pub prepare_accounts : Crypto → Answers → String → Run (List Account)
unfolding open_pk_file generated store_all
prepare_accounts c a pk_file m =
    (do
      accounts ← ask (
          retrieve_accounts c num_funded_accounts (read_pks a.codec (open_pk_file a pk_file m))
            a.nonce_at)
      created ←
          ask (create_accounts c (generated a.generate_key (num_funded_accounts - length accounts)))
      _ ← store_all c a 0 created
      ask (ok (accounts ++ created)))
      m

append_sent : List Transaction → Option Transaction → List Transaction
append_sent txs none = txs
append_sent txs (some tx) = txs ++ tx ∷ []

-- The outcome of fundNewAccount, with the submitting account as it is left.
unfoldable pub fund_one : Crypto → Answers → ℕ → Account → Account → Run Account
unfolding append_sent error_or
fund_one c a i account submitter m =
    elim (fund_new_account c (a.fund_calls i) account minimal_funding submitter) [
      | ok (error, tx, submitter') ↦
          (error_or error submitter', record m { sent = append_sent m.sent tx })
      | err e ↦ (err e, m)
      | panic p ↦ (panic p, m)
    ]

-- The loop that funds the accounts, with the local copy of the submit account.
unfoldable pub fund_all : Crypto → Answers → ℕ → List Account → Account → Run Account
fund_all c a i [] submitter = ask (ok submitter)
fund_all c a i (account ∷ rest) submitter = do
  submitter' ← fund_one c a i account submitter
  fund_all c a (i + 1) rest submitter'

-- The accounts, funded, and the submit account with the nonce that is read again.
unfoldable pub fund_accounts : Crypto → Answers → String → Account → Run (List Account × Account)
unfolding prepare_accounts fund_all
fund_accounts c a pk_file submitter = do
  accounts ← prepare_accounts c a pk_file
  _ ← fund_all c a 0 accounts submitter
  nonce ← ask a.submit_nonce_again
  ask (ok (accounts, record submitter { nonce = int64_of_uint64 nonce }))

-- createConfiguration, and Setup, which calls it.
unfoldable pub create_configuration : Crypto → Answers → String → Run Configuration
unfolding fund_accounts
create_configuration c a mode = do
  pk_file ← ask (read_string_from_env a.env "CONTINUOUS_PK_FILE")
  (chain_id, submitter) ← ask (read_chain c a)
  (accounts, submit_account) ← fund_accounts c a pk_file submitter
  contracts ← ask (read_contracts a chain_id)
  db ← ask (read_database a)
  blame_folder ← ask (read_blame_folder a)
  graffiti_set ← ask (read_graffiti_set a mode)
  ask (
      ok (record {
        accounts = accounts;
        submit_account = submit_account;
        contracts = contracts;
        chain_id = chain_id;
        db_user = db.user;
        db_pass = db.pass;
        db_addr = db.addr;
        db_name = db.name;
        pk_file = pk_file;
        blame_folder = blame_folder;
        graffiti_set = graffiti_set;
        db = none;
      }))
