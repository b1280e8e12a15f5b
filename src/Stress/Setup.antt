-- ===== src/Stress/Setup.antt =====
-- stress/stress_test.go: createSetup, with fund.
use shutter_tests.Prelude.{String, Bool, [], ◌∷◌, ◌++◌, Option, none, some, if◌then◌else◌}
use shutter_tests.Prelude.Int.{pos}
use shutter_tests.Prelude.Outcomes.{Outcome, ok, err}
use shutter_tests.Chain.{Transaction, Crypto}
use shutter_tests.Utils.Account.{Account, account_from_private_key, sign}
use shutter_tests.Utils.Repair.{new_transaction}
use shutter_tests.Utils.PkFile.{store_account}
use shutter_tests.Continuous.Machine.{Run, ◌>>=◌, ask}
use shutter_tests.Stress.World.{StressSetup}
use shutter_tests.Stress.Connect.{SetupCalls, connect, bind_contracts}

-- An error that may be nil, for a call that returns nothing else.
abbrev pub no_error : Option String → Outcome (Unit {0})
no_error none = ok tt
no_error (some e) = err e

unfoldable pub store_new_account : Crypto → SetupCalls → Account → Run (Unit {0})
store_new_account c a account m =
    let (error, file) = store_account c a.codec a.open_error a.write_error account m.pk_hex in
    (no_error error, record m { pk_hex = file })

-- `client.SendTransaction`, noted if it succeeds.
unfoldable pub send : SetupCalls → Transaction → Run (Unit {0})
send a tx m = elim a.send_error [
  | none ↦ (ok tt, record m { sent = m.sent ++ tx ∷ [] })
  | some e ↦ (err e, m)
]

-- A tenth of an ether to the transacting account. The receipt is waited for, but not looked at.
unfoldable pub fund : Crypto → SetupCalls → Account → Account → Run (Unit {0})
unfolding new_transaction send
fund c a submitter account = do
  gas_price ← ask a.gas_price
  nonce ← ask a.head_nonce
  signed ← ask (
      sign c submitter submitter.address
        (new_transaction nonce account.address (pos 100_000_000_000_000_000) 21000 gas_price))
  _ ← send a signed
  _ ← ask a.mined
  ask (ok tt)

unfoldable pub fund_if : Bool → Crypto → SetupCalls → Account → Account → Run (Unit {0})
unfolding fund
fund_if funded c a submitter account = if funded then fund c a submitter account else ask (ok tt)

-- createSetup. The file pk.hex has the new account's key before it is funded.
unfoldable pub create_setup : Crypto → SetupCalls → Bool → Run StressSetup
unfolding store_new_account fund_if
create_setup c a fund_new_account = do
  (chain_id, submit_account) ← ask (connect c a)
  key ← ask a.generate_key
  let transact_account = account_from_private_key c key
  _ ← store_new_account c a transact_account
  _ ← fund_if fund_new_account c a submit_account transact_account
  contracts ← ask (bind_contracts a chain_id)
  ask (
      ok (record {
        chain_id = chain_id;
        submit_account = submit_account;
        transact_account = transact_account;
        sequencer = contracts.sequencer;
        sequencer_contract_address = contracts.sequencer_contract_address;
        keyper_set_manager = contracts.keyper_set_manager;
        key_broadcast_contract = contracts.key_broadcast_contract;
      }))
