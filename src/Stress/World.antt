-- ===== src/Stress/World.antt =====
-- stress/stress_test.go, with StressSetup and StressEnvironment of utils/utils.go: the state that a test
-- works on, which is kept where a step fails, and what is answered to it.
use shutter_tests.Prelude.{ℕ, List, Bool}
use shutter_tests.Prelude.Int.{ℤ}
use shutter_tests.Prelude.Outcomes.{Outcome}
use shutter_tests.Prelude.Runs
use shutter_tests.Chain.{Transaction, Receipt}
use shutter_tests.Utils.Account.{Account, TransactOpts}
use shutter_tests.Utils.Gas.{GasCalculation}

-- The client and the signer are left out. A contract stands for the address that it is bound to.
pub record StressSetup : Type 0 where
  pub chain_id : ℤ
  pub submit_account : Account
  pub transact_account : Account
  pub sequencer : ℕ
  pub sequencer_contract_address : ℕ
  pub keyper_set_manager : ℕ
  pub key_broadcast_contract : ℕ

-- The suggested tip and price, then the index of the transaction and the count of them.
abbrev pub IndexedGasPriceFn : Type 0
IndexedGasPriceFn = ℤ → ℤ → ℕ → ℕ → GasCalculation

-- The data, the receiver, the index and the count.
abbrev pub GasLimitFn : Type 0
GasLimitFn = List ℕ → ℕ → ℕ → ℕ → ℕ

-- TransacterOpts, which nothing reads, and the timeouts are left out. A constraint may leave the receipts
-- in another order, in which they are then counted. A prefix, 32 bytes, is a number.
pub record StressEnvironment : Type 0 where
  pub transact_gas_price_fn : IndexedGasPriceFn
  pub transact_gas_limit_fn : GasLimitFn
  pub inclusion_constraints : List Receipt → Outcome (List Receipt)
  pub submitter_opts : TransactOpts
  pub eon : ℕ
  pub eon_public_key : ℕ
  pub wait_on_every_submit : Bool
  pub identity_prefixes : List ℕ
  pub random_identity_suffix : Bool

-- A call of SubmitEncryptedTransaction that succeeded.
pub record Submission : Type 0 where
  pub options : TransactOpts
  pub eon : ℕ
  pub prefix : ℕ
  pub encrypted : List ℕ
  pub gas : ℕ

-- The setup and the environment behind their pointers, the calls that the sequencer contract has got,
-- and how often the random source and WaitMined were asked.
pub record World : Type 0 where
  pub setup : StressSetup
  pub env : StressEnvironment
  pub submitted : List Submission
  pub draws : ℕ
  pub waits : ℕ

abbrev pub Act : Type 0 → Type 0
Act A = Runs.Run World A

-- The answers, for the random source and for WaitMined by how often they were asked before. Of the
-- text of MarshalJSON, which is logged, only the error matters. `block_bytes` is the slice of all
-- bytes of a block, `mined` what WaitMined returns before its context is done.
pub record StressCalls : Type 0 where
  pub suggest_tip : Outcome ℤ
  pub suggest_price : Outcome ℤ
  pub random_sigma : ℕ → Outcome ℕ
  pub generate_key : ℕ → Outcome ℕ
  pub block_bytes : ℕ → List ℕ
  pub marshal_json : Transaction → Outcome (Unit {0})
  pub submit_encrypted : TransactOpts → ℕ → ℕ → List ℕ → ℕ → Outcome Transaction
  pub mined : ℕ → Transaction → Outcome Receipt
