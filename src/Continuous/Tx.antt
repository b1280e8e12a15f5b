-- ===== src/Continuous/Tx.antt =====
-- continuous/tx.go: a shutterized transaction and its status.
pub mod Names
use shutter_tests.Prelude.{ℕ, ◌-◌, String, List, [], ◌∷◌, none, some, get_elem?, ltb, if◌then◌else◌}
use shutter_tests.Prelude.Outcomes.{Outcome, ok, panic, index_out_of_range}
use shutter_tests.Prelude.Int.{ℤ, pos}
use shutter_tests.Chain.{Transaction}

pub data TxStatus : Type 0 where
  signed sequenced included not_sequenced not_included system_failure : TxStatus

-- `iota + 1`: the statuses are numbered from 1.
unfoldable pub enum_index : TxStatus → ℕ
enum_index signed = 1
enum_index sequenced = 2
enum_index included = 3
enum_index not_sequenced = 4
enum_index not_included = 5
enum_index system_failure = 6

abbrev status_names : List String
status_names =
    "Signed" ∷ "Sequenced" ∷ "Included" ∷ "NotSequenced" ∷ "NotIncluded" ∷ "SystemFailure" ∷ []

-- String of a TxStatus, which is any int: the array is indexed by one less.
unfoldable pub tx_status_string : ℕ → Outcome String
tx_status_string ts =
    if ltb ts 1 then panic index_out_of_range else elim (get_elem? status_names (ts - 1)) [
      | none ↦ panic index_out_of_range
      | some name ↦ ok name
    ]

-- The context of a transaction with its 20 minutes: once it is done it stays as it is.
pub data Ctx : Type 0 where
  alive canceled deadline_exceeded : Ctx

-- `tx.cancel()`.
unfoldable pub cancel : Ctx → Ctx
cancel alive = canceled
cancel canceled = canceled
cancel deadline_exceeded = deadline_exceeded

-- The timer of `context.WithTimeout`.
unfoldable pub expire : Ctx → Ctx
expire alive = deadline_exceeded
expire canceled = canceled
expire deadline_exceeded = deadline_exceeded

-- `sender` is the index of the account in `cfg.accounts`, of which the source has a pointer.
pub record ShutterTx : Type 0 where
  pub inner_tx : Transaction
  pub outer_tx : Transaction
  pub sender : ℕ
  pub prefix : List ℕ
  pub trigger_block : ℤ
  pub submission_block : ℤ
  pub inclusion_block : ℤ
  pub cancel_block : ℤ
  pub target_slot : ℤ
  pub tx_status : TxStatus
  pub ctx : Ctx

-- The literal in SendShutterizedTX: the fields that it leaves out are 0.
unfoldable pub new_shutter_tx : Transaction → Transaction → ℕ → List ℕ → ℤ → ℤ → ShutterTx
new_shutter_tx inner_tx outer_tx sender prefix trigger_block target_slot = record {
  inner_tx = inner_tx;
  outer_tx = outer_tx;
  sender = sender;
  prefix = prefix;
  trigger_block = trigger_block;
  submission_block = pos 0;
  inclusion_block = pos 0;
  cancel_block = pos 0;
  target_slot = target_slot;
  tx_status = signed;
  ctx = alive;
}
