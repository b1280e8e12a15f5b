-- ===== src/Chain.antt =====
-- What the program takes from go-ethereum: transactions, receipts, and the operations on keys and
-- transactions that are not part of the repository. Those are the fields of `Crypto`, a parameter.
use shutter_tests.Prelude.{ℕ, List, Option}
use shutter_tests.Prelude.Int.{ℤ}
use shutter_tests.Prelude.Outcomes.{Outcome}

-- The fields that the source gives to `types.DynamicFeeTx`, and the signature of a signed one.
-- Addresses, keys and hashes are numbers. Block numbers are below 2^64, so `Int64` of a big.Int reads
-- one as `int64` of a uint64 does.
pub record Transaction : Type 0 where
  pub chain_id : ℤ
  pub nonce : ℕ
  pub gas_fee_cap : ℤ
  pub gas_tip_cap : ℤ
  pub gas : ℕ
  pub to : Option ℕ
  pub value : ℤ
  pub payload : List ℕ
  pub signature : Option ℕ

pub record Receipt : Type 0 where
  pub status : ℕ
  pub block_number : ℕ
  pub gas_used : ℕ

pub record Crypto : Type 0 where
  pub address_of_key : ℕ → ℕ
  pub sign : ℕ → Transaction → Outcome ℕ
  pub hash : Transaction → ℕ
  pub cost : Transaction → ℤ
  pub marshal_binary : Transaction → Outcome (List ℕ)
  pub compute_epoch_id : List ℕ → ℕ
  pub encrypt : List ℕ → ℕ → ℕ → ℕ → List ℕ
  pub address_bytes : ℕ → List ℕ
