-- ===== src/Utils/Repair.antt =====
-- utils/utils.go: FixNonce and Drain, which repair and empty accounts, and the small readers. The
-- transactions are those of `types.NewTransaction`, whose one price stands in both caps.
pub mod Nonces
pub mod Balance
use shutter_tests.Prelude.{
  ℕ, zero, suc, ◌+◌, ◌*◌, ◌%◌, String, List, [], ◌∷◌, Option, none, some, length, ltb, nat_beq,
  if◌then◌else◌,
}
use shutter_tests.Prelude.Int.{ℤ, pos, ◌+ℤ◌}
use shutter_tests.Prelude.Words.{
  word, int64_of_uint64, uint64_of_int64, uint64_of_big, uint64_sub, uint64_add,
}
use shutter_tests.Prelude.Text.{atoi, codes}
use shutter_tests.Prelude.Outcomes.{Outcome, ok, err, panic, nil_dereference, fatal, ◌>>=◌}
use shutter_tests.Chain.{Transaction, Crypto}
use shutter_tests.Utils.Account.{Account, sign}

unfoldable pub new_transaction : ℕ → ℕ → ℤ → ℕ → ℤ → Transaction
new_transaction nonce to value gas gas_price = record {
  chain_id = pos 0;
  nonce = nonce;
  gas_fee_cap = gas_price;
  gas_tip_cap = gas_price;
  gas = gas;
  to = some to;
  value = value;
  payload = [];
  signature = none;
}

-- What the node answers in one round of the loop of FixNonce.
pub record FixRound : Type 0 where
  pub head_nonce : Outcome ℕ
  pub gas_price : Outcome ℤ

-- What it answers while one of the transactions is waited for.
pub record FixWait : Type 0 where
  pub error : Option String
  pub head_nonce : Outcome ℕ

-- The transaction of round i, signed: one wei to the account itself, for twice the price. An error on
-- sending it is logged.
unfoldable pub fix_transaction : Crypto → Account → ℕ → FixRound → Outcome Transaction
unfolding new_transaction uint64_add
fix_transaction c account i round = do
  head ← round.head_nonce
  gas_price ← round.gas_price
  sign c account account.address
      (new_transaction (uint64_add head i) account.address (pos 1) 21000 (gas_price +ℤ gas_price))

-- The loop, with the number of rounds that are left.
unfoldable pub fix_loop : Crypto → Account → (ℕ → FixRound) → ℕ → ℕ → Outcome (List Transaction)
fix_loop c account rounds zero i = ok []
fix_loop c account rounds (suc n) i = do
  signed ← fix_transaction c account i (rounds i)
  txs ← fix_loop c account rounds n (i + 1)
  ok (signed ∷ txs)

-- The second loop. An error on waiting is logged, and the last one is returned.
unfoldable pub wait_all :
    (ℕ → FixWait) → List Transaction → ℕ → Option String → Outcome (Option String)
wait_all waits [] i error = ok error
wait_all waits (tx ∷ txs) i error = do
  head ← (waits i).head_nonce
  wait_all waits txs (i + 1) (waits i).error

-- FixNonce, with the transactions that it sends and the error of the last wait.
unfoldable pub fix_nonce :
    Crypto
    → Account
    → Outcome ℕ
    → Outcome ℕ
    → (ℕ → FixRound)
    → (ℕ → FixWait)
    → Outcome (List Transaction × Option String)
unfolding fix_loop wait_all uint64_sub
fix_nonce c account head pending rounds waits = do
  head_nonce ← head
  pending_nonce ← pending
  txs ← fix_loop c account rounds (uint64_sub pending_nonce head_nonce) 0
  error ← wait_all waits txs 0 none
  ok (txs, error)

-- A value that comes with an error is nil, and a method of it is called.
unfoldable pub or_nil {ℓ} : {A : Type ℓ} → Outcome A → Outcome A
or_nil (ok a) = ok a
or_nil (err e) = panic nil_dereference
or_nil (panic p) = panic p

-- A nonce that cannot be read is 0.
unfoldable pub nonce_or_zero : Outcome ℕ → Outcome ℕ
nonce_or_zero (ok n) = ok n
nonce_or_zero (err e) = ok 0
nonce_or_zero (panic p) = panic p

-- `balance - gasLimit*gasPrice.Uint64()`, in uint64.
unfoldable pub remaining : ℕ → ℤ → ℕ
unfolding uint64_sub
remaining balance gas_price = uint64_sub balance (21000 * uint64_of_big gas_price % word)

-- Drain, with the transaction that it sends. An error on sending is logged; where the receipt does not
-- come, its status is read nevertheless.
unfoldable pub drain :
    Crypto → Account → ℕ → ℕ → Outcome ℤ → Outcome ℕ → Outcome ℕ → Outcome Transaction
unfolding or_nil nonce_or_zero remaining new_transaction
drain c account balance target price pending receipt_status = do
  gas_price ← or_nil price
  nonce ← nonce_or_zero pending
  signed ← or_nil (
      sign c account account.address (
        new_transaction nonce target (int64_of_uint64 (remaining balance gas_price)) 21000
          gas_price))
  status ← or_nil receipt_status
  ok signed

-- ReadStringFromEnv.
unfoldable pub read_string_from_env : (String → String) → String → Outcome String
read_string_from_env env name =
    if ltb (length (codes (env name))) 2
    then err "could not read from environment"
    else ok (env name)

-- The addresses, as numbers, by the low 64 bits of the chain id.
unfoldable pub get_deposit_contract_address_by_chain_id : ℤ → Outcome ℕ
get_deposit_contract_address_by_chain_id chain_id =
    if nat_beq (uint64_of_big chain_id) 100
    then ok 0x0B98057eA310F4d31F2a452B414647007d1645d9
    else if nat_beq (uint64_of_big chain_id) 10200
    then ok 0xb97036A26259B7147018913bD58a774cf91acf25
    else err "unsupported chain ID"

block_number_of : String → Outcome ℕ
block_number_of text = elim (atoi text) [
  | none ↦ panic (fatal "not a valid block-number")
  | some n ↦ ok (uint64_of_int64 n)
]

-- CollectBlockRangeFromArgs, with the two arguments that `main` has made sure of.
unfoldable pub collect_block_range_from_args : String → String → Outcome (ℕ × ℕ)
unfolding block_number_of
collect_block_range_from_args first second = do
  start ← block_number_of first
  end ← block_number_of second
  ok (start, end)
