-- ===== src/Continuous/Send.antt =====
-- continuous/tx.go: SendShutterizedTX, and continuous/config.go: NextAccount. Every error is a panic.
pub mod Effects
use shutter_tests.Prelude.{
  ℕ, List, [], Option, none, some, get_elem?, set, length, nat_beq, if◌then◌else◌,
}
use shutter_tests.Prelude.Int.{ℤ, ◌-ℤ◌}
use shutter_tests.Prelude.Words.{uint64_of_big}
use shutter_tests.Prelude.Outcomes.{
  Outcome, ok, err, panic, explicit, integer_divide_by_zero, index_out_of_range, ◌>>=◌,
}
use shutter_tests.Prelude.{String}
use shutter_tests.Chain.{Transaction, Crypto}
use shutter_tests.Utils.Account.{Account, TransactOpts, use_nonce, opts, sign}
use shutter_tests.Utils.Prefix.{prefix_from_block_number}
use shutter_tests.Utils.Eon.{EonCalls, compute_identity, get_eon_key}
use shutter_tests.Utils.Gas.{GasCalculation, GasPriceFn, gas_calculation_from_client}
use shutter_tests.Continuous.Status.{Status}
use shutter_tests.Continuous.System.{System, next_account, launch}

-- The fields of Configuration that sending uses and changes. The status is in the `System`.
pub record Sender : Type 0 where
  pub accounts : List Account
  pub submit_account : Account
  pub chain_id : ℤ

-- What the calls to the node and to the random source return, in their order. The two fee functions
-- stand with the answers that they are given.
pub record SendCalls : Type 0 where
  pub suggest_tip : Outcome ℤ
  pub suggest_price : Outcome ℤ
  pub gas_price_fn : GasPriceFn
  pub random_sigma : Outcome ℕ
  pub eon_calls : EonCalls
  pub submit_suggest_tip : Outcome ℤ
  pub submit_suggest_price : Outcome ℤ
  pub submit_gas_price_fn : GasPriceFn
  pub submit_encrypted : TransactOpts → ℕ → List ℕ → List ℕ → ℕ → Outcome Transaction

abbrev pub keyper_set_change_look_ahead : ℕ
keyper_set_change_look_ahead = 2

-- `if err != nil { panic(err) }`.
abbrev pub must {ℓ} : {A : Type ℓ} → Outcome A → Outcome A
must (ok a) = ok a
must (err e) = panic (explicit e)
must (panic p) = panic p

abbrev pub at_index {ℓ} : {A : Type ℓ} → Option A → Outcome A
at_index none = panic index_out_of_range
at_index (some a) = ok a

-- The pointer that NextAccount returns, as an index, with the account that it points to.
unfoldable pub pick_account : Sender → Status → Outcome (ℕ × Account)
pick_account c s =
    if nat_beq (length c.accounts) 0
    then panic integer_divide_by_zero
    else (at_index (get_elem? c.accounts (next_account (length c.accounts) s)) >>= λ a.
        ok (next_account (length c.accounts) s, a))

-- The literal of the inner transaction.
unfoldable pub inner_transaction : ℤ → ℕ → GasCalculation → ℕ → ℤ → Transaction
inner_transaction chain_id nonce gas to block_number = record {
  chain_id = chain_id;
  nonce = nonce;
  gas_fee_cap = gas.fee;
  gas_tip_cap = gas.tip;
  gas = 21000;
  to = some to;
  value = block_number;
  payload = [];
  signature = none;
}

-- The options of the transaction to the sequencer contract, which pay for the inner one's gas.
unfoldable pub submit_opts : Crypto → Account → Transaction → GasCalculation → TransactOpts
submit_opts c account inner gas = record (opts account).0 {
  value = c.cost inner -ℤ inner.value;
  gas_fee_cap = gas.fee;
  gas_tip_cap = gas.tip;
}

module _ (c : Crypto) (calls : SendCalls) where
  unfoldable pub send_shutterized_tx : ℤ → ℤ → Sender → System → Outcome (Sender × System)
  send_shutterized_tx block_number target_slot cfg s = do
    (index, account) ← pick_account cfg s.status
    gas ←
        must (gas_calculation_from_client calls.suggest_tip calls.suggest_price calls.gas_price_fn)
    let prefix = prefix_from_block_number block_number
    let identity = compute_identity c prefix cfg.submit_account.address
    let (nonce, account') = use_nonce account
    inner ← must (
        sign c account account.address (
          inner_transaction cfg.chain_id (uint64_of_big nonce) gas cfg.submit_account.address
            block_number))
    sigma ← must calls.random_sigma
    buff ← must (c.marshal_binary inner)
    (eon, eon_key) ← must (get_eon_key calls.eon_calls keyper_set_change_look_ahead)
    let encrypted = c.encrypt buff eon_key identity sigma
    submit_gas ← must (
        gas_calculation_from_client calls.submit_suggest_tip calls.submit_suggest_price
          calls.submit_gas_price_fn)
    outer ← must (
        calls.submit_encrypted (submit_opts c cfg.submit_account inner submit_gas) eon prefix
          encrypted inner.gas)
    ok (
      record cfg {
        accounts = set cfg.accounts index account';
        submit_account = (opts cfg.submit_account).1;
      },
      launch (length cfg.accounts) inner outer prefix block_number target_slot s,
    )
