-- ===== src/Stress/Transact.antt =====
-- stress/stress_test.go: transact and what it calls.
use shutter_tests.Prelude.{
  ℕ, zero, suc, ◌+◌, ◌-◌, Bool, List, [], ◌∷◌, ◌++◌, none, some, length, get_elem?, if◌then◌else◌,
}
use shutter_tests.Prelude.Int.{ℤ, pos, ◌-ℤ◌}
use shutter_tests.Prelude.Words.{uint64_of_big}
use shutter_tests.Prelude.Outcomes.{Outcome, ok, or_error}
use shutter_tests.Prelude.Runs.{ask, ◌>>=◌}
use shutter_tests.Chain.{Transaction, Receipt, Crypto}
use shutter_tests.Utils.Account.{TransactOpts, use_nonce, sign}
use shutter_tests.Utils.Gas.{GasCalculation}
use shutter_tests.Utils.Eon.{compute_identity}
use shutter_tests.Utils.Receipts.{Line, count_and_log, wait_for_tx_timeout, create_random_address}
use shutter_tests.Stress.World.{World, Act, StressCalls, Submission}

-- A change of the state that returns nothing.
abbrev pub change : (World → World) → Act (Unit {0})
change f w = (ok tt, f w)

module _ (c : Crypto) (calls : StressCalls) where
  -- `shcrypto.RandomSigma`.
  unfoldable pub random_sigma : Act ℕ
  random_sigma w = (calls.random_sigma w.draws, record w { draws = suc w.draws })

  unfoldable pub create_identity_prefix : Act ℕ
  unfolding random_sigma
  create_identity_prefix w =
      let (drawn, w') = random_sigma w in (or_error drawn "could not get random identityPrefix", w')

  -- The prefix of the list, or a new one where the list is too short.
  unfoldable pub prefix_for : ℕ → Act ℕ
  unfolding create_identity_prefix
  prefix_for i w = elim (get_elem? w.env.identity_prefixes i) [
    | none ↦ create_identity_prefix w
    | some prefix ↦ (ok prefix, w)
  ]

  -- The address that stands in the identity.
  unfoldable pub suffix_for : ℕ → Act ℕ
  suffix_for submitter w =
      if w.env.random_identity_suffix
      then (create_random_address c (calls.generate_key w.draws), record w { draws = suc w.draws })
      else (ok submitter, w)

  -- The encrypted message and the prefix.
  unfoldable pub encrypt : Transaction → ℕ → ℕ → Act (List ℕ × ℕ)
  unfolding prefix_for suffix_for random_sigma
  encrypt tx submitter i w =
      (do
        sigma ← λ v. (or_error (random_sigma v).0 "could not get sigma bytes", (random_sigma v).1)
        prefix ← prefix_for i
        suffix ← suffix_for submitter
        buff ← ask (or_error (c.marshal_binary tx) "failed encode RLP")
        _ ← ask (or_error (calls.marshal_json tx) "failed to marshal json")
        ask (
            ok (
              c.encrypt buff w.env.eon_public_key
                  (compute_identity c (calls.block_bytes prefix) suffix) sigma,
              prefix,
            )))
        w

  -- `opts`, the copy of env.SubmitterOpts, with the value that pays for the inner transaction's gas.
  unfoldable pub paying : Transaction → TransactOpts → TransactOpts
  paying tx opts = record opts { value = c.cost tx -ℤ tx.value }

  -- The call of the contract, noted if it succeeds.
  unfoldable pub submit : Submission → Act Transaction
  submit s = do
    tx ← ask (
        or_error (calls.submit_encrypted s.options s.eon s.prefix s.encrypted s.gas)
          "Could not submit")
    _ ← change (λ w. record w { submitted = w.submitted ++ s ∷ [] })
    ask (ok tx)

  unfoldable pub could_not_encrypt {ℓ} : {A : Type ℓ} → Outcome A × World → Outcome A × World
  could_not_encrypt (o, w) = (or_error o "could not encrypt", w)

  unfoldable pub submit_encrypted_tx : Transaction → ℕ → Act Transaction
  unfolding encrypt paying submit could_not_encrypt
  submit_encrypted_tx tx i w =
      (do
        (encrypted, prefix) ← λ v. could_not_encrypt (encrypt tx w.setup.submit_account.address i v)
        submit (record {
          options = paying tx w.env.submitter_opts;
          eon = w.env.eon;
          prefix = prefix;
          encrypted = encrypted;
          gas = tx.gas;
        }))
        w

  -- The loop that fills up the prefixes, in a local variable.
  unfoldable pub more_prefixes : ℕ → List ℕ → Act (List ℕ)
  unfolding create_identity_prefix
  more_prefixes zero prefixes = ask (ok prefixes)
  more_prefixes (suc n) prefixes = do
    identity ← create_identity_prefix
    more_prefixes n (prefixes ++ identity ∷ [])

  -- The literal of the i-th inner transaction.
  unfoldable pub stress_transaction : World → ℕ → GasCalculation → ℕ → Transaction
  stress_transaction w nonce gas gas_limit = record {
    chain_id = w.setup.chain_id;
    nonce = nonce;
    gas_fee_cap = gas.fee;
    gas_tip_cap = gas.tip;
    gas = gas_limit;
    to = some w.setup.submit_account.address;
    value = pos 1;
    payload = [];
    signature = none;
  }

  -- One round of the loop that signs. The nonce is used up also where signing fails.
  unfoldable pub sign_one : ℤ → ℤ → ℕ → ℕ → Act Transaction
  unfolding stress_transaction use_nonce
  sign_one tip price i count w =
      let (nonce, account) = use_nonce w.setup.transact_account in
      (
        sign c account account.address (
            stress_transaction w (uint64_of_big nonce)
              (w.env.transact_gas_price_fn tip price i count)
              (w.env.transact_gas_limit_fn [] w.setup.submit_account.address i count)),
        record w { setup = record (w.setup) { transact_account = account } },
      )

  -- The loop that signs, with the number of rounds that are left.
  unfoldable pub sign_all : ℤ → ℤ → ℕ → ℕ → ℕ → Act (List Transaction)
  unfolding sign_one
  sign_all tip price count zero i = ask (ok [])
  sign_all tip price count (suc n) i = do
    signed ← sign_one tip price i count
    rest ← sign_all tip price count n (i + 1)
    ask (ok (signed ∷ rest))

  -- `submitNonce := UseNonce()`, and the options get it.
  unfoldable pub next_submit_nonce : World → World
  unfolding use_nonce
  next_submit_nonce w =
      let (nonce, account) = use_nonce w.setup.submit_account in
      record w {
        setup = record (w.setup) { submit_account = account };
        env = record (w.env) { submitter_opts = record (w.env.submitter_opts) { nonce = nonce } };
      }

  -- `utils.WaitForTxTimeout`.
  unfoldable pub wait_for : Transaction → Act Receipt
  wait_for tx w = (wait_for_tx_timeout (calls.mined w.waits tx), record w { waits = suc w.waits })

  unfoldable pub wait_if : Bool → Transaction → Act (Unit {0})
  unfolding wait_for
  wait_if wait tx = if wait then (wait_for tx >>= λ _. ask (ok tt)) else ask (ok tt)

  -- The loop that submits.
  unfoldable pub submit_all : ℕ → List Transaction → Act (List Transaction)
  unfolding next_submit_nonce submit_encrypted_tx wait_if
  submit_all i [] w = (ok [], w)
  submit_all i (signed ∷ inner) w =
      (do
        _ ← change next_submit_nonce
        submit_tx ← submit_encrypted_tx signed i
        _ ← wait_if w.env.wait_on_every_submit submit_tx
        rest ← submit_all (i + 1) inner
        ask (ok (submit_tx ∷ rest)))
        w

  -- The loops that wait for the submissions and for the inclusions.
  unfoldable pub wait_for_all : List Transaction → Act (List Receipt)
  unfolding wait_for
  wait_for_all [] = ask (ok [])
  wait_for_all (tx ∷ txs) = do
    receipt ← wait_for tx
    receipts ← wait_for_all txs
    ask (ok (receipt ∷ receipts))

  -- The loops that sign and submit.
  unfoldable pub send_all : ℕ → Act (List Transaction × List Transaction)
  unfolding more_prefixes sign_all submit_all
  send_all count w =
      (do
        tip ← ask calls.suggest_tip
        price ← ask calls.suggest_price
        prefixes ← more_prefixes (count - length w.env.identity_prefixes) w.env.identity_prefixes
        _ ← change (λ v. record v { env = record (v.env) { identity_prefixes = prefixes } })
        inner ← sign_all tip price count count 0
        submissions ← submit_all 0 inner
        ask (ok (inner, submissions)))
        w

  -- transact, with the lines that it logs at the end.
  unfoldable pub transact : ℕ → Act (List Line)
  unfolding send_all wait_for_all
  transact count w =
      (do
        (inner, submissions) ← send_all count
        _ ← wait_for_all submissions
        receipts ← wait_for_all inner
        receipts' ← ask (w.env.inclusion_constraints receipts)
        ask (ok (count_and_log receipts')))
        w
