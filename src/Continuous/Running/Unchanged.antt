-- ===== src/Continuous/Running/Unchanged.antt =====
-- continuous/: what the steps of a run make of the transactions that were sent before.
use shutter_tests.Prelude.{
  ℕ, ◌<◌, ◌≡◌, refl, sym, ap, subst, ◌∙◌, arith, String, List, Option, some, get_elem?, length,
  nat_beq, nat_beq_iff, Bool-cases, inl, inr,
}
use shutter_tests.Prelude.Int.{ℤ}
use shutter_tests.Prelude.Words.{uint64_of_big}
use shutter_tests.Prelude.Outcomes.{ok, ok_injective, >>=-eq-ok}
use shutter_tests.Chain.{Transaction, Crypto}
use shutter_tests.Utils.Account.{Account, use_nonce, sign}
use shutter_tests.Utils.Gas.{gas_calculation_from_client}
use shutter_tests.Utils.Eon.{compute_identity, get_eon_key}
use shutter_tests.Utils.Wait.{Waited}
use shutter_tests.Utils.Prefix.{prefix_from_block_number}
use shutter_tests.Continuous.Tx.{ShutterTx, expire}
use shutter_tests.Continuous.Watch.{Phase, after_submission, after_inclusion, after_forfeit}
use shutter_tests.Continuous.Status.{check_one}
use shutter_tests.Continuous.Status.Check.{check_tx_in_flight_cases}
use shutter_tests.Continuous.System.{
  System, Step, sends, checks, expires, submitted, includes, forfeits, launch, put, check,
  expire_at, next_account,
}
use shutter_tests.Continuous.Send.{
  Sender, SendCalls, send_shutterized_tx, pick_account, must, submit_opts, inner_transaction,
  keyper_set_change_look_ahead,
}

-- The steps that send nothing leave the transactions themselves alone.
after_submission-inner_tx :
    (w : Waited) (tx : ShutterTx) (r : ShutterTx × Phase)
    → after_submission w tx ≡ ok r
    → r.0.inner_tx ≡ tx.inner_tx
unfolding after_submission
after_submission-inner_tx w tx r e = ground arith

after_inclusion-inner_tx :
    (w : Waited) (tx : ShutterTx) → (after_inclusion w tx).0.inner_tx ≡ tx.inner_tx
unfolding after_inclusion
after_inclusion-inner_tx w tx = ground arith

after_forfeit-inner_tx :
    (phase : Phase) (e : Option String) (tx : ShutterTx) (r : ShutterTx × Phase)
    → after_forfeit phase e tx ≡ ok r
    → r.0.inner_tx ≡ tx.inner_tx
unfolding after_forfeit
after_forfeit-inner_tx phase e tx r h = ground arith

check_one-inner_tx :
    (highest block : ℤ) (tx : ShutterTx) → (check_one highest block tx).0.inner_tx ≡ tx.inner_tx
unfolding check_one
check_one-inner_tx highest block tx = ground arith

put-inner_tx :
    (s : System) (p q : ℕ) (r : ShutterTx × Phase)
    → r.0.inner_tx ≡ (s.store p).inner_tx
    → ((put p r s).store q).inner_tx ≡ (s.store q).inner_tx
unfolding put
put-inner_tx s p q r e = elim (Bool-cases (nat_beq p q)) [
  | inl t ↦ rw t (subst (λ k. r.0.inner_tx ≡ (s.store k).inner_tx) ((nat_beq_iff p q).0 t) e)
  | inr f ↦ rw f refl
]

pub Step-inner_tx :
    {n : ℕ} {s t : System} (q : ℕ)
    → Step n s t
    → t.sent ≡ s.sent
    → (t.store q).inner_tx ≡ (s.store q).inner_tx
unfolding launch check expire_at
Step-inner_tx q (sends inner outer prefix trigger slot) e = absurd (omega (arith, e))
Step-inner_tx {s = s} q (checks block) e =
    elim (check_tx_in_flight_cases block s.store s.status q) [
      | inl same ↦ ap (λ tx. tx.inner_tx) same
      | inr (_, changed) ↦ ap (λ tx. tx.inner_tx) changed ∙ check_one-inner_tx _ block (s.store q)
    ]
Step-inner_tx {s = s} q (expires p h) e =
    put-inner_tx s p q (record (s.store p) { ctx = expire (s.store p).ctx }, s.phase p) refl
Step-inner_tx {s = s} q (submitted p w r h g f) e =
    put-inner_tx s p q r (after_submission-inner_tx w (s.store p) r f)
Step-inner_tx {s = s} q (includes p w h g) e =
    put-inner_tx s p q (after_inclusion w (s.store p)) (after_inclusion-inner_tx w (s.store p))
Step-inner_tx {s = s} q (forfeits p x r h g f) e =
    put-inner_tx s p q r (after_forfeit-inner_tx (s.phase p) x (s.store p) r f)

-- A call that succeeds launches a transaction in the System, for the account whose turn it is.
pub record Launched (cfg : Sender) (block slot : ℤ) (s s' : System) : Type 0 where
  pub inner : Transaction
  pub outer : Transaction
  pub account : Account
  pub launched :
      s' ≡ launch (length cfg.accounts) inner outer (prefix_from_block_number block) block slot s
  pub turn : get_elem? cfg.accounts (next_account (length cfg.accounts) s.status) ≡ some account

picked :
    (cfg : Sender) (s : System) (index : ℕ) (account : Account)
    → pick_account cfg s.status ≡ ok (index, account)
    → get_elem? cfg.accounts (next_account (length cfg.accounts) s.status) ≡ some account
unfolding pick_account
picked cfg s index account h = ground (arith, h)

pub send-Launched :
    (c : Crypto) (calls : SendCalls) (block slot : ℤ) (cfg cfg' : Sender) (s s' : System)
    → send_shutterized_tx c calls block slot cfg s ≡ ok (cfg', s')
    → Launched cfg block slot s s'
unfolding send_shutterized_tx
send-Launched c calls block slot cfg cfg' s s' h =
    let ((index, account), e1, h1) = >>=-eq-ok (pick_account cfg s.status) _ h in
    let (gas, _, h2) =
      >>=-eq-ok
        (must
          (gas_calculation_from_client calls.suggest_tip calls.suggest_price calls.gas_price_fn))
        _ h1 in
    let (inner, _, h3) =
      >>=-eq-ok
        (must (
          sign c account account.address (
            inner_transaction cfg.chain_id (uint64_of_big (use_nonce account).0) gas
              cfg.submit_account.address block)))
        _ h2 in
    let (sigma, _, h4) = >>=-eq-ok (must calls.random_sigma) _ h3 in
    let (buff, _, h5) = >>=-eq-ok (must (c.marshal_binary inner)) _ h4 in
    let ((eon, key), _, h6) =
      >>=-eq-ok (must (get_eon_key calls.eon_calls keyper_set_change_look_ahead)) _ h5 in
    let (submit_gas, _, h7) =
      >>=-eq-ok
        (must (
          gas_calculation_from_client calls.submit_suggest_tip calls.submit_suggest_price
            calls.submit_gas_price_fn))
        _ h6 in
    let (outer, _, h8) =
      >>=-eq-ok
        (must (
          calls.submit_encrypted (submit_opts c cfg.submit_account inner submit_gas) eon
            (prefix_from_block_number block)
            (c.encrypt buff key
              (compute_identity c (prefix_from_block_number block) cfg.submit_account.address)
              sigma)
            inner.gas))
        _ h7 in
    record {
      inner = inner;
      outer = outer;
      account = account;
      launched = ap (λ r. r.1) (ok_injective (sym h8));
      turn = picked cfg s index account e1;
    }

-- What a transaction that is added leaves of the ones before.
pub launch-inner_tx :
    (n : ℕ) (inner outer : Transaction) (prefix : List ℕ) (trigger slot : ℤ) (s : System) (q : ℕ)
    → q < s.sent
    → ((launch n inner outer prefix trigger slot s).store q).inner_tx ≡ (s.store q).inner_tx
unfolding launch
launch-inner_tx n inner outer prefix trigger slot s q h = ground (arith, nat_beq_iff s.sent q)
