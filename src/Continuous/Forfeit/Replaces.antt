-- ===== src/Continuous/Forfeit/Replaces.antt =====
-- continuous/tx.go: what a nonce that was forfeited without an error went to.
use shutter_tests.Prelude.{
  ℕ, String, Option, none, some, ◌≡◌, refl, arith, Option-cases, inl, inr, Bool-cases, ◌==◌, nat_eq,
  ap, sym, subst,
}
use shutter_tests.Prelude.Outcomes.{Outcome, ok, err, panic, >>=-eq-ok, ◌>>=◌}
use shutter_tests.Chain.{Transaction, Receipt, Crypto}
use shutter_tests.Utils.Account.{Account, sign}
use shutter_tests.Utils.Gas.{gas_calculation_from_client}
use shutter_tests.Utils.Wait.{Waited, wait_for_tx_subscribe}
use shutter_tests.Utils.Wait.Decisive.{WasLookedUp, wait-WasLookedUp}
use shutter_tests.Continuous.Forfeit.{
  ForfeitCalls, forfeited, after_wait, try_answer, forfeit_transaction, forfeit_nonce,
}

try_answer-returned :
    {A : Type 0} (answer : Outcome A) (f : A → Option (Outcome (Option String)))
    → try_answer answer f ≡ some (ok none)
    → (a : A) × (answer ≡ ok a) × (f a ≡ some (ok none))
unfolding try_answer
try_answer-returned (ok a) f h = (a, refl, h)
try_answer-returned (err e) f h = cc h
try_answer-returned (panic p) f h = cc h

-- What the node was given, signed with the account's key, and the receipt that the wait for it ended
-- with.
pub record IsReplaced (c : Crypto) (calls : ForfeitCalls) (nonce : ℕ) (account : Account)
    : Type 0 where
  pub signed : Transaction
  pub receipt : Receipt
  pub signature : ℕ
  pub own : account.address ≡ c.address_of_key account.private_key
  pub signs : c.sign account.private_key (record signed { signature = none }) ≡ ok signature
  pub carried : signed.signature ≡ some signature
  pub accepted : calls.send_transaction signed ≡ none
  pub signed_nonce : signed.nonce ≡ nonce
  pub to_itself : signed.to ≡ some account.address
  pub mined :
      wait_for_tx_subscribe c signed calls.subscription calls.events
      ≡ some (record { receipt = some receipt; error = none })
  pub looked_up : WasLookedUp (c.hash signed) receipt calls.events
  pub succeeded : receipt.status ≡ 1

after_wait-returned :
    (w : Option Waited)
    → after_wait w ≡ some (ok none)
    → (r : Receipt) × (w ≡ some (record { receipt = some r; error = none })) × (r.status ≡ 1)
unfolding after_wait forfeited
after_wait-returned none h = cc h
after_wait-returned (some w) h = elim (Option-cases w.receipt) [
  | inl e ↦ absurd (ground (arith, e, h))
  | inr (r, e) ↦ (r, ground (arith, e, h), ground (arith, e, h))
]

-- Signing gives the transaction back with a signature by the account's key, which is the address's.
sign-keeps :
    (c : Crypto) (account : Account) (address : ℕ) (tx signed : Transaction)
    → sign c account address tx ≡ ok signed
    → (s : ℕ) × (address ≡ c.address_of_key account.private_key)
      × (c.sign account.private_key tx ≡ ok s)
      × (signed ≡ record tx { signature = some s })
unfolding sign
sign-keeps c account address tx signed h =
    elim (Bool-cases (address == c.address_of_key account.private_key)) [
      | inl t ↦
          let g : (c.sign account.private_key tx >>= λ s. ok (record tx { signature = some s }))
              ≡ ok signed =
            ground (arith, t, h) in
          let (s, e, k) = >>=-eq-ok (c.sign account.private_key tx) _ g in
          (s, ground (arith, t), e, ground (arith, k))
      | inr f ↦ absurd (ground (arith, f, h))
    ]

-- forfeitNonce returns without an error only if the node took a transaction with that nonce to the
-- account itself, signed with the account's key, which is the key of its address, and the wait for
-- it ended with a receipt with status 1, which was answered for that transaction's hash at a new head.
pub forfeit_nonce-IsReplaced :
    (c : Crypto) (calls : ForfeitCalls) (nonce : ℕ) (account : Account)
    → forfeit_nonce c calls nonce account ≡ some (ok none)
    → IsReplaced c calls nonce account
unfolding forfeit_nonce
forfeit_nonce-IsReplaced c calls nonce account h =
    let (chain_id, _, h1) = try_answer-returned calls.chain_id _ h in
    let (gas, _, h2) =
      try_answer-returned
        (gas_calculation_from_client calls.suggest_tip calls.suggest_price calls.gas_price_fn) _
        h1 in
    let (signed, e, h3) =
      try_answer-returned
        (sign c account account.address
          (forfeit_transaction chain_id nonce gas.fee gas.tip account.address))
        _ h2 in
    let (s1, own, signs, keeps) =
      sign-keeps c account account.address
        (forfeit_transaction chain_id nonce gas.fee gas.tip account.address) signed e in
    elim (Option-cases (calls.send_transaction signed)) [
      | inl n ↦
          let (r, w, s) =
            after_wait-returned (wait_for_tx_subscribe c signed calls.subscription calls.events)
              (ground (arith, n, h3)) in
          record {
            signed = signed;
            receipt = r;
            accepted = n;
            signature = s1;
            own = own;
            signs =
                unfold forfeit_transaction in
                subst
                  (λ (q : Transaction).
                    c.sign account.private_key (record q { signature = none }) ≡ ok s1)
                  (sym keeps) signs;
            carried = ap (λ t. t.signature) keeps;
            signed_nonce = unfold forfeit_transaction in ap (λ t. t.nonce) keeps;
            to_itself = unfold forfeit_transaction in ap (λ t. t.to) keeps;
            mined = w;
            looked_up = wait-WasLookedUp c signed calls.subscription calls.events r none w;
            succeeded = s;
          }
      | inr (x, n) ↦ absurd (ground (arith, n, h3))
    ]
