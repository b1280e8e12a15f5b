-- ===== src/Stress/Stored.antt =====
-- stress/stress_test.go: the key of a new account is in the file before the account gets anything.
use shutter_tests.Prelude.{
  ℕ, ◌≡◌, refl, sym, ap, ◌⊎◌, inl, inr, Option-cases, Bool, true, false, List, [], ◌∷◌, ◌++◌,
  Option, none, some, String,
}
use shutter_tests.Prelude.Int.{pos}
use shutter_tests.Prelude.Outcomes.{Outcome, ok, err, panic}
use shutter_tests.Chain.{Transaction, Crypto}
use shutter_tests.Utils.Account.{Account, account_from_private_key, sign, sign-eq-ok}
use shutter_tests.Utils.Repair.{new_transaction}
use shutter_tests.Utils.PkFile.{store_account}
use shutter_tests.Continuous.Machine.{Machine, Run, ◌>>=◌, ask, go_on_with}
use shutter_tests.Stress.Connect.{SetupCalls, connect, bind_contracts}
use shutter_tests.Stress.Setup.{no_error, store_new_account, send, fund, fund_if, create_setup}

-- What holds of the machine before a call that changes nothing and after what follows it, holds in
-- the end, however the call ends.
ask-keeps :
    {A B : Type 0} (P : Machine → Type 0) (o : Outcome A) (f : A → Run B) (m : Machine)
    → P m
    → ((a : A) → o ≡ ok a → P (f a m).1)
    → P ((ask o >>= f) m).1
ask-keeps P (ok a) f m p next = next a refl
ask-keeps P (err e) f m p next = p
ask-keeps P (panic x) f m p next = p

step-keeps :
    {A B : Type 0} (P : Machine → Type 0) (r : Outcome A × Machine) (f : A → Run B)
    → P r.1
    → ((a : A) → r.0 ≡ ok a → P (f a r.1).1)
    → P (go_on_with r f).1
step-keeps P (ok a, m) f p next = next a refl
step-keeps P (err e, m) f p next = p
step-keeps P (panic x, m) f p next = p

module _ (c : Crypto) (a : SetupCalls) where
  -- One transaction to the account, or none.
  abbrev FundedOnce : Account → Machine → Machine → Type 0
  FundedOnce account m m' =
      (m' ≡ m)
      ⊎ ((tx : Transaction) × (m' ≡ record m { sent = m.sent ++ tx ∷ [] })
          × (tx.to ≡ some account.address))

  send-FundedOnce :
      (account : Account) (m : Machine) (tx : Transaction)
      → tx.to ≡ some account.address
      → FundedOnce account m (send a tx m).1
  unfolding send
  send-FundedOnce account m tx to = elim (Option-cases a.send_error) [
    | inl n ↦ rw n (inr (tx, refl, to))
    | inr (x, e) ↦ rw e (inl refl)
  ]

  fund-FundedOnce :
      (submitter account : Account) (m : Machine)
      → FundedOnce account m (fund c a submitter account m).1
  unfolding fund new_transaction
  fund-FundedOnce submitter account m =
      ask-keeps (FundedOnce account m) a.gas_price _ m (inl refl) (λ price e1.
        ask-keeps (FundedOnce account m) a.head_nonce _ m (inl refl) (λ nonce e2.
          ask-keeps (FundedOnce account m)
            (sign c submitter submitter.address
              (new_transaction nonce account.address (pos 100_000_000_000_000_000) 21000 price))
            _ m (inl refl)
            (λ signed e3.
              let sent =
                send-FundedOnce account m signed
                  (ap (λ t. t.to) (sign-eq-ok c submitter submitter.address _ signed e3)) in
              step-keeps (FundedOnce account m) (send a signed m) _ sent (λ u e4.
                ask-keeps (FundedOnce account m) a.mined _ (send a signed m).1 sent
                  (λ receipt e5. sent)))))

  -- Nothing was sent, or the key of the new account was stored, with no error, and it got a transaction.
  abbrev pub IsStoredFirst : Machine → Machine → Type 0
  IsStoredFirst m m' =
      (m'.sent ≡ m.sent)
      ⊎ ((key : ℕ) × (tx : Transaction) × (a.generate_key ≡ ok key)
          × (m'.sent ≡ m.sent ++ tx ∷ [])
          × (tx.to ≡ some (c.address_of_key key))
          × (store_account c a.codec a.open_error a.write_error (account_from_private_key c key)
                m.pk_hex
              ≡ (none, m'.pk_hex)))

  stored_error :
      (r : Option String × Option (List ℕ)) (u : Unit {0}) {file : Option (List ℕ)}
      → no_error r.0 ≡ ok u
      → file ≡ r.1
      → r ≡ (none, file)
  stored_error (none, text) u h e = ap (λ t. (none, t)) (sym e)
  stored_error (some x, text) u h e = cc h

  fund_if-FundedOnce :
      (funded : Bool) (submitter account : Account) (m : Machine)
      → FundedOnce account m (fund_if funded c a submitter account m).1
  unfolding fund_if
  fund_if-FundedOnce true submitter account m = fund-FundedOnce submitter account m
  fund_if-FundedOnce false submitter account m = inl refl

  store_sends_nothing :
      (account : Account) (m : Machine) → (store_new_account c a account m).1.sent ≡ m.sent
  unfolding store_new_account
  store_sends_nothing account m = refl

  FundedOnce-IsStoredFirst :
      (key : ℕ) (u : Unit {0}) (m m' : Machine)
      → a.generate_key ≡ ok key
      → (store_new_account c a (account_from_private_key c key) m).0 ≡ ok u
      → FundedOnce
          (account_from_private_key c key)
          (store_new_account c a (account_from_private_key c key) m).1
          m'
      → IsStoredFirst m m'
  unfolding store_new_account account_from_private_key
  FundedOnce-IsStoredFirst key u m m' e s (inl same) = inl (ap (λ v. v.sent) same)
  FundedOnce-IsStoredFirst key u m m' e s (inr (tx, changed, to)) =
      inr
        (key, tx, e, ap (λ v. v.sent) changed, to, stored_error _ u s (ap (λ v. v.pk_hex) changed))

  -- Whatever is answered to createSetup, and whether it succeeds or not: either it has sent nothing, or
  -- it has sent one transaction, to the account of the key that was generated, and that key was stored
  -- in the file, without an error. So no funds go to a key that is not in the file.
  pub create_setup-IsStoredFirst :
      (funded : Bool) (m : Machine) → IsStoredFirst m (create_setup c a funded m).1
  unfolding create_setup
  create_setup-IsStoredFirst funded m =
      let P = IsStoredFirst m in
      let none_yet : P m = inl refl in
      ask-keeps P (connect c a) _ m none_yet (λ (chain_id, submitter) e1.
        ask-keeps P a.generate_key _ m none_yet (λ key e2.
          let account = account_from_private_key c key in
          step-keeps P (store_new_account c a account m) _ (inl (store_sends_nothing account m))
            (λ u s.
              let m1 = (store_new_account c a account m).1 in
              let kept =
                FundedOnce-IsStoredFirst key u m _ e2 s
                  (fund_if-FundedOnce funded submitter account m1) in
              step-keeps P (fund_if funded c a submitter account m1) _ kept (λ v g.
                ask-keeps P (bind_contracts a chain_id) _
                  (fund_if funded c a submitter account m1).1 kept (λ contracts e3. kept)))))
