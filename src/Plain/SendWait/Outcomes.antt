-- ===== src/Plain/SendWait/Outcomes.antt =====
-- tests/sendwaittx.go: when a round succeeds, and what its failure says of the nonce.
use shutter_tests.Prelude.{
  ℕ, ◌≡◌, refl, sym, ◌∙◌, ap, ◌⊎◌, suc, ◌++◌, replicate, List, ◌∷◌, some, Option-cases, inl, inr,
  String, Bool, true, false, nat_beq, nat_beq_iff, arith, Bool-cases,
}
use shutter_tests.Prelude.Words.{uint64_add}
use shutter_tests.Prelude.Outcomes.{Outcome, ok, err, panic, >>=-eq-ok}
use shutter_tests.Plain.Config.{Config}
use shutter_tests.Plain.Requests.{
  Client, SignedTx, Lookup, receipt, timed_out, second_passed, send_legacy_tx, cancel_tx,
  wait_for_receipt,
}
use shutter_tests.Plain.SendWait.{
  or_fatal, confirmed, Answers, check_confirmed, after_cancel, after_receipt, after_wait,
  after_send,
}

-- The rounds of a wait, up to the first that is not just a second that passes.
pub record IsWaited (l : Lookup) (lookups : List Lookup) : Type 0 where
  pub seconds : ℕ
  pub rest : List Lookup
  pub split : lookups ≡ replicate seconds second_passed ++ l ∷ rest

-- The node can be reached, and reports the next nonce as pending.
pub record IsUsed (c : Client) (cfg : Config) (nonce : ℕ) : Type 0 where
  pub dialed : c.dial cfg.node_url ≡ ok tt
  pub key : ℕ
  pub loaded : c.hex_to_ecdsa cfg.private_key ≡ ok key
  pub used : c.pending_nonce_at (c.address_of_key key) ≡ ok (uint64_add nonce 1)

-- What became of a nonce that its transaction did not succeed with: its cancellation was sent, or
-- could not be sent and the nonce was used in the meantime.
abbrev pub IsSettled : Answers → Config → ℕ → Type 0
IsSettled a cfg nonce =
    ((signed : SignedTx) × (cancel_tx a.canceling cfg.node_url cfg.private_key nonce ≡ ok signed))
    ⊎ (((e : String) × (cancel_tx a.canceling cfg.node_url cfg.private_key nonce ≡ err e))
        × IsUsed a.checking cfg nonce)

-- A transaction was sent, and the node could be reached to wait for it.
pub record IsSent (a : Answers) (cfg : Config) (signed : SignedTx) : Type 0 where
  pub sent : send_legacy_tx a.sending cfg.node_url cfg.private_key ≡ ok signed
  pub dialed : a.waiting.dial cfg.node_url ≡ ok tt

pub record IsConfirmed (a : Answers) (cfg : Config) : Type 0 where
  pub signed : SignedTx
  pub sent : IsSent a cfg signed
  pub status : ℕ
  pub found : IsWaited (receipt (suc status)) (a.lookups (a.hash signed))

pub record IsLost (a : Answers) (cfg : Config) : Type 0 where
  pub signed : SignedTx
  pub sent : IsSent a cfg signed
  pub missed :
      IsWaited (receipt 0) (a.lookups (a.hash signed))
      ⊎ IsWaited timed_out (a.lookups (a.hash signed))
  pub settled : IsSettled a cfg signed.tx.nonce

or_fatal-ok :
    {A : Type 0} (m : Outcome A) (message : String) (x : A) → or_fatal m message ≡ ok x → m ≡ ok x
unfolding or_fatal
or_fatal-ok (ok a) message x h = h
or_fatal-ok (err e) message x h = cc h
or_fatal-ok (panic p) message x h = cc h

check_confirmed-IsUsed :
    (c : Client) (cfg : Config) (nonce : ℕ) (b : Bool)
    → check_confirmed c cfg nonce ≡ ok b
    → (b ≡ false) × IsUsed c cfg nonce
unfolding check_confirmed
check_confirmed-IsUsed c cfg nonce b h =
    let (u, o, h1) = >>=-eq-ok (or_fatal (c.dial cfg.node_url) _) _ h in
    let (key, d, h2) = >>=-eq-ok (or_fatal (c.hex_to_ecdsa cfg.private_key) _) _ h1 in
    let (pending, e, h3) =
      >>=-eq-ok (or_fatal (c.pending_nonce_at (c.address_of_key key)) _) _ h2 in
    let found = or_fatal-ok (c.pending_nonce_at (c.address_of_key key)) _ pending e in
    elim (Bool-cases (nat_beq pending (uint64_add nonce 1))) [
      | inl t ↦ (
        ground (arith, t, h3),
        record {
          dialed = or_fatal-ok (c.dial cfg.node_url) _ u o;
          key = key;
          loaded = or_fatal-ok (c.hex_to_ecdsa cfg.private_key) _ key d;
          used = found ∙ ap ok ((nat_beq_iff pending (uint64_add nonce 1)).0 t);
        },
      )
      | inr f ↦ absurd (ground (arith, f, h3))
    ]

IsUsed-check_confirmed :
    (c : Client) (cfg : Config) (nonce : ℕ)
    → IsUsed c cfg nonce
    → check_confirmed c cfg nonce ≡ ok false
unfolding check_confirmed or_fatal confirmed
IsUsed-check_confirmed c cfg nonce u =
    rw (u.dialed, u.loaded, u.used)
      (rw ((nat_beq_iff (uint64_add nonce 1) (uint64_add nonce 1)).1 refl) refl)

after_cancel-IsSettled :
    (a : Answers) (cfg : Config) (nonce : ℕ) (canceled : Outcome SignedTx)
    → cancel_tx a.canceling cfg.node_url cfg.private_key nonce ≡ canceled
    → (b : Bool) → after_cancel a.checking cfg nonce canceled ≡ ok b
    → (b ≡ false) × IsSettled a cfg nonce
unfolding after_cancel
after_cancel-IsSettled a cfg nonce (ok signed) e b h = (ground (arith, h), inl (signed, e))
after_cancel-IsSettled a cfg nonce (err x) e b h =
    let (none_left, used) = check_confirmed-IsUsed a.checking cfg nonce b h in
    (none_left, inr ((x, e), used))
after_cancel-IsSettled a cfg nonce (panic p) e b h = cc h

pub IsSettled-after_cancel :
    (a : Answers) (cfg : Config) (nonce : ℕ)
    → IsSettled a cfg nonce
    → after_cancel a.checking cfg nonce (cancel_tx a.canceling cfg.node_url cfg.private_key nonce)
      ≡ ok false
unfolding after_cancel
IsSettled-after_cancel a cfg nonce (inl (signed, e)) = rw e refl
IsSettled-after_cancel a cfg nonce (inr ((x, e), u)) =
    rw e (IsUsed-check_confirmed a.checking cfg nonce u)

-- A round that returns has sent its transaction and waited; and what comes behind the wait.
pub after_send-ok :
    (a : Answers) (cfg : Config) (m : Outcome SignedTx) (b : Bool)
    → after_send a cfg m ≡ some (ok b)
    → (signed : SignedTx) × (m ≡ ok signed)
      × ((r : Outcome Bool) × (wait_for_receipt
              (a.waiting.dial cfg.node_url)
              (a.lookups (a.hash signed))
            ≡ some r)
          × (after_receipt a cfg signed.tx.nonce r ≡ ok b))
unfolding after_send after_wait
after_send-ok a cfg (ok signed) b h =
    elim (Option-cases
      (wait_for_receipt (a.waiting.dial cfg.node_url) (a.lookups (a.hash signed)))) [
        | inl e ↦ absurd (ground (arith, e, h))
        | inr (r, e) ↦ (signed, refl, (r, e, ground (arith, e, h)))
      ]
after_send-ok a cfg (err e) b h = cc h
after_send-ok a cfg (panic p) b h = cc h

pub after_receipt-ok :
    (a : Answers) (cfg : Config) (nonce : ℕ) (received : Outcome Bool) (b : Bool)
    → after_receipt a cfg nonce received ≡ ok b
    → (received ≡ ok b) × ((b ≡ true) ⊎ ((b ≡ false) × IsSettled a cfg nonce))
unfolding after_receipt
after_receipt-ok a cfg nonce (ok true) b h = (h, inl (ground (arith, h)))
after_receipt-ok a cfg nonce (ok false) b h =
    let (lost, settled) =
      after_cancel-IsSettled a cfg nonce (cancel_tx a.canceling cfg.node_url cfg.private_key nonce)
        refl b h in
    (ap ok (sym lost), inr (lost, settled))
after_receipt-ok a cfg nonce (err e) b h = cc h
after_receipt-ok a cfg nonce (panic p) b h = cc h
