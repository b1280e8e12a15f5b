-- ===== src/Continuous/System/Coherence.antt =====
-- continuous/: how the status of a transaction, the place of its goroutine and its context fit.
use shutter_tests.Chain.{Transaction}
use shutter_tests.Utils.Wait.{Waited}
use shutter_tests.Prelude.{ℕ, List, ◌≡◌, ◌≢◌, ◌⊎◌, inl, inr, arith, Option, String}
use shutter_tests.Prelude.Int.{ℤ}
use shutter_tests.Prelude.Outcomes.{ok}
use shutter_tests.Continuous.Tx.{
  TxStatus, signed, sequenced, not_sequenced, not_included, system_failure, canceled, ShutterTx,
  expire, new_shutter_tx,
}
use shutter_tests.Continuous.Watch.{
  Phase, waiting_submission, waiting_inclusion, forfeiting_failed, forfeiting, returned,
  after_submission, after_inclusion, after_forfeit,
}
use shutter_tests.Continuous.Status.{check_one}
use shutter_tests.Continuous.Status.Leaving.{IsOvertaken}

-- `D` says that the transaction is among the done ones.
pub record IsCoherent (tx : ShutterTx) (phase : Phase) (D : Type 0) : Type 0 where
  pub submits : phase ≡ waiting_submission → (tx.tx_status ≡ signed) × (tx.ctx ≢ canceled)
  pub includes : phase ≡ waiting_inclusion → tx.tx_status ≡ sequenced
  pub forfeits :
      (x : TxStatus)
      → phase ≡ forfeiting x
      → (tx.tx_status ≡ sequenced) × ((x ≡ system_failure) ⊎ ((x ≡ not_included) × D))
  pub failed : phase ≡ forfeiting_failed → tx.tx_status ≡ system_failure
  pub never : tx.tx_status ≢ not_sequenced
  pub given_up : tx.tx_status ≡ not_included → D
  pub canceled_done : tx.ctx ≡ canceled → phase ≡ waiting_inclusion → D
  pub not_signed : tx.tx_status ≡ signed → phase ≡ waiting_submission

module _ (tx : ShutterTx) (D : Type 0) where
  pub after_submission-IsCoherent :
      (w : Waited) (r : ShutterTx × Phase)
      → IsCoherent tx waiting_submission D
      → after_submission w tx ≡ ok r
      → IsCoherent r.0 r.1 D
  unfolding after_submission
  after_submission-IsCoherent w r c e = ground arith

  pub after_inclusion-IsCoherent :
      (w : Waited)
      → IsCoherent tx waiting_inclusion D
      → IsCoherent (after_inclusion w tx).0 (after_inclusion w tx).1 D
  unfolding after_inclusion
  after_inclusion-IsCoherent w c = ground arith

  pub after_forfeit-IsCoherent :
      (phase : Phase) (e : Option String) (r : ShutterTx × Phase)
      → IsCoherent tx phase D
      → after_forfeit phase e tx ≡ ok r
      → IsCoherent r.0 r.1 D
  unfolding after_forfeit
  after_forfeit-IsCoherent waiting_submission e r c h = ground arith
  after_forfeit-IsCoherent waiting_inclusion e r c h = ground arith
  after_forfeit-IsCoherent returned e r c h = ground arith
  after_forfeit-IsCoherent forfeiting_failed e r c h = ground arith
  after_forfeit-IsCoherent (forfeiting x) e r c h = ground (arith, c.forfeits x)

  pub check_one-IsCoherent :
      (phase : Phase) (highest block : ℤ) (D' : Type 0)
      → IsCoherent tx phase D
      → (D → D')
      → (IsOvertaken highest tx → D')
      → IsCoherent (check_one highest block tx).0 phase D'
  unfolding check_one
  check_one-IsCoherent waiting_submission highest block D' c d o = ground arith
  check_one-IsCoherent waiting_inclusion highest block D' c d o = ground arith
  check_one-IsCoherent returned highest block D' c d o = ground arith
  check_one-IsCoherent forfeiting_failed highest block D' c d o = ground arith
  check_one-IsCoherent (forfeiting x) highest block D' c d o = ground (arith, c.forfeits x)

pub weaken-IsCoherent :
    (tx : ShutterTx) (D : Type 0) (phase : Phase) (D' : Type 0)
    → IsCoherent tx phase D
    → (D → D')
    → IsCoherent tx phase D'
weaken-IsCoherent tx D phase D' c d = record {
  submits = c.submits;
  includes = c.includes;
  forfeits = λ x e.
      ((c.forfeits x e).0, elim (c.forfeits x e).1 [ inl f ↦ inl f | inr (f, m) ↦ inr (f, d m) ]);
  failed = c.failed;
  never = c.never;
  given_up = λ e. d (c.given_up e);
  canceled_done = λ e f. d (c.canceled_done e f);
  not_signed = c.not_signed;
}

pub expire-IsCoherent :
    (tx : ShutterTx) (D : Type 0) (phase : Phase)
    → IsCoherent tx phase D
    → IsCoherent (record tx { ctx = expire tx.ctx }) phase D
unfolding expire
expire-IsCoherent tx D phase c = record {
  submits = λ e. ground (arith, c.submits e);
  includes = c.includes;
  forfeits = c.forfeits;
  failed = c.failed;
  never = c.never;
  given_up = c.given_up;
  canceled_done = λ e f. c.canceled_done (ground arith) f;
  not_signed = c.not_signed;
}

pub new-IsCoherent :
    (D : Type 0) (inner outer : Transaction) (sender : ℕ) (prefix : List ℕ) (trigger slot : ℤ)
    → IsCoherent (new_shutter_tx inner outer sender prefix trigger slot) waiting_submission D
unfolding new_shutter_tx
new-IsCoherent D inner outer sender prefix trigger slot = ground arith

-- A goroutine never changes which account sent its transaction.
pub after_submission-sender :
    (w : Waited) (tx : ShutterTx) (r : ShutterTx × Phase)
    → after_submission w tx ≡ ok r
    → r.0.sender ≡ tx.sender
unfolding after_submission
after_submission-sender w tx r e = ground arith

pub after_inclusion-sender :
    (w : Waited) (tx : ShutterTx) → (after_inclusion w tx).0.sender ≡ tx.sender
unfolding after_inclusion
after_inclusion-sender w tx = ground arith

pub after_forfeit-sender :
    (phase : Phase) (e : Option String) (tx : ShutterTx) (r : ShutterTx × Phase)
    → after_forfeit phase e tx ≡ ok r
    → r.0.sender ≡ tx.sender
unfolding after_forfeit
after_forfeit-sender phase e tx r h = ground arith

pub check_one-sender :
    (highest block : ℤ) (tx : ShutterTx) → (check_one highest block tx).0.sender ≡ tx.sender
unfolding check_one
check_one-sender highest block tx = ground arith
