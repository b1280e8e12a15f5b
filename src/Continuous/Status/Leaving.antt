-- ===== src/Continuous/Status/Leaving.antt =====
-- continuous/continuous.go: which transactions CheckTxInFlight is to take out of those in flight.
use shutter_tests.Prelude.{Bool, true, false, ◌≡◌, ◌⊎◌, inl, inr, arith, Bool-cases}
use shutter_tests.Prelude.Int.{ℤ, ◌<ℤ◌, ltb_ℤ}
use shutter_tests.Continuous.Tx.{
  TxStatus, signed, sequenced, included, not_sequenced, not_included, system_failure, ShutterTx,
}

-- A sequenced transaction that another one, included later than its submission, has overtaken.
abbrev pub IsOvertaken : ℤ → ShutterTx → Type 0
IsOvertaken highest tx = (tx.tx_status ≡ sequenced) × (tx.submission_block <ℤ highest)

-- The transactions that are followed no further.
abbrev pub Leaves : ℤ → ShutterTx → Type 0
Leaves highest tx =
    IsOvertaken highest tx ⊎ ((tx.tx_status ≡ included) ⊎ (tx.tx_status ≡ system_failure))

abbrev must_leave : TxStatus → Bool → Bool
must_leave signed overtaken = false
must_leave sequenced overtaken = overtaken
must_leave included overtaken = true
must_leave not_sequenced overtaken = false
must_leave not_included overtaken = false
must_leave system_failure overtaken = true

must_leave-Leaves :
    (highest : ℤ) (tx : ShutterTx)
    → must_leave tx.tx_status (ltb_ℤ tx.submission_block highest) ≡ true
    → Leaves highest tx
must_leave-Leaves highest tx h = ground arith

Leaves-must_leave :
    (highest : ℤ) (tx : ShutterTx)
    → Leaves highest tx
    → must_leave tx.tx_status (ltb_ℤ tx.submission_block highest) ≡ true
Leaves-must_leave highest tx h = ground arith

pub dec_leaves : (highest : ℤ) (tx : ShutterTx) → Dec (Leaves highest tx)
dec_leaves highest tx =
    elim (Bool-cases (must_leave tx.tx_status (ltb_ℤ tx.submission_block highest))) [
      | inl e ↦ yes (must_leave-Leaves highest tx e)
      | inr e ↦ no (λ l. cc (e, Leaves-must_leave highest tx l))
    ]

pub dec_stays : (highest : ℤ) (tx : ShutterTx) → Dec (¬ Leaves highest tx)
dec_stays highest tx = elim (dec_leaves highest tx) [ yes l ↦ no (λ n. n l) | no n ↦ yes n ]
