-- ===== src/Continuous/Tx/Names.antt =====
-- continuous/tx.go: which statuses have a name.
use shutter_tests.Prelude.{ℕ, zero, suc, ◌-◌, ltb, ◌≡◌, refl, subst, ◌↔◌, arith, String}
use shutter_tests.Prelude.Outcomes.{ok, panic, index_out_of_range}
use shutter_tests.Continuous.Tx.{
  TxStatus, signed, sequenced, included, not_sequenced, not_included, system_failure, enum_index,
  tx_status_string,
}

pub name_of : TxStatus → String
name_of signed = "Signed"
name_of sequenced = "Sequenced"
name_of included = "Included"
name_of not_sequenced = "NotSequenced"
name_of not_included = "NotIncluded"
name_of system_failure = "SystemFailure"

pub tx_status_string-enum_index : (s : TxStatus) → tx_status_string (enum_index s) ≡ ok (name_of s)
unfolding tx_status_string enum_index name_of
tx_status_string-enum_index signed = refl
tx_status_string-enum_index sequenced = refl
tx_status_string-enum_index included = refl
tx_status_string-enum_index not_sequenced = refl
tx_status_string-enum_index not_included = refl
tx_status_string-enum_index system_failure = refl

too_high :
    (n : ℕ)
    → tx_status_string (suc (suc (suc (suc (suc (suc (suc n))))))) ≡ panic index_out_of_range
unfolding tx_status_string
too_high n =
    let e : suc (suc (suc (suc (suc (suc (suc n)))))) - 1 ≡ suc (suc (suc (suc (suc (suc n))))) =
      omega arith in
    rw (e, ltb) (ground arith)

status_of :
    (ts : ℕ) (name : String) → tx_status_string ts ≡ ok name → (s : TxStatus) × (enum_index s ≡ ts)
unfolding tx_status_string enum_index
status_of zero name h = absurd (ground (arith, h))
status_of (suc zero) name h = (signed, refl)
status_of (suc (suc zero)) name h = (sequenced, refl)
status_of (suc (suc (suc zero))) name h = (included, refl)
status_of (suc (suc (suc (suc zero)))) name h = (not_sequenced, refl)
status_of (suc (suc (suc (suc (suc zero))))) name h = (not_included, refl)
status_of (suc (suc (suc (suc (suc (suc zero)))))) name h = (system_failure, refl)
status_of (suc (suc (suc (suc (suc (suc (suc n))))))) name h =
    absurd (ground (arith, h, too_high n))

-- A status prints, rather than panics, exactly if it is one of the six that are declared: the zero value
-- of the type, and any number above six, are out of the array's range.
pub tx_status_string-returns :
    (ts : ℕ)
    → ((name : String) × (tx_status_string ts ≡ ok name)) ↔ ((s : TxStatus) × (enum_index s ≡ ts))
tx_status_string-returns ts = (
  λ (name, h). status_of ts name h,
  λ (s, e). (
    name_of s,
    subst (λ n. tx_status_string n ≡ ok (name_of s)) e (tx_status_string-enum_index s),
  ),
)
