-- ===== src/Collector/Blame/Keys.antt =====
-- continuous/collector.go: which of the decryption keys of a slot a blame gets.
use shutter_tests.Prelude.{
  ◌≤◌, ◌≡◌, refl, inl, inr, List, [], ◌∷◌, length, if◌then◌else◌, arith, Bool-cases, All,
}
use shutter_tests.Prelude.Int.{ℤ}
use shutter_tests.Prelude.Outcomes.{ok}
use shutter_tests.Collector.Credentials.{Contracts}
use shutter_tests.Collector.Blame.{ValidatorBlame, KeyRow, is_ours, set_key, key_row, key_rows}

-- Every preimage has the 32 bytes of a prefix.
abbrev pub IsLong : KeyRow → Type 0
IsLong r = 32 ≤ length r.identity_preimage

-- The rows that are the account's, for the trigger block.
abbrev pub ours : Contracts → ℤ → List KeyRow → List KeyRow
ours contracts t [] = []
ours contracts t (r ∷ rows) =
    let rest = ours contracts t rows in if is_ours contracts t r then r ∷ rest else rest

abbrev pub set_keys : List KeyRow → ValidatorBlame → ValidatorBlame
set_keys [] blame = blame
set_keys (r ∷ rows) blame = set_keys rows (set_key r blame)

abbrev pub last_time : ℤ → List KeyRow → ℤ
last_time ts [] = ts
last_time ts (r ∷ rows) = last_time r.created_ts rows

-- If every preimage has 32 bytes, the loop sets the key of each row that is the account's, in order,
-- and leaves the time of the last row, be it the account's or not.
pub key_rows-set_keys :
    (contracts : Contracts) (rows : List KeyRow) (ts : ℤ) (blame : ValidatorBlame)
    → All IsLong rows
    → key_rows contracts rows ts blame
      ≡ ok (set_keys (ours contracts blame.trigger_block rows) blame, last_time ts rows)
unfolding key_rows key_row set_key
key_rows-set_keys contracts [] ts blame long = refl
key_rows-set_keys contracts (r ∷ rows) ts blame (l, long) =
    elim (Bool-cases (is_ours contracts blame.trigger_block r)) [
      | inl t ↦
          ground (arith, l, t, key_rows-set_keys contracts rows r.created_ts (set_key r blame) long)
      | inr f ↦ ground (arith, l, f, key_rows-set_keys contracts rows r.created_ts blame long)
    ]
