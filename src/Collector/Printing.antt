-- ===== src/Collector/Printing.antt =====
-- continuous/collector.go: the texts of a blame and of a decryption key, as `fmt`
-- prints them. Texts are ASCII.
pub mod Caught
use shutter_tests.Prelude.{
  ℕ, ◌+◌, String, Bool, List, [], ◌∷◌, ◌++◌, Option, none, some, length, take, drop, replicate, ltb,
  nat_beq, if◌then◌else◌,
}
use shutter_tests.Prelude.Int.{ℤ}
use shutter_tests.Prelude.Words.{int64_sub}
use shutter_tests.Prelude.Text.{codes}
use shutter_tests.Prelude.Decimal.{decimal, decimal_ℤ, padded}
use shutter_tests.Prelude.Outcomes.{
  Outcome, ok, err, panic, Panic, nil_dereference, index_out_of_range, ◌>>=◌,
}
use shutter_tests.Utils.PkFile.{hex_encode}
use shutter_tests.Collector.Blame.{
  Pointer, nil, created_ts_variable, key_time, DecryptionKey, ValidatorBlame,
}

-- A time in UTC.
pub record CivilTime : Type 0 where
  pub year : ℕ
  pub month : ℕ
  pub day : ℕ
  pub hour : ℕ
  pub minute : ℕ
  pub second : ℕ
  pub microsecond : ℕ

-- The clock of `time.Time`, and go-ethereum's texts and bytes of addresses and hashes.
pub record Display : Type 0 where
  pub utc : ℤ → CivilTime
  pub unix_milli : ℤ → ℤ
  pub address_hex : ℕ → List ℕ
  pub address_bytes : ℕ → List ℕ
  pub hash_hex : List ℕ → List ℕ

-- `Format("2006-01-01 15:04:05.000000")`: `01` stands for the month, both times.
unfoldable pub format_time : CivilTime → List ℕ
format_time t =
    padded 4 t.year
    ++ b'-'
      ∷ (padded 2 t.month
          ++ b'-'
            ∷ (padded 2 t.month
                ++ b' '
                  ∷ (padded 2 t.hour
                      ++ b':'
                        ∷ (padded 2 t.minute
                            ++ b':' ∷ (padded 2 t.second ++ b'.' ∷ padded 6 t.microsecond)))))

-- A label, a value and the end of the line.
unfoldable pub line : String → List ℕ → List ℕ
line label value = codes label ++ (value ++ 10 ∷ [])

-- `fmt` writes the message of a panic of a String method in place of its text. The bounds that the
-- message of a slice gives are left out.
unfoldable pub catch_panic : Outcome (List ℕ) → List ℕ
catch_panic (ok text) = text
catch_panic (err e) = codes e
catch_panic (panic nil_dereference) =
    codes
      "%!v(PANIC=String method: runtime error: invalid memory address or nil pointer dereference)"
catch_panic (panic p) = codes "%!v(PANIC=String method: runtime error: slice bounds out of range)"

-- String of a DecryptionKey, with the variable that its pointer may point to.
unfoldable pub decryption_key_string : Display → ℤ → DecryptionKey → Outcome (List ℕ)
unfolding line format_time
decryption_key_string d created_ts key = do
  time ← key_time key.created_ts created_ts
  if ltb (length key.identity_preimage) 32
      then panic index_out_of_range
      else ok (
          line "first seen\t: " (format_time (d.utc time))
          ++ (line "tx pointer\t: " (decimal_ℤ key.tx_pointer)
              ++ (line "identity preimage:" []
                  ++ (line "prefix\t" (hex_encode (take 32 key.identity_preimage))
                      ++ (codes "sender\t" ++ hex_encode (drop 32 key.identity_preimage))))))

unfoldable pub deref_time : Option ℤ → Outcome ℤ
deref_time none = panic nil_dereference
deref_time (some t) = ok t

-- The lines that both forms start with.
unfoldable pub blame_head : Display → ValidatorBlame → ℤ → List ℕ
unfolding line format_time
blame_head d b target_ts =
    line "validator id\t: " (decimal_ℤ b.validator_index)
    ++ (line "public key:\t " b.proposer_public_key
        ++ (line "withdrawal:\t " (d.address_hex b.credentials)
            ++ (line "triggered\t: " (decimal_ℤ b.trigger_block)
                ++ (line "submitted\t: " (decimal_ℤ b.submit_block)
                    ++ (line "target block\t: " (decimal_ℤ b.target_block)
                        ++ (line "target slot\t: " (decimal_ℤ b.target_slot)
                            ++ line "target ts\t: " (format_time (d.utc target_ts))))))))

is_empty_hash : List ℕ → Bool
is_empty_hash [] = Bool.true
is_empty_hash (byte ∷ bytes) = if nat_beq byte 0 then is_empty_hash bytes else Bool.false

-- The form without a key.
no_key_string : Display → ValidatorBlame → Outcome (List ℕ)
no_key_string d b = do
  target_ts ← deref_time b.target_block_ts
  ok (
      blame_head d b target_ts
      ++ (line "NO DECRYPTION KEY SEEN" []
          ++ (line "identity preimage:" []
              ++ (line "prefix\t" (hex_encode b.prefix)
                  ++ line "sender\t" (hex_encode (d.address_bytes b.sender))))))

-- The form with a key, whose own text is printed in it.
key_string : Display → ℤ → ValidatorBlame → Outcome (List ℕ)
key_string d created_ts b = do
  target_ts ← deref_time b.target_block_ts
  created ← key_time b.decryption_key.created_ts created_ts
  ok (
      blame_head d b target_ts
      ++ (line "ts (key-target)\t: "
            (decimal_ℤ (int64_sub (d.unix_milli created) (d.unix_milli target_ts)) ++ codes "ms")
          ++ (line "decrypted tx\t: " (d.hash_hex b.decrypted_tx_hash)
              ++ (line "decryption key:" []
                  ++ line "" (catch_panic (decryption_key_string d created_ts b.decryption_key))))))

-- String of a ValidatorBlame.
unfoldable pub validator_blame_string : Display → ℤ → ValidatorBlame → Outcome (List ℕ)
unfolding is_empty_hash no_key_string key_string deref_time
validator_blame_string d created_ts b =
    if is_empty_hash b.decrypted_tx_hash then no_key_string d b else key_string d created_ts b

-- `fmt.Fprintln(w, blame)`.
unfoldable pub print_blame : Display → ValidatorBlame × ℤ → List ℕ
unfolding catch_panic
print_blame d (b, created_ts) = catch_panic (validator_blame_string d created_ts b) ++ 10 ∷ []
