-- ===== src/Collector/Credentials.antt =====
-- continuous/collector.go: withdrawAddressForPublicKey. A public key is the bytes of its text.
use shutter_tests.Prelude.{
  ℕ, ◌+◌, ◌-◌, ◌*◌, ◌&&◌, List, [], ◌∷◌, Option, none, some, length, drop, leb, ltb, nat_eq, int_eq,
  if◌then◌else◌,
}
use shutter_tests.Prelude.Outcomes.{Outcome, ok, err, panic, index_out_of_range, ◌>>=◌}

-- What the deposit contract and go-ethereum answer.
pub record Contracts : Type 0 where
  pub withdrawal_credentials : List ℕ → Outcome (List ℕ)
  pub bytes_to_address : List ℕ → ℕ
  pub submit_address : ℕ

hex_digit : ℕ → Option ℕ
hex_digit c =
    if leb b'0' c && leb c b'9'
    then some (c - b'0')
    else if leb b'a' c && leb c b'f'
    then some (c - b'a' + 10)
    else if leb b'A' c && leb c b'F'
    then some (c - b'A' + 10)
    else none

hex_byte : Option ℕ → Option ℕ → Option (List ℕ) → Option (List ℕ)
hex_byte (some a) (some b) (some bytes) = some ((a * 16 + b) ∷ bytes)
hex_byte _ _ _ = none

-- `hex.DecodeString`: two digits for each byte.
unfoldable pub hex_decode : List ℕ → Option (List ℕ)
unfolding hex_digit hex_byte
hex_decode [] = some []
hex_decode (c ∷ []) = none
hex_decode (c ∷ d ∷ cs) = hex_byte (hex_digit c) (hex_digit d) (hex_decode cs)

-- `proposerPublicKey[2:]` is out of range for a shorter text.
unfoldable pub withdraw_address_for_public_key : Contracts → List ℕ → Outcome ℕ
withdraw_address_for_public_key contracts public_key =
    if ltb (length public_key) 2
    then panic index_out_of_range
    else elim (hex_decode (drop 2 public_key)) [
      | none ↦ err "encoding/hex: invalid"
      | some bytes ↦ do
        result ← contracts.withdrawal_credentials bytes
        ok (contracts.bytes_to_address result)
    ]
