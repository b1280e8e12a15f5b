-- ===== src/Utils/PkFile.antt =====
-- utils/utils.go: StoreAccount, which appends an account to the file pk.hex, and ReadPks, which finds
-- the private keys in such a file. A file is its characters, and an ASCII text.
pub mod Words
pub mod RoundTrip
use shutter_tests.Prelude.{
  ℕ, ◌+◌, ◌-◌, ◌/◌, ◌%◌, String, Bool, List, [], ◌∷◌, ◌++◌, Option, none, some, length, ltb, leb,
  nat_beq, ◌&&◌, ◌||◌, if◌then◌else◌, true, false,
}
use shutter_tests.Prelude.Outcomes.{Outcome, ok, err, ◌>>=◌}
use shutter_tests.Chain.{Crypto}
use shutter_tests.Utils.Account.{Account}

-- `crypto.FromECDSA` and `crypto.HexToECDSA` of go-ethereum.
pub record KeyCodec : Type 0 where
  pub from_ecdsa : ℕ → List ℕ
  pub hex_to_ecdsa : List ℕ → Outcome ℕ

unfoldable pub hex_char : ℕ → ℕ
hex_char n = if ltb n 10 then b'0' + n else b'a' + n - 10

-- `hex.Encoder`.
unfoldable pub hex_encode : List ℕ → List ℕ
unfolding hex_char
hex_encode [] = []
hex_encode (b ∷ bytes) = hex_char (b / 16) ∷ hex_char (b % 16) ∷ hex_encode bytes

-- The writes of StoreAccount, up to the first that fails. A write that fails leaves nothing behind.
unfoldable pub write_all : (ℕ → Option String) → ℕ → List (List ℕ) → List ℕ → Option String × List ℕ
write_all errors i [] file = (none, file)
write_all errors i (part ∷ parts) file = elim (errors i) [
  | some e ↦ (some e, file)
  | none ↦ write_all errors (i + 1) parts (file ++ part)
]

-- The four texts that make the line of an account.
unfoldable pub account_line : Crypto → KeyCodec → Account → List (List ℕ)
unfolding hex_encode
account_line c k account =
    hex_encode (k.from_ecdsa account.private_key)
    ∷ (b' ' ∷ [])
    ∷ hex_encode (c.address_bytes account.address)
    ∷ (10 ∷ [])
    ∷ []

-- A file that is not there is created.
unfoldable pub text_of : Option (List ℕ) → List ℕ
text_of none = []
text_of (some text) = text

-- The error of opening the file, those of the writes, and the file before the call, where there is one.
unfoldable pub store_account :
    Crypto
    → KeyCodec
    → Option String
    → (ℕ → Option String)
    → Account
    → Option (List ℕ)
    → Option String × Option (List ℕ)
unfolding write_all account_line text_of
store_account c k (some e) errors account file = (some e, file)
store_account c k none errors account file =
    let (error, text) = write_all errors 0 (account_line c k account) (text_of file) in
    (error, some text)

unfoldable pub is_space : ℕ → Bool
is_space c = nat_beq c b' ' || (leb 9 c && leb c 13)

unfoldable pub emit : List ℕ → List (List ℕ) → List (List ℕ)
emit [] words = words
emit (c ∷ cs) words = (c ∷ cs) ∷ words

-- `bufio.ScanWords`, with the word that is being read.
unfoldable pub scan_words : List ℕ → List ℕ → List (List ℕ)
unfolding emit
scan_words [] cur = emit cur []
scan_words (c ∷ text) cur = elim (is_space c) [
  | true ↦ emit cur (scan_words text [])
  | false ↦ scan_words text (cur ++ c ∷ [])
]

abbrev pub max_scan_token_size : ℕ
max_scan_token_size = 65536

-- The loop over the words. A word that does not fit the scanner's buffer ends it with an error.
unfoldable pub keys_of_words : KeyCodec → List (List ℕ) → Outcome (List ℕ)
keys_of_words k [] = ok []
keys_of_words k (x ∷ words) =
    let rest = keys_of_words k words in
    if leb max_scan_token_size (length x)
    then err "bufio.Scanner: token too long"
    else if nat_beq (length x) 64
    then (do pk ← k.hex_to_ecdsa x; pks ← rest; ok (pk ∷ pks))
    else rest

-- ReadPks, on the text of the reader or its error.
unfoldable pub read_pks : KeyCodec → Outcome (List ℕ) → Outcome (List ℕ)
unfolding scan_words keys_of_words
read_pks k reader = do text ← reader; keys_of_words k (scan_words text [])
