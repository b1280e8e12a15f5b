-- ===== src/Utils/PkFile/RoundTrip.antt =====
-- utils/utils.go: what ReadPks finds in a file that StoreAccount has written.
use mathlib.Core.List.{append_assoc}
use shutter_tests.Prelude.{
  ℕ, ◌≡◌, refl, subst, ap, ◌∙◌, arith, String, List, [], ◌∷◌, ◌++◌, Option, none, some, length, inl,
  inr,
}
use shutter_tests.Prelude.Outcomes.{ok, Outcome-cases}
use shutter_tests.Chain.{Crypto}
use shutter_tests.Utils.Account.{Account}
use shutter_tests.Utils.PkFile.{
  KeyCodec, hex_encode, store_account, text_of, is_space, scan_words, keys_of_words, read_pks, emit,
}
use shutter_tests.Utils.PkFile.Words.{
  IsClosed, scan_words-append, scan_words_word, hex_encode-IsWord, length-hex_encode, ends-IsClosed,
  emit_word,
}

-- What is relied on of go-ethereum: a key is written as 32 bytes whose hex text reads back as the key,
-- and an address has 20 bytes.
pub record IsCodec (c : Crypto) (k : KeyCodec) : Type 0 where
  pub key_length : (key : ℕ) → length (k.from_ecdsa key) ≡ 32
  pub key_back : (key : ℕ) → k.hex_to_ecdsa (hex_encode (k.from_ecdsa key)) ≡ ok key
  pub address_length : (a : ℕ) → length (c.address_bytes a) ≡ 20

module _ (c : Crypto) (k : KeyCodec) (law : IsCodec c k) where
  abbrev line_of : Account → List ℕ
  line_of account =
      hex_encode (k.from_ecdsa account.private_key)
      ++ b' ' ∷ (hex_encode (c.address_bytes account.address) ++ 10 ∷ [])

  abbrev key_text : Account → List ℕ
  key_text account = hex_encode (k.from_ecdsa account.private_key)

  abbrev address_text : Account → List ℕ
  address_text account = hex_encode (c.address_bytes account.address)

  scan_words_line :
      (account : Account)
      → scan_words (line_of account) [] ≡ emit (key_text account) (emit (address_text account) [])
  unfolding scan_words is_space
  scan_words_line account =
      scan_words_word (key_text account) (address_text account ++ 10 ∷ []) [] b' '
        (hex_encode-IsWord _) refl
      ∙ ap (emit (key_text account))
          (scan_words_word (address_text account) [] [] 10 (hex_encode-IsWord _) refl)

  keys_of_words-append :
      (xs ys : List (List ℕ)) (pks pks' : List ℕ)
      → keys_of_words k xs ≡ ok pks
      → keys_of_words k ys ≡ ok pks'
      → keys_of_words k (xs ++ ys) ≡ ok (pks ++ pks')
  unfolding keys_of_words
  keys_of_words-append [] ys pks pks' h g = ground arith
  keys_of_words-append (x ∷ xs) ys pks pks' h g = elim (Outcome-cases (keys_of_words k xs)) [
    | inl (ps, e) ↦ ground (arith, e, h, keys_of_words-append xs ys ps pks' e g)
    | inr (inl (m, e)) ↦ ground (arith, e, h)
    | inr (inr (p, e)) ↦ ground (arith, e, h)
  ]

  length-key_text : (account : Account) → length (key_text account) ≡ 64
  length-key_text account = omega (
    arith,
    length-hex_encode (k.from_ecdsa account.private_key),
    law.key_length account.private_key,
  )

  length-address_text : (account : Account) → length (address_text account) ≡ 40
  length-address_text account = omega (
    arith,
    length-hex_encode (c.address_bytes account.address),
    law.address_length account.address,
  )

  keys_of_words_line :
      (account : Account)
      → keys_of_words k (emit (key_text account) (emit (address_text account) []))
        ≡ ok (account.private_key ∷ [])
  unfolding keys_of_words
  keys_of_words_line account =
      let l = length-key_text account in
      let m = length-address_text account in
      rw
        (
          emit_word (key_text account) (emit (address_text account) []) (omega (arith, l)),
          emit_word (address_text account) [] (omega (arith, m)),
        )
        (ground (arith, l, m, law.key_back account.private_key))

  abbrev no_error : ℕ → Option String
  no_error i = none

  store_account_line :
      (account : Account) (file : Option (List ℕ))
      → store_account c k none no_error account file
        ≡ (none, some (text_of file ++ line_of account))
  unfolding store_account
  store_account_line account file = simp append_assoc

  line_of-IsClosed : (text : List ℕ) (account : Account) → IsClosed (text ++ line_of account)
  unfolding is_space
  line_of-IsClosed text account =
      subst IsClosed
        (append_assoc text (key_text account ++ b' ' ∷ address_text account) (10 ∷ [])
          ∙ ap (λ rest. text ++ rest)
              (append_assoc (key_text account) (b' ' ∷ address_text account) (10 ∷ [])))
        (ends-IsClosed (text ++ (key_text account ++ b' ' ∷ address_text account)) 10 refl)

  -- An account that was stored, with no error, behind a closed text with readable keys is read back
  -- as the last key; its address is skipped for its length.
  pub read_pks-store_account :
      (account : Account) (file : Option (List ℕ)) (pks : List ℕ)
      → IsClosed (text_of file)
      → read_pks k (ok (text_of file)) ≡ ok pks
      → (text : List ℕ) × (store_account c k none no_error account file ≡ (none, some text))
        × IsClosed text
        × (read_pks k (ok text) ≡ ok (pks ++ account.private_key ∷ []))
  unfolding read_pks
  read_pks-store_account account file pks closed h = (
    text_of file ++ line_of account,
    store_account_line account file,
    line_of-IsClosed (text_of file) account,
    rw (scan_words-append (text_of file) (line_of account) closed, scan_words_line account)
        (keys_of_words-append (scan_words (text_of file) [])
          (emit (key_text account) (emit (address_text account) [])) pks _ h
          (keys_of_words_line account)),
  )
