-- ===== src/Utils/PkFile/Words.antt =====
-- utils/utils.go: how the words of a text come apart.
use shutter_tests.Prelude.{
  ℕ, ◌≡◌, refl, ap, ◌∙◌, ◌<◌, ◌≢◌, arith, true, false, List, [], ◌∷◌, ◌++◌, All, length, ◌*◌,
  Bool-cases, inl, inr,
}
use mathlib.Core.List.{append-nil, append_assoc}
use shutter_tests.Utils.PkFile.{is_space, emit, scan_words, hex_encode, hex_char}

-- A text that is empty or ends in a space: the next word does not run into it.
abbrev pub IsClosed : List ℕ → Type 0
IsClosed [] = Unit
IsClosed (c ∷ []) = is_space c ≡ true
IsClosed (c ∷ d ∷ text) = IsClosed (d ∷ text)

abbrev pub IsWord : List ℕ → Type 0
IsWord = All (λ c. is_space c ≡ false)

emit-append : (cur : List ℕ) (xs ys : List (List ℕ)) → emit cur (xs ++ ys) ≡ emit cur xs ++ ys
unfolding emit
emit-append [] xs ys = refl
emit-append (c ∷ cs) xs ys = refl

scan_words_space :
    (c : ℕ) (text cur : List ℕ)
    → is_space c ≡ true
    → scan_words (c ∷ text) cur ≡ emit cur (scan_words text [])
unfolding scan_words
scan_words_space c text cur h = ground arith

scan_words_other :
    (c : ℕ) (text cur : List ℕ)
    → is_space c ≡ false
    → scan_words (c ∷ text) cur ≡ scan_words text (cur ++ c ∷ [])
unfolding scan_words
scan_words_other c text cur h = ground arith

scan_words-nil : scan_words [] [] ≡ []
unfolding scan_words emit
scan_words-nil = refl

pub emit_word : (w : List ℕ) (words : List (List ℕ)) → 0 < length w → emit w words ≡ w ∷ words
unfolding emit
emit_word [] words h = elim h [ ]
emit_word (c ∷ w) words h = refl

-- Behind a closed text the words are read as if it stood alone.
scan_words-append_from :
    (c : ℕ) (text rest cur : List ℕ)
    → IsClosed (c ∷ text)
    → scan_words (c ∷ text ++ rest) cur ≡ scan_words (c ∷ text) cur ++ scan_words rest []
scan_words-append_from c [] rest cur h =
    rw (scan_words_space c rest cur h, scan_words_space c [] cur h, scan_words-nil)
      (emit-append cur [] (scan_words rest []))
scan_words-append_from c (d ∷ text) rest cur h = elim (Bool-cases (is_space c)) [
  | inl t ↦
      rw
        (
          scan_words_space c (d ∷ text ++ rest) cur t,
          scan_words_space c (d ∷ text) cur t,
          scan_words-append_from d text rest [] h,
        )
        (emit-append cur _ _)
  | inr f ↦
      rw (scan_words_other c (d ∷ text ++ rest) cur f, scan_words_other c (d ∷ text) cur f)
        (scan_words-append_from d text rest (cur ++ c ∷ []) h)
]

pub scan_words-append :
    (text rest : List ℕ)
    → IsClosed text
    → scan_words (text ++ rest) [] ≡ scan_words text [] ++ scan_words rest []
scan_words-append [] rest h = rw scan_words-nil
scan_words-append (c ∷ text) rest h = scan_words-append_from c text rest [] h

pub scan_words_word :
    (w rest cur : List ℕ) (c : ℕ)
    → IsWord w
    → is_space c ≡ true
    → scan_words (w ++ c ∷ rest) cur ≡ emit (cur ++ w) (scan_words rest [])
scan_words_word [] rest cur c h s = rw (scan_words_space c rest cur s, append-nil cur)
scan_words_word (d ∷ w) rest cur c h s =
    scan_words_other d (w ++ c ∷ rest) cur h.0
    ∙ scan_words_word w rest (cur ++ d ∷ []) c h.1 s
    ∙ ap (λ v. emit v (scan_words rest [])) (append_assoc cur (d ∷ []) w)

hex_char-IsWord : (n : ℕ) → is_space (hex_char n) ≡ false
unfolding is_space hex_char
hex_char-IsWord n = ground arith

pub hex_encode-IsWord : (bytes : List ℕ) → IsWord (hex_encode bytes)
unfolding hex_encode
hex_encode-IsWord [] = tt
hex_encode-IsWord (b ∷ bytes) = (hex_char-IsWord _, (hex_char-IsWord _, hex_encode-IsWord bytes))

pub length-hex_encode : (bytes : List ℕ) → length (hex_encode bytes) ≡ 2 * length bytes
unfolding hex_encode
length-hex_encode [] = refl
length-hex_encode (b ∷ bytes) = omega (arith, length-hex_encode bytes)

ends-ne-nil : (text : List ℕ) (c : ℕ) → text ++ c ∷ [] ≢ []
ends-ne-nil [] c = cc
ends-ne-nil (d ∷ text) c = cc

IsClosed-cons : (c : ℕ) (text : List ℕ) → text ≢ [] → IsClosed text → IsClosed (c ∷ text)
IsClosed-cons c [] n h = absurd (n refl)
IsClosed-cons c (d ∷ text) n h = h

-- A text that ends in a space is closed, whatever stands before.
pub ends-IsClosed : (text : List ℕ) (c : ℕ) → is_space c ≡ true → IsClosed (text ++ c ∷ [])
ends-IsClosed [] c h = h
ends-IsClosed (d ∷ text) c h =
    IsClosed-cons d (text ++ c ∷ []) (ends-ne-nil text c) (ends-IsClosed text c h)
