-- ===== src/Utils/Account/Nonces.antt =====
-- utils/utils.go: the nonces that an account hands out.
use shutter_tests.Prelude.{ℕ, zero, suc, ◌≡◌, get_elem?, some, ◌<◌, arith, ap, ◌∙◌}
use shutter_tests.Prelude.Int.{ℤ, pos, ◌+ℤ◌, int_laws}
use shutter_tests.Utils.Account.{Account, use_nonces}

shift : (a : ℤ) (i : ℕ) → a +ℤ pos 1 +ℤ pos i ≡ a +ℤ pos (suc i)
shift a i = omega int_laws

-- Of n nonces that an account gives out in a row, the i-th is the stored one plus i.
pub use_nonces-get_elem? :
    (n i : ℕ) (acc : Account) → i < n → get_elem? (use_nonces n acc).0 i ≡ some (acc.nonce +ℤ pos i)
unfolding use_nonces
use_nonces-get_elem? zero i acc h = elim h [ ]
use_nonces-get_elem? (suc n) zero acc h = ap some (omega int_laws)
use_nonces-get_elem? (suc n) (suc i) acc h =
    use_nonces-get_elem? n i (record acc { nonce = acc.nonce +ℤ pos 1 }) (omega arith)
    ∙ ap some (shift acc.nonce i)

-- And the account then stands n nonces further.
pub use_nonces-nonce : (n : ℕ) (acc : Account) → (use_nonces n acc).1.nonce ≡ acc.nonce +ℤ pos n
unfolding use_nonces
use_nonces-nonce zero acc = omega int_laws
use_nonces-nonce (suc n) acc =
    use_nonces-nonce n (record acc { nonce = acc.nonce +ℤ pos 1 }) ∙ shift acc.nonce n

-- The account once its nonce was used k times.
abbrev pub counted_up : Account → ℕ → Account
counted_up a k = record a { nonce = a.nonce +ℤ pos k }

abbrev with_nonce : Account → ℤ → Account
with_nonce a z = record a { nonce = z }

plus_zero : (z : ℤ) → z ≡ z +ℤ pos 0
plus_zero z = omega int_laws

plus_once : (z : ℤ) (k : ℕ) → (z +ℤ pos k) +ℤ pos 1 ≡ z +ℤ pos (suc k)
plus_once z k = omega int_laws

pub not_counted_up : (a : Account) → a ≡ counted_up a 0
not_counted_up a = ap (with_nonce a) (plus_zero a.nonce)

pub counted_up_once : (a : Account) (k : ℕ) → counted_up (counted_up a k) 1 ≡ counted_up a (suc k)
counted_up_once a k = ap (with_nonce a) (plus_once a.nonce k)
