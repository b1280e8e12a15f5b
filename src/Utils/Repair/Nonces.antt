-- ===== src/Utils/Repair/Nonces.antt =====
-- utils/utils.go: which nonces FixNonce fills.
use mathlib.Core.Path.{ap₂}
use shutter_tests.Prelude.{
  subst, ℕ, zero, suc, ◌+◌, ◌-◌, ◌≤◌, ◌<◌, ◌≡◌, ap, ◌∙◌, List, [], ◌∷◌, map, String, Option, none,
  arith,
}
use shutter_tests.Prelude.Words.{word, uint64_add, uint64_sub}
use shutter_tests.Prelude.Outcomes.{ok, >>=-eq-ok, ok_injective}
use shutter_tests.Chain.{Transaction, Crypto}
use shutter_tests.Utils.Account.{Account, sign}
use shutter_tests.Utils.Repair.{
  FixRound, FixWait, fix_transaction, fix_loop, wait_all, fix_nonce, new_transaction,
}

-- n numbers from a on.
abbrev pub numbers_from : ℕ → ℕ → List ℕ
numbers_from a zero = []
numbers_from a (suc n) = a ∷ numbers_from (a + 1) n

fix_transaction-nonce :
    (c : Crypto) (account : Account) (i head : ℕ) (round : FixRound) (tx : Transaction)
    → round.head_nonce ≡ ok head
    → head + i < word
    → fix_transaction c account i round ≡ ok tx
    → tx.nonce ≡ head + i
unfolding fix_transaction sign new_transaction uint64_add
fix_transaction-nonce c account i head round tx e lt h =
    let (read, f, k) = >>=-eq-ok round.head_nonce _ h in
    let (price, _, l) = >>=-eq-ok round.gas_price _ k in ground (arith, e, f, l)

fix_loop-nonces :
    (c : Crypto) (account : Account) (rounds : ℕ → FixRound) (head n i : ℕ) (txs : List Transaction)
    → ((j : ℕ) → (rounds j).head_nonce ≡ ok head)
    → head + i + n ≤ word
    → fix_loop c account rounds n i ≡ ok txs
    → map (λ tx. tx.nonce) txs ≡ numbers_from (head + i) n
unfolding fix_loop
fix_loop-nonces c account rounds head zero i txs e le h = ground (arith, h)
fix_loop-nonces c account rounds head (suc n) i txs e le h =
    let (tx, f, k) = >>=-eq-ok (fix_transaction c account i (rounds i)) _ h in
    let (rest, g, l) = >>=-eq-ok (fix_loop c account rounds n (i + 1)) _ k in
    let first = fix_transaction-nonce c account i head (rounds i) tx (e i) (omega arith) f in
    let others = fix_loop-nonces c account rounds head n (i + 1) rest e (omega arith) g in
    subst (λ ts. map (λ tx. tx.nonce) ts ≡ numbers_from (head + i) (suc n)) (ok_injective l)
      (ap₂ ◌∷◌ first (others ∙ ap (λ a. numbers_from a n) (omega arith)))

uint64_sub_small : (a b : ℕ) → b ≤ a → a < word → uint64_sub a b ≡ a - b
unfolding uint64_sub
uint64_sub_small a b le lt = omega arith

-- As long as the node reports the same head nonce in every round, FixNonce sends one transaction for
-- each nonce from the head's up to the pending one, which is left out.
pub fix_nonce-nonces :
    (c : Crypto) (account : Account) (head pending : ℕ) (rounds : ℕ → FixRound)
    (waits : ℕ → FixWait) (txs : List Transaction) (error : Option String)
    → ((j : ℕ) → (rounds j).head_nonce ≡ ok head)
    → head ≤ pending
    → pending < word
    → fix_nonce c account (ok head) (ok pending) rounds waits ≡ ok (txs, error)
    → map (λ tx. tx.nonce) txs ≡ numbers_from head (pending - head)
unfolding fix_nonce
fix_nonce-nonces c account head pending rounds waits txs error e le lt h =
    let (sent, f, k) = >>=-eq-ok (fix_loop c account rounds (uint64_sub pending head) 0) _ h in
    let (last, _, l) = >>=-eq-ok (wait_all waits sent 0 none) _ k in
    let same : uint64_sub pending head ≡ pending - head = uint64_sub_small pending head le lt in
    let filled =
      fix_loop-nonces c account rounds head (uint64_sub pending head) 0 sent e (omega (arith, same))
        f in
    subst (λ ts. map (λ tx. tx.nonce) ts ≡ numbers_from head (pending - head))
      (ap (λ r. r.0) (ok_injective l))
      (filled
        ∙ ap (λ a. numbers_from a (uint64_sub pending head)) (omega arith)
        ∙ ap (numbers_from head) same)
