-- ===== src/Continuous/Configure/Prepare.antt =====
-- continuous/config.go: which accounts are retrieved and created, and how many.
use shutter_tests.Prelude.{
  ℕ, zero, suc, ◌-◌, ◌≤◌, ◌≡◌, refl, sym, ap, subst, ◌∙◌, arith, List, [], ◌∷◌, ◌++◌, map, length,
  take, All, inl, inr,
}
use shutter_tests.Prelude.Outcomes.{Outcome, ok, err, panic, ok_injective, Outcome-cases}
use shutter_tests.Chain.{Crypto}
use shutter_tests.Utils.Account.{Account, account_from_private_key}
use shutter_tests.Continuous.Accounts.{
  accounts_of_keys, set_nonces, retrieve_accounts, create_accounts,
}
use shutter_tests.Continuous.Configure.{generated}

abbrev pub private_keys : List Account → List ℕ
private_keys = map (λ a. a.private_key)

pub private_keys-set_nonces :
    (nonce_at : ℕ → Outcome ℕ) (accounts : List Account)
    → private_keys (set_nonces nonce_at accounts) ≡ private_keys accounts
unfolding set_nonces
private_keys-set_nonces nonce_at [] = refl
private_keys-set_nonces nonce_at (a ∷ accounts) =
    ap (λ ks. a.private_key ∷ ks) (private_keys-set_nonces nonce_at accounts)

pub private_keys-accounts_of_keys :
    (c : Crypto) (num : ℕ) (pks : List ℕ) → private_keys (accounts_of_keys c num pks) ≡ take num pks
unfolding accounts_of_keys account_from_private_key
private_keys-accounts_of_keys c zero pks = refl
private_keys-accounts_of_keys c (suc num) [] = refl
private_keys-accounts_of_keys c (suc num) (pk ∷ pks) =
    ap (λ ks. pk ∷ ks) (private_keys-accounts_of_keys c num pks)

-- The keys that retrieveAccounts finds are the first ones of the file.
pub private_keys-retrieve_accounts :
    (c : Crypto) (num : ℕ) (pks : List ℕ) (nonce_at : ℕ → Outcome ℕ) (accounts : List Account)
    → retrieve_accounts c num (ok pks) nonce_at ≡ ok accounts
    → private_keys accounts ≡ take num pks
unfolding retrieve_accounts
private_keys-retrieve_accounts c num pks nonce_at accounts h =
    ap private_keys (sym (ok_injective h))
    ∙ private_keys-set_nonces nonce_at (accounts_of_keys c num pks)
    ∙ private_keys-accounts_of_keys c num pks

pub length-private_keys :
    (accounts : List Account) → length (private_keys accounts) ≡ length accounts
length-private_keys [] = refl
length-private_keys (a ∷ accounts) = ap suc (length-private_keys accounts)

pub length-take {ℓ} : {A : Type ℓ} (n : ℕ) (xs : List A) → length (take n xs) ≤ n
length-take zero xs = omega arith
length-take (suc n) [] = omega arith
length-take (suc n) (x ∷ xs) = omega (arith, length-take n xs)

take_all {ℓ} : {A : Type ℓ} (n : ℕ) (xs : List A) → length xs ≡ n → take n xs ≡ xs
take_all zero [] h = refl
take_all zero (x ∷ xs) h = absurd (omega (arith, h))
take_all (suc n) [] h = refl
take_all (suc n) (x ∷ xs) h = ap (λ zs. x ∷ zs) (take_all n xs (omega (arith, h)))

-- A first part that is filled up to n elements is what the first n elements of the whole are.
pub take-append {ℓ} :
    {A : Type ℓ} (n : ℕ) (xs ys : List A)
    → length ys ≡ n - length (take n xs)
    → take n (xs ++ ys) ≡ take n xs ++ ys
take-append zero [] [] h = refl
take-append zero [] (y ∷ ys) h = absurd (omega (arith, h))
take-append (suc n) [] ys h = take_all (suc n) ys (omega (arith, h))
take-append zero (x ∷ xs) [] h = refl
take-append zero (x ∷ xs) (y ∷ ys) h = absurd (omega (arith, h))
take-append (suc n) (x ∷ xs) ys h = ap (λ zs. x ∷ zs) (take-append n xs ys (omega (arith, h)))

pub length-create_accounts :
    (c : Crypto) (keys : List (Outcome ℕ)) (accounts : List Account)
    → create_accounts c keys ≡ ok accounts
    → length accounts ≡ length keys
unfolding create_accounts
length-create_accounts c [] accounts h = ground (arith, h)
length-create_accounts c (ok pk ∷ keys) accounts h = elim (Outcome-cases (create_accounts c keys)) [
  | inl (rest, e) ↦ ground (arith, h, e, length-create_accounts c keys rest e)
  | inr (inl (x, e)) ↦ ground (arith, h, e)
  | inr (inr (p, e)) ↦ ground (arith, h, e)
]
length-create_accounts c (err e ∷ keys) accounts h = ground (arith, h)
length-create_accounts c (panic p ∷ keys) accounts h = ground (arith, h)

pub length-generated : (key : ℕ → Outcome ℕ) (num : ℕ) → length (generated key num) ≡ num
unfolding generated
length-generated key zero = refl
length-generated key (suc num) = ap suc (length-generated key num)

-- An account has the address of its own key.
abbrev pub IsOwn : Crypto → Account → Type 0
IsOwn c account = account.address ≡ c.address_of_key account.private_key

pub set_nonces-IsOwn :
    (c : Crypto) (nonce_at : ℕ → Outcome ℕ) (accounts : List Account)
    → All (IsOwn c) accounts
    → All (IsOwn c) (set_nonces nonce_at accounts)
unfolding set_nonces
set_nonces-IsOwn c nonce_at [] h = tt
set_nonces-IsOwn c nonce_at (a ∷ accounts) h = (h.0, set_nonces-IsOwn c nonce_at accounts h.1)

pub accounts_of_keys-IsOwn :
    (c : Crypto) (num : ℕ) (pks : List ℕ) → All (IsOwn c) (accounts_of_keys c num pks)
unfolding accounts_of_keys account_from_private_key
accounts_of_keys-IsOwn c zero pks = tt
accounts_of_keys-IsOwn c (suc num) [] = tt
accounts_of_keys-IsOwn c (suc num) (pk ∷ pks) = (refl, accounts_of_keys-IsOwn c num pks)

pub create_accounts-IsOwn :
    (c : Crypto) (keys : List (Outcome ℕ)) (accounts : List Account)
    → create_accounts c keys ≡ ok accounts
    → All (IsOwn c) accounts
unfolding create_accounts account_from_private_key
create_accounts-IsOwn c [] [] h = tt
create_accounts-IsOwn c [] (a ∷ accounts) h = cc h
create_accounts-IsOwn c (ok pk ∷ keys) accounts h = elim (Outcome-cases (create_accounts c keys)) [
  | inl (rest, e) ↦
      let same : account_from_private_key c pk ∷ rest ≡ accounts = ground (arith, h, e) in
      subst (All (IsOwn c)) same (refl, create_accounts-IsOwn c keys rest e)
  | inr (inl (x, e)) ↦ absurd (ground (arith, h, e))
  | inr (inr (p, e)) ↦ absurd (ground (arith, h, e))
]
create_accounts-IsOwn c (err e ∷ keys) accounts h = cc h
create_accounts-IsOwn c (panic p ∷ keys) accounts h = cc h
