-- ===== src/Prelude/Outcomes.antt =====
-- How a Go call ends: with its value, with an `error`, or with a panic that ends the process.
use Prim.Native.String.{String}
use mathlib.Core.Path.{◌≡◌, refl}
use mathlib.Core.Logic.{◌⊎◌, inl, inr}

pub data Panic : Type 0 where
  nil_dereference index_out_of_range integer_divide_by_zero non_positive_ticker : Panic
  explicit : String → Panic
  fatal : String → Panic

pub data Outcome {ℓ} (A : Type ℓ) : Type ℓ where
  ok : A → Outcome A
  err : String → Outcome A
  panic : Panic → Outcome A

infixl 5 ◌>>=◌ ◌>>◌
abbrev pub ◌>>=◌ {ℓ κ} : {A : Type ℓ} {B : Type κ} → Outcome A → (A → Outcome B) → Outcome B
ok a >>= f = f a
err e >>= f = err e
panic p >>= f = panic p

abbrev pub ◌>>◌ {ℓ} : {B : Type ℓ} → Outcome (Unit {0}) → Outcome B → Outcome B
m >> k = m >>= λ _. k

-- `if err != nil { return fmt.Errorf(…) }`: the error is replaced, and a panic is not caught.
abbrev pub or_error {ℓ} : {A : Type ℓ} → Outcome A → String → Outcome A
or_error (ok a) e = ok a
or_error (err _) e = err e
or_error (panic p) e = panic p

-- A call whose chain succeeds has itself succeeded.
pub >>=-eq-ok {ℓ κ} :
    {A : Type ℓ} {B : Type κ} (call : Outcome A) (rest : A → Outcome B) {result : B}
    → (call >>= rest) ≡ ok result
    → (value : A) × (call ≡ ok value) × (rest value ≡ ok result)
>>=-eq-ok (panic p) rest chain = cc
>>=-eq-ok (err e) rest chain = cc
>>=-eq-ok (ok value) rest chain = (value, refl, chain)

-- A chain that panics has panicked in its call or behind it.
pub >>=-eq-panic {ℓ κ} :
    {A : Type ℓ} {B : Type κ} (call : Outcome A) (rest : A → Outcome B) {p : Panic}
    → (call >>= rest) ≡ panic p
    → (call ≡ panic p) ⊎ ((value : A) × (call ≡ ok value) × (rest value ≡ panic p))
>>=-eq-panic (panic q) rest chain = inl (cc chain)
>>=-eq-panic (err e) rest chain = cc
>>=-eq-panic (ok value) rest chain = inr (value, refl, chain)

pub Outcome-cases {ℓ} :
    {A : Type ℓ} (m : Outcome A)
    → ((a : A) × (m ≡ ok a)) ⊎ (((e : String) × (m ≡ err e)) ⊎ ((p : Panic) × (m ≡ panic p)))
Outcome-cases (ok a) = inl (a, refl)
Outcome-cases (err e) = inr (inl (e, refl))
Outcome-cases (panic p) = inr (inr (p, refl))

pub ok_injective {ℓ} : {A : Type ℓ} {a b : A} → ok a ≡ ok b → a ≡ b
ok_injective h = cc h

pub or_error-eq-ok {ℓ} :
    {A : Type ℓ} (o : Outcome A) (e : String) {a : A} → or_error o e ≡ ok a → o ≡ ok a
or_error-eq-ok (ok a) e h = h
or_error-eq-ok (err x) e h = cc h
or_error-eq-ok (panic p) e h = cc h
