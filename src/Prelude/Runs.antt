-- ===== src/Prelude/Runs.antt =====
-- Calls that change a state and may fail: the state is kept where they fail.
use mathlib.Core.Path.{◌≡◌, refl, ap}
use shutter_tests.Prelude.Outcomes.{Outcome, ok, err, panic, ok_injective}

abbrev pub Run {ℓ} : Type 0 → Type ℓ → Type ℓ
Run S A = S → Outcome A × S

abbrev pub go_on_with {ℓ κ} :
    {S : Type 0} {A : Type ℓ} {B : Type κ} → Outcome A × S → (A → Run S B) → Outcome B × S
go_on_with (ok a, m) f = f a m
go_on_with (err e, m) f = (err e, m)
go_on_with (panic p, m) f = (panic p, m)

infixl 5 ◌>>=◌
abbrev pub ◌>>=◌ {ℓ κ} : {S : Type 0} {A : Type ℓ} {B : Type κ} → Run S A → (A → Run S B) → Run S B
◌>>=◌ run f m = go_on_with (run m) f

-- A call that changes nothing.
abbrev pub ask {ℓ} : {S : Type 0} {A : Type ℓ} → Outcome A → Run S A
ask o m = (o, m)

-- Where a chain succeeds, its first part has succeeded.
pub >>=-eq-ok {ℓ κ} :
    {S : Type 0} {A : Type ℓ} {B : Type κ} (run : Run S A) (f : A → Run S B) (m m' : S) {b : B}
    → (run >>= f) m ≡ (ok b, m')
    → (a : A) × (between : S) × (run m ≡ (ok a, between)) × (f a between ≡ (ok b, m'))
>>=-eq-ok {S = S} {A} {B} run f m m' {b} h = by_result (run m) refl h
  where
    by_result :
        (r : Outcome A × S)
        → run m ≡ r
        → go_on_with r f ≡ (ok b, m')
        → (a : A) × (between : S) × (run m ≡ (ok a, between)) × (f a between ≡ (ok b, m'))
    by_result (ok a, between) e h = (a, between, e, h)
    by_result (err x, between) e h = cc
    by_result (panic p, between) e h = cc

pub ask-eq-ok {ℓ κ} :
    {S : Type 0} {A : Type ℓ} {B : Type κ} (o : Outcome A) (f : A → Run S B) (m m' : S) {b : B}
    → (ask o >>= f) m ≡ (ok b, m')
    → (a : A) × (o ≡ ok a) × (f a m ≡ (ok b, m'))
ask-eq-ok (ok a) f m m' h = (a, refl, h)
ask-eq-ok (err e) f m m' h = cc
ask-eq-ok (panic p) f m m' h = cc

-- A part that succeeds hands its value and its state to the rest.
pub go_on_with_ok {ℓ κ} :
    {S : Type 0} {A : Type ℓ} {B : Type κ} (r : Outcome A × S) (f : A → Run S B) (a : A)
    → r.0 ≡ ok a
    → go_on_with r f ≡ f a r.1
go_on_with_ok (ok b, m) f a h = ap (λ x. f x m) (ok_injective h)
go_on_with_ok (err e, m) f a h = cc h
go_on_with_ok (panic p, m) f a h = cc h
