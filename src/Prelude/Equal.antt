-- ===== src/Prelude/Equal.antt =====
-- Go's `==` on the key types of its maps, as an interface with instances.
use Prim.Native.Nat.{ℕ}
use Prim.Native.String.{String}
use mathlib.Core.Path.{◌≡◌, refl}
use mathlib.Core.Logic.{◌↔◌}
use mathlib.Core.Bool.{Bool, true}
use text.Mathlib.Text.{◌==◌ as str_eq}
use text.Mathlib.TextEquality.{eq_iff}
use shutter_tests.Prelude.Tests.{nat_beq, nat_beq_iff}
use shutter_tests.Prelude.Int.{ℤ, int_beq, int_beq_iff}

-- The test of a key type, and that it decides equality.
pub record KeyType {ℓ} (Key : Type ℓ) : Type ℓ where
  pub is_same : Key → Key → Bool
  pub same_iff : (x y : Key) → (is_same x y ≡ true) ↔ (x ≡ y)

abbrev pub ◌==◌ {ℓ} : {Key : Type ℓ} ⦃key_type : KeyType Key⦄ → Key → Key → Bool
◌==◌ ⦃key_type⦄ = key_type.is_same

infix 50 ◌==◌
instance abbrev pub string_eq : KeyType String
string_eq = record { is_same = str_eq; same_iff = eq_iff }

instance abbrev pub int_eq : KeyType ℤ
int_eq = record { is_same = int_beq; same_iff = int_beq_iff }

instance abbrev pub nat_eq : KeyType ℕ
nat_eq = record { is_same = nat_beq; same_iff = nat_beq_iff }

module _ {ℓ} {Key : Type ℓ} ⦃key_type : KeyType Key⦄ where
  pub ==→≡ : (x y : Key) → (x == y) ≡ true → x ≡ y
  ==→≡ x y t = (key_type.same_iff x y).0 t

  pub ==_refl : (x : Key) → (x == x) ≡ true
  ==_refl x = (key_type.same_iff x x).1 refl
