-- ===== src/Prelude/Maps.antt =====
-- Go's maps as association lists: a later write to a key replaces the earlier one.
use mathlib.Core.Path.{◌≡◌, refl}
use mathlib.Core.List.{List, [], ◌∷◌}
use mathlib.Core.Option.{Option, none, some}
use native.Mathlib.Omega.{arith}
use shutter_tests.Prelude.Tests.{if◌then◌else◌}
use shutter_tests.Prelude.Equal.{KeyType, ◌==◌, ==_refl}

module _ {ℓ κ} {Key : Type ℓ} {Value : Type κ} ⦃key_type : KeyType Key⦄ where
  unfoldable pub lookup : Key → List (Key × Value) → Option Value
  lookup key [] = none
  lookup key ((k, value) ∷ rest) = if k == key then some value else lookup key rest

  unfoldable pub insert : Key → Value → List (Key × Value) → List (Key × Value)
  insert key value [] = (key, value) ∷ []
  insert key value ((k, old) ∷ rest) =
      if k == key then (key, value) ∷ rest else (k, old) ∷ insert key value rest

module _ {ℓ κ} {Key : Type ℓ} {Value : Type κ} ⦃key_type : KeyType Key⦄ where
  -- What a map holds after a write.
  pub lookup-insert :
      (written key : Key) (value : Value) (map : List (Key × Value))
      → lookup key (insert written value map)
        ≡ (if written == key then some value else lookup key map)
  unfolding lookup insert
  lookup-insert written key value [] = refl
  lookup-insert written key value ((k, old) ∷ rest) = ground (
    arith,
    lookup-insert written key value rest,
    key_type.same_iff written key,
    key_type.same_iff k written,
    key_type.same_iff k key,
  )

  pub lookup-insert_self :
      (key : Key) (value : Value) (map : List (Key × Value))
      → lookup key (insert key value map) ≡ some value
  lookup-insert_self key value map = rw (lookup-insert key key value map, ==_refl key)
