-- ===== src/Prelude/Perms.antt =====
-- Rearrangements of a list: splitting by two decisions, and lengths.
use mathlib.Core.Logic.{if_pos, if_neg, ∥∥₁_elim}
use mathlib.Core.List.{Perm, Permᴰ, filter, perm_middle}
use mathlib.Core.List.Perm
use mathlib.Core.Path.{◌≡◌, refl, ap, ◌∙◌}
use mathlib.Core.List.{List, [], ◌∷◌, ◌++◌}
use native.Mathlib.Nat.{ℕ_set}
use Prim.Native.Nat.{suc}
use shutter_tests.Prelude.Lists.{length}

module _ {ℓ κ} {A : Type ℓ} {P : A → Type κ} (d : (a : A) → Dec (P a))
    (d' : (a : A) → Dec (¬ P a)) where
  -- Two decisions that exclude one another split a list in two.
  pub filter-split-perm : (xs : List A) → Perm (filter d' xs ++ filter d xs) xs
  filter-split-perm [] = Perm.nil
  filter-split-perm (x ∷ xs) = elim (d x) [
    | yes h ↦
        rw (if_pos (d x) h, if_neg (d' x) (λ n. n h))
          (Perm.trans (perm_middle (filter d' xs) (filter d xs))
            (Perm.cons x (filter-split-perm xs)))
    | no n ↦ rw (if_neg (d x) n, if_pos (d' x) n) (Perm.cons x (filter-split-perm xs))
  ]

module _ {ℓ} {A : Type ℓ} where
  length-permᴰ : {xs ys : List A} → Permᴰ xs ys → length xs ≡ length ys
  length-permᴰ Permᴰ.nil = refl
  length-permᴰ (Permᴰ.cons e p) = ap suc (length-permᴰ p)
  length-permᴰ (Permᴰ.swap e e') = refl
  length-permᴰ (Permᴰ.trans p q) = length-permᴰ p ∙ length-permᴰ q

  pub length-perm : {xs ys : List A} → Perm xs ys → length xs ≡ length ys
  length-perm p = ∥∥₁_elim p (ℕ_set _ _) length-permᴰ
