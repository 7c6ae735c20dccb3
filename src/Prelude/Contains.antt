-- ===== src/Prelude/Contains.antt =====
-- What `x in xs` says of filtered and of sorted lists.
use mathlib.Core.Path.{◌≡◌, refl, ap, ◌∙◌}
use mathlib.Core.Bool.{Bool, true, ◌&&◌}
use mathlib.Core.List.{List, [], ◌∷◌}
use mathlib.Core.Logic.{inl, inr}
use native.Mathlib.Omega.{arith}
use tacktcix.Prelude.Tests.{if◌then◌else◌, Bool-cases}
use tacktcix.Prelude.Lists.{filter_by}
use tacktcix.Prelude.Classes.{Eq, ◌==◌, contains}
use tacktcix.Prelude.Sorting.{insert_sorted, sort}

module _ {ℓ} {A : Type ℓ} ⦃e : Eq A⦄ where
  contains-insert_sorted :
      (le : A → A → Bool) (a x : A) (xs : List A)
      → contains a (insert_sorted le x xs) ≡ (if a == x then true else contains a xs)
  unfolding insert_sorted
  contains-insert_sorted le a x [] = refl
  contains-insert_sorted le a x (y ∷ ys) = elim (Bool-cases (le x y)) [
    | inl p ↦ rw p refl
    | inr p ↦ rw p (ground (arith, contains-insert_sorted le a x ys))
  ]

  pub contains-sort :
      (le : A → A → Bool) (a : A) (xs : List A) → contains a (sort le xs) ≡ contains a xs
  unfolding sort
  contains-sort le a [] = refl
  contains-sort le a (x ∷ xs) =
      contains-insert_sorted le a x (sort le xs)
      ∙ ap (λ b. if a == x then true else b) (contains-sort le a xs)

  pub contains-filter_by :
      (p : A → Bool) (a : A) (xs : List A) → contains a (filter_by p xs) ≡ (contains a xs && p a)
  contains-filter_by p a [] = refl
  contains-filter_by p a (x ∷ xs) = elim (Bool-cases (p x)) [
    | inl q ↦ rw q (ground (arith, contains-filter_by p a xs, e.beq_iff a x))
    | inr q ↦ rw q (ground (arith, contains-filter_by p a xs, e.beq_iff a x))
  ]
