-- ===== src/Prelude/Perms.antt =====
-- A predicate that holds of every value of a list holds of every value of a permutation of it.
use mathlib.Core.Path.{subst}
use mathlib.Core.Bool.{Bool, not}
use mathlib.Core.List.{
  List, [], ◌∷◌, ◌++◌, Perm, Permᴰ, Mem, mem-cons_self, mem-cons_of_mem, perm_middle,
}
use mathlib.Core.List.Perm
use mathlib.Core.HLevel.{×_prop, Unit-prop}
use mathlib.Core.Logic.{inl, inr, ∥∥₁_elim}
use tacktcix.Prelude.Tests.{Bool-cases}
use tacktcix.Prelude.Lists.{All, All-map_weaken, filter_by}

module _ {ℓ κ} {A : Type ℓ} (P : A → Type κ) where
  All-permᴰ : {xs ys : List A} → Permᴰ xs ys → All P xs → All P ys
  All-permᴰ Permᴰ.nil h = tt
  All-permᴰ (Permᴰ.cons e p) h = (subst P e h.0, All-permᴰ p h.1)
  All-permᴰ (Permᴰ.swap e k) h = (subst P k h.1.0, (subst P e h.0, h.1.1))
  All-permᴰ (Permᴰ.trans p q) h = All-permᴰ q (All-permᴰ p h)

  All-prop : ((a : A) → IsProp (P a)) → (xs : List A) → IsProp (All P xs)
  All-prop prop [] = Unit-prop
  All-prop prop (x ∷ xs) = ×_prop (prop x) (All-prop prop xs)

  pub All-perm : ((a : A) → IsProp (P a)) → (xs ys : List A) → Perm xs ys → All P xs → All P ys
  All-perm prop xs ys p h = ∥∥₁_elim p (All-prop prop ys) (λ q. All-permᴰ q h)

-- Every value of a list is a member of it.
pub All-Mem {ℓ} : {A : Type ℓ} (xs : List A) → All (λ a. Mem a xs) xs
All-Mem [] = tt
All-Mem (x ∷ xs) =
    (mem-cons_self, All-map_weaken (λ a. Mem a xs) _ xs (λ a m. mem-cons_of_mem x m) (All-Mem xs))

-- The values that pass a test, and then the others.
pub filter_by-split :
    {A : Type 0} (p : A → Bool) (xs : List A)
    → Perm (filter_by p xs ++ filter_by (λ x. not (p x)) xs) xs
filter_by-split p [] = Perm.rfl
filter_by-split p (x ∷ xs) = elim (Bool-cases (p x)) [
  | inl e ↦ rw e (Perm.cons x (filter_by-split p xs))
  | inr e ↦ rw e (
      Perm.trans (perm_middle {a = x} (filter_by p xs) (filter_by (λ y. not (p y)) xs))
        (Perm.cons x (filter_by-split p xs)))
]
