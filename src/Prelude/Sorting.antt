-- ===== src/Prelude/Sorting.antt =====
-- Python's `sorted(xs, key=...)`: a stable insertion sort by a Boolean order.
use mathlib.Core.Path.{◌≡◌, refl, ap, ◌∙◌, subst, sym}
use Prim.Native.Nat.{suc}
use mathlib.Core.Bool.{Bool, true, false}
use mathlib.Core.List.{List, [], ◌∷◌, ◌++◌, Perm}
use mathlib.Core.List.Perm
use tacktcix.Prelude.Tests.{if◌then◌else◌, Bool-cases}
use tacktcix.Prelude.Lists.{length, All, All-map_weaken, All-append_split}
use mathlib.Core.Logic.{inl, inr}

-- An order to sort by: total and transitive. Equal keys need not be equal values.
pub record Preorder {ℓ} {A : Type ℓ} (le : A → A → Bool) : Type ℓ where
  pub total : (a b : A) → le a b ≡ false → le b a ≡ true
  pub trans : (a b c : A) → le a b ≡ true → le b c ≡ true → le a c ≡ true

module _ {ℓ} {A : Type ℓ} (le : A → A → Bool) where
  -- `x` goes before the first value that is not smaller, so equal keys keep their order.
  unfoldable pub insert_sorted : A → List A → List A
  insert_sorted x [] = x ∷ []
  insert_sorted x (y ∷ ys) = if le x y then x ∷ y ∷ ys else y ∷ insert_sorted x ys

  unfoldable pub sort : List A → List A
  unfolding insert_sorted
  sort [] = []
  sort (x ∷ xs) = insert_sorted x (sort xs)

  abbrev pub IsSorted : List A → Type 0
  IsSorted [] = Unit
  IsSorted (x ∷ xs) = All (λ y. le x y ≡ true) xs × IsSorted xs

  insert_sorted-perm : (x : A) (xs : List A) → Perm (insert_sorted x xs) (x ∷ xs)
  unfolding insert_sorted
  insert_sorted-perm x [] = Perm.rfl
  insert_sorted-perm x (y ∷ ys) = elim (Bool-cases (le x y)) [
    | inl p ↦ rw p Perm.rfl
    | inr p ↦ rw p (Perm.trans (Perm.cons y (insert_sorted-perm x ys)) (Perm.swap x y ys))
  ]

  pub sort-perm : (xs : List A) → Perm (sort xs) xs
  unfolding sort
  sort-perm [] = Perm.rfl
  sort-perm (x ∷ xs) = Perm.trans (insert_sorted-perm x (sort xs)) (Perm.cons x (sort-perm xs))

  length-insert_sorted : (x : A) (xs : List A) → length (insert_sorted x xs) ≡ suc (length xs)
  unfolding insert_sorted
  length-insert_sorted x [] = refl
  length-insert_sorted x (y ∷ ys) = elim (Bool-cases (le x y)) [
    | inl p ↦ rw p refl
    | inr p ↦ rw p (ap suc (length-insert_sorted x ys))
  ]

  pub length-sort : (xs : List A) → length (sort xs) ≡ length xs
  unfolding sort
  length-sort [] = refl
  length-sort (x ∷ xs) = length-insert_sorted x (sort xs) ∙ ap suc (length-sort xs)

  insert_sorted-All {κ} :
      (P : A → Type κ) (x : A) (xs : List A) → P x → All P xs → All P (insert_sorted x xs)
  unfolding insert_sorted
  insert_sorted-All P x [] hx h = (hx, tt)
  insert_sorted-All P x (y ∷ ys) hx h = elim (Bool-cases (le x y)) [
    | inl p ↦ rw p (hx, h)
    | inr p ↦ rw p (h.0, insert_sorted-All P x ys hx h.1)
  ]

  pub sort-All {κ} : (P : A → Type κ) (xs : List A) → All P xs → All P (sort xs)
  unfolding sort
  sort-All P [] h = tt
  sort-All P (x ∷ xs) h = insert_sorted-All P x (sort xs) h.0 (sort-All P xs h.1)

  All-insert_sorted {κ} :
      (P : A → Type κ) (x : A) (xs : List A) → All P (insert_sorted x xs) → P x × All P xs
  unfolding insert_sorted
  All-insert_sorted P x [] h = h
  All-insert_sorted P x (y ∷ ys) h = elim (Bool-cases (le x y)) [
    | inl p ↦ rw p at h
    | inr p ↦
        let k : P y × All P (insert_sorted x ys) = rw p at h in
        let (hx, hs) = All-insert_sorted P x ys k.1 in (hx, (k.0, hs))
  ]

  -- What holds of every sorted value holds of every value.
  pub All-sort {κ} : (P : A → Type κ) (xs : List A) → All P (sort xs) → All P xs
  unfolding sort
  All-sort P [] h = tt
  All-sort P (x ∷ xs) h = let (hx, hs) = All-insert_sorted P x (sort xs) h in (hx, All-sort P xs hs)

  -- What comes first in a sorted list is sorted, and comes before the rest.
  pub IsSorted-append :
      (xs ys : List A)
      → IsSorted (xs ++ ys)
      → IsSorted xs × All (λ x. All (λ y. le x y ≡ true) ys) xs
  IsSorted-append [] ys h = (tt, tt)
  IsSorted-append (x ∷ xs) ys h =
      let (before_xs, before_ys) = All-append_split _ xs ys h.0 in
      let (sorted, before) = IsSorted-append xs ys h.1 in ((before_xs, sorted), (before_ys, before))

module _ {ℓ} {A : Type ℓ} (le : A → A → Bool) (o : Preorder le) where
  pub le_refl : (a : A) → le a a ≡ true
  le_refl a = elim (Bool-cases (le a a)) [ inl p ↦ p | inr p ↦ o.total a a p ]

  insert_sorted-IsSorted :
      (x : A) (xs : List A) → IsSorted le xs → IsSorted le (insert_sorted le x xs)
  unfolding insert_sorted
  insert_sorted-IsSorted x [] h = (tt, tt)
  insert_sorted-IsSorted x (y ∷ ys) h = elim (Bool-cases (le x y)) [
    | inl p ↦ rw p ((p, All-map_weaken _ _ ys (λ z. o.trans x y z p) h.0), h)
    | inr p ↦ rw p (
      insert_sorted-All le (λ z. le y z ≡ true) x ys (o.total x y p) h.0,
      insert_sorted-IsSorted x ys h.1,
    )
  ]

  pub sort-IsSorted : (xs : List A) → IsSorted le (sort le xs)
  unfolding sort
  sort-IsSorted [] = tt
  sort-IsSorted (x ∷ xs) = insert_sorted-IsSorted x (sort le xs) (sort-IsSorted xs)

  -- The first of the sorted values comes before all of them.
  pub head-sort :
      (xs : List A) {b : A} {rest : List A} → sort le xs ≡ b ∷ rest → All (λ x. le b x ≡ true) xs
  head-sort xs {b} {rest} e =
      let s : IsSorted le (b ∷ rest) = subst (IsSorted le) e (sort-IsSorted xs) in
      All-sort le (λ x. le b x ≡ true) xs
        (subst (All (λ x. le b x ≡ true)) (sym e) (le_refl b, s.0))
