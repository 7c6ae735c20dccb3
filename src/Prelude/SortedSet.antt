-- ===== src/Prelude/SortedSet.antt =====
-- Python's `sorted(set(xs))`: ascending, each value once. It depends only on which values there are.
use Prim.Native.Nat.{Ordering}
use mathlib.Core.Path.{◌≡◌, refl, sym, ◌∙◌, ap, subst}
use mathlib.Core.Logic.{inl, inr, ◌⊎◌}
use mathlib.Core.Bool.{true, false}
use mathlib.Core.List.{List, [], ◌∷◌}
use native.Mathlib.Omega.{arith}
use tacktcix.Prelude.Tests.{if◌then◌else◌, Bool-cases, true_not_false}
use tacktcix.Prelude.Lists.{All, All-map_weaken}
use tacktcix.Prelude.Classes.{Eq, ◌==◌, contains, eq_refl, string_eq}

-- A total order by a comparison with three answers.
pub record Comparison {ℓ} {A : Type ℓ} (cmp : A → A → Ordering) : Type ℓ where
  pub same : (a b : A) → cmp a b ≡ Ordering.eq → a ≡ b
  pub self : (a : A) → cmp a a ≡ Ordering.eq
  pub flip : (a b : A) → cmp a b ≡ Ordering.gt → cmp b a ≡ Ordering.lt
  pub trans : (a b c : A) → cmp a b ≡ Ordering.lt → cmp b c ≡ Ordering.lt → cmp a c ≡ Ordering.lt

Ordering-cases : (o : Ordering) → (o ≡ Ordering.lt) ⊎ (o ≡ Ordering.eq) ⊎ (o ≡ Ordering.gt)
Ordering-cases Ordering.lt = inl refl
Ordering-cases Ordering.eq = inr (inl refl)
Ordering-cases Ordering.gt = inr (inr refl)

module _ {ℓ} {A : Type ℓ} (cmp : A → A → Ordering) where
  unfoldable pub insert_once : A → List A → List A
  insert_once x [] = x ∷ []
  insert_once x (y ∷ ys) =
      let rest = insert_once x ys in
      elim (cmp x y) [ Ordering.lt ↦ x ∷ y ∷ ys | Ordering.eq ↦ y ∷ ys | Ordering.gt ↦ y ∷ rest ]

  unfoldable pub sorted_set : List A → List A
  unfolding insert_once
  sorted_set [] = []
  sorted_set (x ∷ xs) = insert_once x (sorted_set xs)

  abbrev pub IsAscending : List A → Type 0
  IsAscending [] = Unit
  IsAscending (x ∷ xs) = All (λ y. cmp x y ≡ Ordering.lt) xs × IsAscending xs

module _ {ℓ} {A : Type ℓ} ⦃e : Eq A⦄ (cmp : A → A → Ordering) (o : Comparison cmp) where
  contains-insert_once :
      (a x : A) (ys : List A)
      → contains a (insert_once cmp x ys) ≡ (if a == x then true else contains a ys)
  unfolding insert_once
  contains-insert_once a x [] = refl
  contains-insert_once a x (y ∷ ys) = elim (Ordering-cases (cmp x y)) [
    | inl p ↦ rw (p, insert_once) refl
    | inr (inl p) ↦ rw (p, insert_once) (ground (arith, e.beq_iff a x, e.beq_iff a y, o.same x y p))
    | inr (inr p) ↦ rw (p, insert_once) (ground (arith, contains-insert_once a x ys))
  ]

  pub contains-sorted_set : (a : A) (xs : List A) → contains a (sorted_set cmp xs) ≡ contains a xs
  unfolding sorted_set
  contains-sorted_set a [] = refl
  contains-sorted_set a (x ∷ xs) =
      contains-insert_once a x (sorted_set cmp xs)
      ∙ ap (λ b. if a == x then true else b) (contains-sorted_set a xs)

  insert_once-All {κ} :
      (P : A → Type κ) (x : A) (ys : List A) → P x → All P ys → All P (insert_once cmp x ys)
  unfolding insert_once
  insert_once-All P x [] hx h = (hx, tt)
  insert_once-All P x (y ∷ ys) hx h = elim (Ordering-cases (cmp x y)) [
    | inl p ↦ rw (p, insert_once) (hx, h)
    | inr (inl p) ↦ rw (p, insert_once) h
    | inr (inr p) ↦ rw (p, insert_once) (h.0, insert_once-All P x ys hx h.1)
  ]

  insert_once-IsAscending :
      (x : A) (ys : List A) → IsAscending cmp ys → IsAscending cmp (insert_once cmp x ys)
  unfolding insert_once
  insert_once-IsAscending x [] h = (tt, tt)
  insert_once-IsAscending x (y ∷ ys) h = elim (Ordering-cases (cmp x y)) [
    | inl p ↦ rw (p, insert_once) ((p, All-map_weaken _ _ ys (λ z. o.trans x y z p) h.0), h)
    | inr (inl p) ↦ rw (p, insert_once) h
    | inr (inr p) ↦
        rw (p, insert_once)
          (
            insert_once-All (λ z. cmp y z ≡ Ordering.lt) x ys (o.flip x y p) h.0,
            insert_once-IsAscending x ys h.1,
          )
  ]

  pub sorted_set-IsAscending : (xs : List A) → IsAscending cmp (sorted_set cmp xs)
  unfolding sorted_set
  sorted_set-IsAscending [] = tt
  sorted_set-IsAscending (x ∷ xs) =
      insert_once-IsAscending x (sorted_set cmp xs) (sorted_set-IsAscending xs)

  -- What is before every value of a list is not in the list.
  not_among : (a : A) (ys : List A) → All (λ y. cmp a y ≡ Ordering.lt) ys → contains a ys ≡ false
  not_among a [] h = refl
  not_among a (y ∷ ys) h = elim (Bool-cases (a == y)) [
    | inl p ↦
        let loop : cmp a a ≡ Ordering.lt =
          subst (λ z. cmp a z ≡ Ordering.lt) (sym ((e.beq_iff a y).0 p)) h.0 in
        let self : cmp a a ≡ Ordering.eq = o.self a in cc
    | inr p ↦ rw p (not_among a ys h.1)
  ]

  head_among : (x : A) (xs : List A) → contains x (x ∷ xs) ≡ true
  head_among x xs = rw (eq_refl x) refl

  -- A list that starts before an ascending list has a value that the other has not.
  starts_before :
      (x y : A) (xs ys : List A)
      → cmp x y ≡ Ordering.lt
      → IsAscending cmp (y ∷ ys)
      → contains x (x ∷ xs) ≡ contains x (y ∷ ys)
      → ⊥
  starts_before x y xs ys p h same =
      true_not_false (sym same ∙ head_among x xs)
        (not_among x (y ∷ ys) (p, All-map_weaken _ _ ys (λ z. o.trans x y z p) h.0))

  tails_agree :
      (x a : A) (xs ys : List A)
      → All (λ z. cmp x z ≡ Ordering.lt) xs
      → All (λ z. cmp x z ≡ Ordering.lt) ys
      → contains a (x ∷ xs) ≡ contains a (x ∷ ys)
      → contains a xs ≡ contains a ys
  tails_agree x a xs ys hx hy same = elim (Bool-cases (a == x)) [
    | inr q ↦ rw q at same
    | inl q ↦
        let equal = (e.beq_iff a x).0 q in
        subst (λ z. contains z xs ≡ false) (sym equal) (not_among x xs hx)
        ∙ sym (subst (λ z. contains z ys ≡ false) (sym equal) (not_among x ys hy))
  ]

  pub ascending_unique :
      (xs ys : List A)
      → IsAscending cmp xs
      → IsAscending cmp ys
      → ((a : A) → contains a xs ≡ contains a ys)
      → xs ≡ ys
  ascending_unique [] [] hx hy same = refl
  ascending_unique [] (y ∷ ys) hx hy same = absurd (true_not_false (head_among y ys) (sym (same y)))
  ascending_unique (x ∷ xs) [] hx hy same = absurd (true_not_false (head_among x xs) (same x))
  ascending_unique (x ∷ xs) (y ∷ ys) hx hy same = elim (Ordering-cases (cmp x y)) [
    | inl p ↦ absurd (starts_before x y xs ys p hy (same x))
    | inr (inr p) ↦ absurd (starts_before y x ys xs (o.flip x y p) hx (sym (same y)))
    | inr (inl p) ↦
        let equal = o.same x y p in
        let hy' : IsAscending cmp (x ∷ ys) = subst (λ z. IsAscending cmp (z ∷ ys)) (sym equal) hy in
        let same' : (a : A) → contains a (x ∷ xs) ≡ contains a (x ∷ ys) =
          subst (λ z. (a : A) → contains a (x ∷ xs) ≡ contains a (z ∷ ys)) (sym equal) same in
        let rest =
          ascending_unique xs ys hx.1 hy.1 (λ a. tails_agree x a xs ys hx.0 hy'.0 (same' a)) in
        cc
  ]

  -- Lists with the same values have the same sorted set.
  pub sorted_set_unique :
      (xs ys : List A)
      → ((a : A) → contains a xs ≡ contains a ys)
      → sorted_set cmp xs ≡ sorted_set cmp ys
  sorted_set_unique xs ys same =
      ascending_unique _ _ (sorted_set-IsAscending xs) (sorted_set-IsAscending ys)
        (λ a. contains-sorted_set a xs ∙ same a ∙ sym (contains-sorted_set a ys))
