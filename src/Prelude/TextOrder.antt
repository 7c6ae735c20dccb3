-- ===== src/Prelude/TextOrder.antt =====
-- The order of texts, by the numbers of their characters.
use Prim.Native.Nat.{ℕ, Ordering, compare as compare_ℕ}
use Prim.Native.Char.{code}
use Prim.Native.String.compare
use Prim.Native.String.{String, compare, then as or_else}
use mathlib.Core.Path.{◌≡◌, refl, sym, ◌∙◌}
use mathlib.Core.Bool.{Bool, true, false}
use mathlib.Core.Logic.{inl, inr, ◌⊎◌}
use native.Mathlib.Omega.{arith}
use text.Mathlib.TextEquality.{path_by_compare}
use text.Mathlib.TextPositions.{compare_refl}
use tacktcix.Prelude.SortedSet.{Comparison}

then-lt :
    (m n : ℕ) (r : Ordering)
    → or_else (compare_ℕ m n) r ≡ Ordering.lt
    → (compare_ℕ m n ≡ Ordering.lt) ⊎ ((m ≡ n) × (r ≡ Ordering.lt))
then-lt m n r h = ground arith

then-gt :
    (m n : ℕ) (r : Ordering)
    → or_else (compare_ℕ m n) r ≡ Ordering.gt
    → (compare_ℕ n m ≡ Ordering.lt) ⊎ ((m ≡ n) × (r ≡ Ordering.gt))
then-gt m n r h = ground arith

before :
    (m n : ℕ) (r : Ordering) → compare_ℕ m n ≡ Ordering.lt → or_else (compare_ℕ m n) r ≡ Ordering.lt
before m n r h = rw h refl

level : (m n : ℕ) (r : Ordering) → m ≡ n → r ≡ Ordering.lt → or_else (compare_ℕ m n) r ≡ Ordering.lt
level m n r h k = ground arith

flip_text : (s t : String) → compare s t ≡ Ordering.gt → compare t s ≡ Ordering.lt
flip_text String.[] String.[] h = cc
flip_text String.[] (String.◌∷◌ d t) h = cc (compare.nil-cons d t)
flip_text (String.◌∷◌ c s) String.[] h = compare.nil-cons c s
flip_text (String.◌∷◌ c s) (String.◌∷◌ d t) h =
    compare.cons-cons d c t s
    ∙ (elim (then-gt (code c) (code d) (compare s t) (sym (compare.cons-cons c d s t) ∙ h)) [
      | inl p ↦ before (code d) (code c) (compare t s) p
      | inr (m, p) ↦ level (code d) (code c) (compare t s) (sym m) (flip_text s t p)
    ])

trans_text :
    (s t u : String)
    → compare s t ≡ Ordering.lt
    → compare t u ≡ Ordering.lt
    → compare s u ≡ Ordering.lt
trans_text String.[] String.[] u h k = k
trans_text String.[] (String.◌∷◌ d t) String.[] h k = cc (compare.cons-nil d t)
trans_text String.[] (String.◌∷◌ d t) (String.◌∷◌ c u) h k = compare.nil-cons c u
trans_text (String.◌∷◌ c s) String.[] u h k = cc (compare.cons-nil c s)
trans_text (String.◌∷◌ c s) (String.◌∷◌ d t) String.[] h k = cc (compare.cons-nil d t)
trans_text (String.◌∷◌ c s) (String.◌∷◌ d t) (String.◌∷◌ b u) h k =
    compare.cons-cons c b s u
    ∙ (elim (then-lt (code c) (code d) (compare s t) (sym (compare.cons-cons c d s t) ∙ h)) [
      | inl p ↦
          elim (then-lt (code d) (code b) (compare t u) (sym (compare.cons-cons d b t u) ∙ k)) [
            | inl q ↦ before (code c) (code b) (compare s u) (ground arith)
            | inr (n, q) ↦ before (code c) (code b) (compare s u) (ground arith)
          ]
      | inr (m, p) ↦
          elim (then-lt (code d) (code b) (compare t u) (sym (compare.cons-cons d b t u) ∙ k)) [
            | inl q ↦ before (code c) (code b) (compare s u) (ground arith)
            | inr (n, q) ↦ level (code c) (code b) (compare s u) (m ∙ n) (trans_text s t u p q)
          ]
    ])

pub text_order : Comparison compare
text_order = record {
  same = path_by_compare;
  self = compare_refl;
  flip = flip_text;
  trans = trans_text;
}

-- `s <= t`
abbrev pub leb_text : String → String → Bool
leb_text s t = elim (compare s t) [ Ordering.lt ↦ true | Ordering.eq ↦ true | Ordering.gt ↦ false ]
