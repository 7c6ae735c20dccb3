-- ===== src/Prelude/FloatLaws.antt =====
-- The laws of floating-point arithmetic that proofs use, apart from the operations themselves.
use Prim.Native.Nat.{ℕ, suc}
use mathlib.Core.Path.{◌≡◌}
use mathlib.Core.Bool.{true, false}
use mathlib.Core.Logic.{inl, inr}
use tacktcix.Prelude.Float.{Float}
use tacktcix.Prelude.Int.{ℤ, pos, ◌≤ℤ◌}
use tacktcix.Prelude.Tests.{Bool-cases}

-- Facts of IEEE 754 arithmetic, rounding included, for values without NaN: the order is total and
-- transitive, rounding is monotone, 0 and 1 are exact, and 0.6 + 0.25 + 0.15 is at most 1.
pub record FloatLaws (f : Float) : Type 0 where
  pub total : (a b : f.F) → f.le a b ≡ false → f.le b a ≡ true
  pub trans : (a b c : f.F) → f.le a b ≡ true → f.le b c ≡ true → f.le a c ≡ true
  pub lit_nonneg : (n p : ℕ) → f.le (f.lit 0 0) (f.lit n p) ≡ true
  pub lit_pos : (n : ℕ) → f.le (f.lit (suc n) 0) (f.lit 0 0) ≡ false
  pub lit_le_one : f.le (f.lit 8 1) (f.lit 1 0) ≡ true
  pub lit_le_one' : f.le (f.lit 3 1) (f.lit 1 0) ≡ true
  pub of_int_nonneg : (z : ℤ) → pos 0 ≤ℤ z → f.le (f.lit 0 0) (f.of_int z) ≡ true
  pub of_int_pos : (z : ℤ) → pos 1 ≤ℤ z → f.le (f.of_int z) (f.lit 0 0) ≡ false
  pub sqrt_nonneg : (a : f.F) → f.le (f.lit 0 0) a ≡ true → f.le (f.lit 0 0) (f.sqrt a) ≡ true
  pub add_mono :
      (a b c d : f.F) → f.le a b ≡ true → f.le c d ≡ true → f.le (f.add a c) (f.add b d) ≡ true
  pub add_zero : f.add (f.lit 0 0) (f.lit 0 0) ≡ f.lit 0 0
  pub mul_mono :
      (w a b : f.F)
      → f.le (f.lit 0 0) w ≡ true
      → f.le a b ≡ true
      → f.le (f.mul w a) (f.mul w b) ≡ true
  pub mul_zero : (w : f.F) → f.mul w (f.lit 0 0) ≡ f.lit 0 0
  pub mul_one : (w : f.F) → f.mul w (f.lit 1 0) ≡ w
  pub sub_anti : (a b c : f.F) → f.le a b ≡ true → f.le (f.sub c b) (f.sub c a) ≡ true
  pub sub_zero : f.sub (f.lit 1 0) (f.lit 0 0) ≡ f.lit 1 0
  pub sub_self : f.sub (f.lit 1 0) (f.lit 1 0) ≡ f.lit 0 0
  pub sub_nonneg : (a b : f.F) → f.le a b ≡ true → f.le (f.lit 0 0) (f.sub b a) ≡ true
  pub sub_le : (a b : f.F) → f.le (f.lit 0 0) b ≡ true → f.le (f.sub a b) a ≡ true
  pub div_nonneg :
      (a b : f.F)
      → f.le (f.lit 0 0) a ≡ true
      → f.le b (f.lit 0 0) ≡ false
      → f.le (f.lit 0 0) (f.div a b) ≡ true
  pub weights_sum : f.le (f.add (f.add (f.lit 60 2) (f.lit 25 2)) (f.lit 15 2)) (f.lit 1 0) ≡ true

abbrev pub NonNeg : (f : Float) → f.F → Type 0
NonNeg f x = f.le (f.lit 0 0) x ≡ true

abbrev pub InUnit : (f : Float) → f.F → Type 0
InUnit f x = NonNeg f x × (f.le x (f.lit 1 0) ≡ true)

module _ {f : Float} (laws : FloatLaws f) where
  open laws use {total, add_mono, add_zero, mul_mono, mul_zero}

  pub float_le_refl : (x : f.F) → f.le x x ≡ true
  float_le_refl x = elim (Bool-cases (f.le x x)) [ inl e ↦ e | inr e ↦ total x x e ]

  pub mul_nonneg : (a b : f.F) → NonNeg f a → NonNeg f b → NonNeg f (f.mul a b)
  mul_nonneg a b ha hb = rw (← mul_zero a) (mul_mono a (f.lit 0 0) b ha hb)

  pub add_nonneg : (a b : f.F) → NonNeg f a → NonNeg f b → NonNeg f (f.add a b)
  add_nonneg a b ha hb = rw (← add_zero) (add_mono (f.lit 0 0) a (f.lit 0 0) b ha hb)
