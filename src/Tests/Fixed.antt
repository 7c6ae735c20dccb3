-- ===== src/Tests/Fixed.antt =====
-- Fixed-point numbers with four places: a concrete instance of the float operations and their laws.
use tacktcix.Prelude.{ℕ, ◌+◌, ◌-◌, ◌*◌, ◌/◌, ◌^◌, ◌≤◌, ◌≡◌, refl, true, arith, leb, leb→le}
use tacktcix.Prelude.Float.{Float}
use tacktcix.Prelude.FloatLaws.{FloatLaws}
use tacktcix.Prelude.Int.{pos_part}
use tacktcix.Routing.Best.{FloatOrder}
use native.Mathlib.Nat.{mul-le-mul_left}

abbrev pub fixed : Float
fixed = record {
  F = ℕ;
  lit = λ digits places. digits * 10000 / 10 ^ places;
  of_int = λ z. pos_part z * 10000;
  add = λ a b. a + b;
  sub = λ a b. a - b;
  mul = λ a b. a * b / 10000;
  div = λ a b. a * 10000 / b;
  sqrt = λ a. a;
  round4 = λ a. a;
  le = leb;
}

pub fixed_order : FloatOrder fixed
fixed_order = record { total = λ a b h. ground arith; trans = λ a b c h k. ground arith }

mono : (w a b : ℕ) → leb a b ≡ true → leb (w * a / 10000) (w * b / 10000) ≡ true
mono w a b h =
    let product : w * a ≤ w * b = mul-le-mul_left w (leb→le a b h) in
    let divided : w * a / 10000 ≤ w * b / 10000 = omega (arith, product) in ground (arith, divided)

pub fixed_laws : FloatLaws fixed
fixed_laws = record {
  total = λ a b h. ground arith;
  trans = λ a b c h k. ground arith;
  lit_nonneg = λ n p. ground arith;
  lit_pos = λ n. ground arith;
  lit_le_one = refl;
  lit_le_one' = refl;
  of_int_nonneg = λ z h. ground arith;
  of_int_pos = λ z h. ground arith;
  sqrt_nonneg = λ a h. h;
  add_mono = λ a b c d h k. ground arith;
  add_zero = refl;
  mul_mono = λ w a b hw h. mono w a b h;
  mul_zero = λ w. omega arith;
  mul_one = λ w. omega arith;
  sub_anti = λ a b c h. ground arith;
  sub_zero = refl;
  sub_self = refl;
  sub_nonneg = λ a b h. ground arith;
  sub_le = λ a b h. ground arith;
  div_nonneg = λ a b h k. ground arith;
  weights_sum = refl;
}
