-- ===== src/Prelude/Float.antt =====
-- Python floats. Their arithmetic is the processor's, so it is a parameter: the operations that the
-- program calls, and apart from them the laws of IEEE 754 (values without NaN) that a proof uses.
use mathlib.Core.Bool.{Bool, false}
use tacktcix.Prelude.Int.{ℤ}
use tacktcix.Prelude.Tests.{if◌then◌else◌}
use Prim.Native.Nat.{ℕ}

pub record Float : Type 1 where
  pub F : Type 0
  -- The literal `digits / 10 ^ places`: `lit 25 2` is 0.25.
  pub lit : (digits places : ℕ) → F
  pub of_int : ℤ → F
  pub add : F → F → F
  pub sub : F → F → F
  pub mul : F → F → F
  pub div : F → F → F
  -- `x ** 0.5`
  pub sqrt : F → F
  -- `round(x, 4)`
  pub round4 : F → F
  pub le : F → F → Bool

module _ (f : Float) where
  -- Python's `max(a, b)` and `min(a, b)`: the first argument unless the second is beyond it.
  abbrev pub max_float : f.F → f.F → f.F
  max_float a b = if f.le b a then a else b

  abbrev pub min_float : f.F → f.F → f.F
  min_float a b = if f.le a b then a else b

  abbrev pub eq_float : f.F → f.F → Bool
  eq_float a b = if f.le a b then f.le b a else false
