-- ===== src/Float.antt =====
-- The floating-point operations that the program calls, as a record that the model takes: `F` stands
-- for float64 and `F32` for float32. Laws of IEEE 754 are hypotheses of the theorems that need them.
use civika.Prelude.{ℕ, Bool}
use civika.Prelude.Int.{ℤ}

pub record FloatOps (F F32 : Type 0) : Type 0 where
  -- `float64(n)` and `int(x)`, which cuts towards zero.
  pub of_int : ℤ → F
  pub to_int : F → ℤ
  -- `float64(v)` of a float32.
  pub widen : F32 → F
  -- The constant n / 10 ^ k, rounded.
  pub decimal : (n k : ℕ) → F
  pub add : F → F → F
  pub mul : F → F → F
  pub div : F → F → F
  pub lt : F → F → Bool
  pub eq : F → F → Bool
  -- `math.Sqrt`, `math.Round` and `math.Ceil`.
  pub sqrt : F → F
  pub round : F → F
  pub ceil : F → F
