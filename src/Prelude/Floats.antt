-- ===== src/Prelude/Floats.antt =====
-- Python's floats. The language here has none, so the type and the operations that the code uses
-- are a parameter of the modules that need them.
use Prim.Native.Nat.{ℕ}
use mathlib.Core.Bool.{Bool}

pub record Floats : Type 1 where
  pub Float : Type 0
  -- `a <= b` and `a < b`.
  pub le : Float → Float → Bool
  pub lt : Float → Float → Bool
  pub zero : Float
  pub one : Float
  -- `a * b`.
  pub mul : Float → Float → Float
  -- `int(n * a)` for a natural number `n`.
  pub int_mul : ℕ → Float → ℕ
  -- `0.5 ** (n / k)`.
  pub half_pow : ℕ → ℕ → Float
