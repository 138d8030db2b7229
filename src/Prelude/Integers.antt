-- ===== src/Prelude/Integers.antt =====
-- Python's integers, over the native numbers: `negsuc n` is -(n + 1).
use Prim.Native.Nat.{ℕ, suc, ◌+◌, ◌-◌, ◌<◌}
use mathlib.Core.Path.{◌≡◌}
use mathlib.Core.Bool.{Bool, false}
use agentcook.Prelude.Tests.{◌==◌, ltb}

pub data ℤ : Type 0 where
  pos negsuc : ℕ → ℤ

abbrev pub is_zero : ℤ → Bool
is_zero (pos n) = n == 0
is_zero (negsuc n) = false

abbrev pub pos_part : ℤ → ℕ
pos_part (pos n) = n
pos_part (negsuc n) = 0

abbrev pub neg_part : ℤ → ℕ
neg_part (pos n) = 0
neg_part (negsuc n) = suc n

-- `a < b`.
abbrev pub ltb_ℤ : ℤ → ℤ → Bool
ltb_ℤ a b = ltb (pos_part a + neg_part b) (pos_part b + neg_part a)

abbrev pub Below : ℤ → ℤ → Type 0
Below a b = pos_part a + neg_part b < pos_part b + neg_part a

-- `max(0, a - b)`.
abbrev pub excess : ℤ → ℤ → ℕ
excess a b = pos_part a + neg_part b - (pos_part b + neg_part a)

-- That `c` is `a + n`.
abbrev pub IsSum : ℤ → ℕ → ℤ → Type 0
IsSum a n c = pos_part c + neg_part a ≡ pos_part a + neg_part c + n
