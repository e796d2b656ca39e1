-- ===== src/Base/Int.antt =====
-- Python's signed `int`, where the program compares a count with a configured limit.
use Prim.Native.Nat.{ℕ}
use mathlib.Core.Bool.{Bool, true, false}
use synno_db.Base.Tests.{leb, ◌==◌}

-- `negsuc n` is -(n + 1).
pub data ℤ : Type 0 where
  pos : ℕ → ℤ
  negsuc : ℕ → ℤ

-- count <= limit
abbrev pub at_most : ℕ → ℤ → Bool
at_most count (pos n) = leb count n
at_most count (negsuc n) = false

-- count >= limit
abbrev pub at_least : ℕ → ℤ → Bool
at_least count (pos n) = leb n count
at_least count (negsuc n) = true

abbrev pub eq_ℤ : ℤ → ℤ → Bool
eq_ℤ (pos n) (pos m) = n == m
eq_ℤ (negsuc n) (negsuc m) = n == m
eq_ℤ _ _ = false
