-- ===== src/Base/Int.antt =====
-- Signed integers over the native numbers, under the library's names; `negsuc n` is -(n + 1).
use Prim.Native.Nat.{ℕ, zero, suc}
use mathlib.Core.Bool.{Bool, true, false}

pub data ℤ : Type 0 where
  pos : ℕ → ℤ
  negsuc : ℕ → ℤ

-- An `int` as a condition.
abbrev pub is_nonzero : ℤ → Bool
is_nonzero (pos zero) = false
is_nonzero (pos (suc n)) = true
is_nonzero (negsuc n) = true

abbrev pub is_positive : ℤ → Bool
is_positive (pos zero) = false
is_positive (pos (suc n)) = true
is_positive (negsuc n) = false
