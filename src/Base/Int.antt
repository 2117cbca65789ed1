-- ===== src/Base/Int.antt =====
-- The C type `int` where a value may be negative.
use Prim.Native.Nat.{ℕ, compare, Ordering}
use mathlib.Core.Bool.{Bool, true, false}

-- `negsuc n` is -(n + 1).
pub data ℤ : Type 0 where
  pos : ℕ → ℤ
  negsuc : ℕ → ℤ

-- `z == n` in C for a value `n` that is not negative.
abbrev pub is_pos : ℤ → ℕ → Bool
is_pos (pos m) n = elim (compare m n) [ Ordering.eq ↦ true | _ ↦ false ]
is_pos (negsuc m) n = false
