-- ===== src/Base/Int.antt =====
-- The signed integers of C (`int`, `long`): `negsuc n` is -(n + 1).
use Prim.Native.Nat.{ℕ, zero, suc, ◌+◌, ◌-◌, ◌%◌, ◌^◌}
use mathlib.Core.Bool.{Bool, true, false}

pub data ℤ : Type 0 where
  pos : ℕ → ℤ
  negsuc : ℕ → ℤ

-- `r < 0`
abbrev pub is_negative : ℤ → Bool
is_negative (pos n) = false
is_negative (negsuc n) = true

-- `if (r)`
abbrev pub is_nonzero : ℤ → Bool
is_nonzero (pos zero) = false
is_nonzero (pos (suc n)) = true
is_nonzero (negsuc n) = true

-- A subtraction of 64 bits
abbrev pub minus64 : ℕ → ℕ → ℕ
minus64 x y = (x + 2 ^ 64 - y) % 2 ^ 64
