-- ===== src/Base/Int.antt =====
-- Signed integers over the native numbers, and the conversion of `int64_t` to `int`.
use amlp.Base.Tests.{ltb, ◌==◌, if◌then◌else◌}
use Prim.Native.Nat.{ℕ, zero, suc, ◌-◌, ◌%◌, ◌^◌}
use mathlib.Core.Bool.{Bool, true, false}

-- `negsuc n` is -(n + 1).
pub data ℤ : Type 0 where
  pos negsuc : ℕ → ℤ

-- The `int` with the low 32 bits `m`.
abbrev of_bits : ℕ → ℤ
of_bits m = if ltb m (2 ^ 31) then pos m else negsuc (2 ^ 32 - 1 - m)

-- `static_cast<int>`.
unfoldable pub cast_int : ℤ → ℤ
cast_int (pos n) = of_bits (n % 2 ^ 32)
cast_int (negsuc n) = of_bits (2 ^ 32 - 1 - n % 2 ^ 32)

-- `--` of an `int`; the smallest one, where C++ leaves it open, wraps around.
unfoldable pub decrement : ℤ → ℤ
decrement (pos zero) = negsuc 0
decrement (pos (suc n)) = pos n
decrement (negsuc n) = if n == 2 ^ 31 - 1 then pos n else negsuc (suc n)

-- `n < 1`
abbrev pub is_below_one : ℤ → Bool
is_below_one (pos zero) = true
is_below_one (pos (suc _)) = false
is_below_one (negsuc _) = true
