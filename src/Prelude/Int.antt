-- ===== src/Prelude/Int.antt =====
-- C's `int` results: an integer with its sign, and its conversions to the unsigned types that the
-- sources compare it with.
use Prim.Native.Nat.{ℕ, ◌-◌, ◌%◌, ◌^◌}
use mathlib.Core.Bool.{Bool, true, false}
use emi.Prelude.Tests.{ltb}

-- `negsuc n` is -(n + 1).
pub data ℤ : Type 0 where
  pos : ℕ → ℤ
  negsuc : ℕ → ℤ

abbrev pub minus_one : ℤ
minus_one = negsuc 0

-- `z < 0`
abbrev pub is_negative : ℤ → Bool
is_negative (pos n) = false
is_negative (negsuc n) = true

-- `z != 0`, a C truth value
abbrev pub is_nonzero : ℤ → Bool
is_nonzero (pos n) = ltb 0 n
is_nonzero (negsuc n) = true

-- The conversion of an `int` to an unsigned type of `w` bits.
abbrev pub to_unsigned : ℕ → ℤ → ℕ
to_unsigned w (pos n) = n % 2 ^ w
to_unsigned w (negsuc n) = (2 ^ w - 1) - n % 2 ^ w

-- `z < size` with a `size_t` on the right: the `int` is converted first.
abbrev pub lt_size : ℤ → ℕ → Bool
lt_size z n = ltb (to_unsigned 64 z) n

-- `z < size` with an `eu32` on the right.
abbrev pub lt_u32 : ℤ → ℕ → Bool
lt_u32 z n = ltb (to_unsigned 32 z) n
