-- ===== src/Shared/Int.antt =====
-- Signed integers over the native numbers, under the library's names. Go's `int` and `int64` are
-- such integers in the range of 64 bits, and `wrap64` is their wrap-around.
use Prim.Native.Nat.{ℕ, suc, ◌+◌, ◌-◌, ◌%◌}
use mathlib.Core.Bool.{Bool}
use ooblivion.Shared.Tests.{ltb, leb, if◌then◌else◌}

-- `negsuc n` is -(n + 1).
pub data ℤ : Type 0 where
  pos : ℕ → ℤ
  negsuc : ℕ → ℤ

abbrev pub pos_part : ℤ → ℕ
pos_part (pos n) = n
pos_part (negsuc n) = 0

abbrev pub neg_part : ℤ → ℕ
neg_part (pos n) = 0
neg_part (negsuc n) = suc n

-- a - b, as an integer.
abbrev pub sub_ℕ : ℕ → ℕ → ℤ
sub_ℕ a b = if leb b a then pos (a - b) else negsuc (b - a - 1)

abbrev pub ltb_ℤ : ℤ → ℤ → Bool
ltb_ℤ a b = ltb (pos_part a + neg_part b) (pos_part b + neg_part a)

-- `max_int64` is 2^63 - 1.
abbrev pub max_int64 : ℕ
max_int64 = 9223372036854775807

abbrev pub two_pow64 : ℕ
two_pow64 = 18446744073709551616

-- The signed reading of a 64-bit pattern.
abbrev signed64 : ℕ → ℤ
signed64 u = if leb u max_int64 then pos u else negsuc (two_pow64 - u - 1)

-- The value modulo 2^64, in the range of `int64`.
unfoldable pub wrap64 : ℤ → ℤ
wrap64 (pos n) = signed64 (n % two_pow64)
wrap64 (negsuc n) = signed64 (two_pow64 - 1 - n % two_pow64)
