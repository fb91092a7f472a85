-- ===== src/Base/Int.antt =====
-- C's signed integers: `int` and `long` as whole numbers, with the conversion from `long` to `int`.
use mport.Base.Tests.{ltb, leb, ◌==◌, if◌then◌else◌}
use Prim.Native.Nat.{ℕ, ◌+◌, ◌-◌, ◌%◌, ◌^◌, ◌<◌, suc}
use mathlib.Core.Path.{◌≡◌}
use mathlib.Core.Bool.{Bool}
use native.Mathlib.Omega.{arith}

-- `negsuc n` is -(n + 1).
pub data ℤ : Type 0 where
  pos : ℕ → ℤ
  negsuc : ℕ → ℤ

abbrev pub pos_part : ℤ → ℕ
pos_part (pos n) = n
pos_part (negsuc n) = 0

abbrev pub neg_part : ℤ → ℕ
neg_part (pos n) = 0
neg_part (negsuc n) = suc n

-- 0 - n and 0 - z
abbrev pub neg_ℕ : ℕ → ℤ
neg_ℕ n = if n == 0 then pos 0 else negsuc (n - 1)

abbrev pub neg : ℤ → ℤ
neg (pos n) = neg_ℕ n
neg (negsuc n) = pos (suc n)

abbrev pub lt_int : ℤ → ℤ → Bool
lt_int a b = ltb (pos_part a + neg_part b) (pos_part b + neg_part a)

abbrev pub le_int : ℤ → ℤ → Bool
le_int a b = leb (pos_part a + neg_part b) (pos_part b + neg_part a)

abbrev pub eq_int : ℤ → ℤ → Bool
eq_int a b = (pos_part a + neg_part b) == (pos_part b + neg_part a)

-- The `int` with the given bit pattern.
unfoldable pub signed32 : ℕ → ℤ
signed32 m = if ltb m (2 ^ 31) then pos m else negsuc (2 ^ 32 - m - 1)

-- `(int) z` for a `long` z: the low 32 bits.
unfoldable pub long_to_int : ℤ → ℤ
unfolding signed32
long_to_int (pos n) = signed32 (n % 2 ^ 32)
long_to_int (negsuc n) = signed32 (2 ^ 32 - 1 - n % 2 ^ 32)

pub long_to_int_small : (n : ℕ) → n < 2 ^ 31 → long_to_int (pos n) ≡ pos n
unfolding long_to_int
long_to_int_small n h = ground arith
