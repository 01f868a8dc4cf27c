-- ===== src/Base/Int.antt =====
-- Go's signed integers: the integers over the native numbers, with the wrap-around of int32 and
-- int64 written out.
use Prim.Native.Nat.{ℕ, zero, suc, ◌+◌, ◌-◌, ◌*◌, ◌%◌, ◌^◌}
use mathlib.Core.Bool.{Bool, true, false}
use hiro_adaptive_orchestrat.Base.Tests.{ltb, leb, ◌==◌, if◌then◌else◌}

-- `negsuc n` is -(n + 1).
pub data ℤ : Type 0 where
  pos : ℕ → ℤ
  negsuc : ℕ → ℤ

abbrev pub ltb_ℤ : ℤ → ℤ → Bool
ltb_ℤ (pos a) (pos b) = ltb a b
ltb_ℤ (pos a) (negsuc b) = false
ltb_ℤ (negsuc a) (pos b) = true
ltb_ℤ (negsuc a) (negsuc b) = ltb b a

abbrev pub leb_ℤ : ℤ → ℤ → Bool
leb_ℤ (pos a) (pos b) = leb a b
leb_ℤ (pos a) (negsuc b) = false
leb_ℤ (negsuc a) (pos b) = true
leb_ℤ (negsuc a) (negsuc b) = leb b a

abbrev pub max_int32 : ℕ
max_int32 = 2147483647

-- `x++` on an int32.
abbrev pub inc_int32 : ℤ → ℤ
inc_int32 (pos n) = if n == max_int32 then negsuc max_int32 else pos (n + 1)
inc_int32 (negsuc zero) = pos 0
inc_int32 (negsuc (suc n)) = negsuc n

-- The int64 whose bit pattern is that of the number, `m` below 2 ^ 64.
abbrev pub of_bits64 : ℕ → ℤ
of_bits64 m = if ltb m 9223372036854775808 then pos m else negsuc (18446744073709551615 - m)

-- `x * k` on an int64, for a positive constant `k`: the product modulo 2 ^ 64.
abbrev pub mul_int64 : ℤ → ℕ → ℤ
mul_int64 (pos n) k = of_bits64 (n * k % 18446744073709551616)
mul_int64 (negsuc n) k = of_bits64 (18446744073709551615 - (suc n * k - 1) % 18446744073709551616)

-- A whole number as a float64, in units of 2 ^ -1074.
abbrev pub float_of : ℕ → ℤ
float_of n = pos (n * 2 ^ 1074)
