-- ===== src/Prelude/Int.antt =====
-- Go's signed integers, where a negative value is meaningful. `negsuc n` is -(n + 1).
use Prim.Native.Nat.{ℕ, suc, ◌+◌, ◌-◌, ◌*◌, ◌%◌, ◌^◌}
use mathlib.Core.Bool.{Bool, true, false}
use gin_di.Prelude.Tests.{ltb, leb, if◌then◌else◌}

pub data ℤ : Type 0 where
  pos : ℕ → ℤ
  negsuc : ℕ → ℤ

-- The value, with a negative one read as 0.
abbrev pub pos_part : ℤ → ℕ
pos_part (pos n) = n
pos_part (negsuc n) = 0

abbrev pub neg_part : ℤ → ℕ
neg_part (pos n) = 0
neg_part (negsuc n) = suc n

abbrev pub sub_ℕ : ℕ → ℕ → ℤ
sub_ℕ a b = if leb b a then pos (a - b) else negsuc (b - a - 1)

infixl 65 ◌+ℤ◌
unfoldable pub ◌+ℤ◌ : ℤ → ℤ → ℤ
a +ℤ b = sub_ℕ (pos_part a + pos_part b) (neg_part a + neg_part b)

-- `a <= 0`
abbrev pub is_non_positive : ℤ → Bool
is_non_positive (pos n) = leb n 0
is_non_positive (negsuc n) = true

-- `a < 0`
abbrev pub is_negative : ℤ → Bool
is_negative (pos n) = false
is_negative (negsuc n) = true

-- A 64-bit int of its bits.
unfoldable pub to_int64 : ℕ → ℤ
to_int64 n =
    let bits = n % 2 ^ 64 in if ltb bits (2 ^ 63) then pos bits else negsuc (2 ^ 64 - 1 - bits)

-- The product of two ints: the low 64 bits of the exact one.
unfoldable pub mul_int64 : ℤ → ℕ → ℤ
mul_int64 (pos n) k = to_int64 (n * k)
mul_int64 (negsuc n) k = to_int64 (2 ^ 64 - suc n * k % 2 ^ 64)
