-- ===== src/Prelude/Int.antt =====
-- Signed integers over the native numbers, under the library's names.
use Prim.Native.Nat.{ℕ, suc, ◌+◌, ◌-◌, ◌*◌, ◌/◌, ◌%◌, ◌<◌}
use mathlib.Core.Path.{◌≡◌}
use native.Mathlib.Omega.{arith}
use mathlib.Core.Bool.{Bool, true, false}
use credish.Prelude.Tests.{ltb, leb, if◌then◌else◌}

-- `negsuc n` is -(n + 1).
pub data ℤ : Type 0 where
  pos : ℕ → ℤ
  negsuc : ℕ → ℤ

abbrev pub pos_part : ℤ → ℕ
pos_part (pos n) = n
pos_part (negsuc n) = 0

abbrev pub neg_part : ℤ → ℕ
neg_part (pos n) = 0
neg_part (negsuc n) = suc n

-- a - b, as an integer.
abbrev pub sub_ℕ : ℕ → ℕ → ℤ
sub_ℕ a b = if leb b a then pos (a - b) else negsuc (b - a - 1)

infixl 65 ◌+ℤ◌ ◌-ℤ◌
unfoldable pub ◌+ℤ◌ : ℤ → ℤ → ℤ
a +ℤ b = sub_ℕ (pos_part a + pos_part b) (neg_part a + neg_part b)

unfoldable pub ◌-ℤ◌ : ℤ → ℤ → ℤ
a -ℤ b = sub_ℕ (pos_part a + neg_part b) (neg_part a + pos_part b)

abbrev pub ltb_ℤ : ℤ → ℤ → Bool
ltb_ℤ a b = ltb (pos_part a + neg_part b) (pos_part b + neg_part a)

abbrev pub ◌<ℤ◌ : ℤ → ℤ → Type 0
◌<ℤ◌ a b = pos_part a + neg_part b < pos_part b + neg_part a

-- Whether a number is at least 0.
abbrev pub is_nonneg : ℤ → Bool
is_nonneg (pos n) = true
is_nonneg (negsuc n) = false

pub mul_ℕ : ℤ → ℕ → ℤ
mul_ℕ a k = sub_ℕ (pos_part a * k) (neg_part a * k)

-- Division that rounds towards 0, as in C.
pub div_ℕ : ℤ → ℕ → ℤ
div_ℕ a k = sub_ℕ (pos_part a / k) (neg_part a / k)

-- A conversion to a C `int` of 32 bits in two's complement.
pub to_int : ℤ → ℤ
to_int (pos n) = sub_ℕ ((n + 2147483648) % 4294967296) 2147483648
to_int (negsuc n) = sub_ℕ ((4294967295 - n % 4294967296 + 2147483648) % 4294967296) 2147483648

-- The range of an `int`.
unfoldable pub is_int : ℤ → Bool
is_int (pos n) = ltb n 2147483648
is_int (negsuc n) = ltb n 2147483648

-- The range of a `long long`, which is that of an `int64_t`.
unfoldable pub is_long : ℤ → Bool
is_long (pos n) = ltb n 9223372036854775808
is_long (negsuc n) = ltb n 9223372036854775808

pub to_int_lem : (z : ℤ) → is_int z ≡ true → to_int z ≡ z
unfolding to_int is_int
to_int_lem (pos n) h = ground arith
to_int_lem (negsuc n) h = ground arith
