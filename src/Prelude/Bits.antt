-- ===== src/Prelude/Bits.antt =====
-- A masked value does not exceed its mask, by the binary digits that `&` stands for.
use Prim.Native.Nat.{ℕ, zero, suc, ◌/◌, ◌≤◌, min, bit_and, digits, bit_and-bitwise}
use native.Mathlib.Omega.{arith}

-- The digit loop of `&` with its round counter free.
abbrev masked : ℕ → ℕ → ℕ → ℕ
masked rounds a m = digits (λ b. zero) min rounds a m

-- However many rounds are made, the result is at most the mask.
masked-le : (rounds a m : ℕ) → masked rounds a m ≤ m
masked-le zero zero m = omega arith
masked-le zero (suc a) m = omega arith
masked-le (suc n) zero m = omega arith
masked-le (suc n) (suc a) m = omega (arith, masked-le n (suc a / 2) (m / 2))

pub bit_and-le_right : (a m : ℕ) → bit_and a m ≤ m
bit_and-le_right a m = omega (arith, bit_and-bitwise a m, masked-le a a m)
