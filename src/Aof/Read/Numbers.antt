-- ===== src/Aof/Read/Numbers.antt =====
-- credish_module.c and hash.c: numbers that `%lld` prints, as `strtoll` reads them.
use credish.Prelude.{
  ℕ, zero, suc, ◌+◌, ◌/◌, ◌%◌, ◌<◌, ◌≤◌, ◌≡◌, refl, sym, ◌∙◌, ap, true, ◌||◌, [], ◌∷◌, length, take,
  arith, ◌==◌, ltb, append-nil, Bool-cases, inl, inr, if_true, if_false,
}
use credish.Prelude.Int.{is_long, ℤ, pos, negsuc}
use credish.Sds.{Bytes}
use credish.Aof.{decimal, print_ℕ, print_ℤ}
use credish.Aof.Read.{
  is_space, is_digit, digits, clamp_neg, signed, strtoll, after_digits, after_sign, after_spaces,
  strtoll_end,
}
use credish.Aof.Read.Digits.{strtoll-print_ℕ, digits-print_ℕ, decimal-digit, length-decimal}

clamp_neg_lem : (n : ℕ) → n < 9223372036854775808 → clamp_neg (suc n) ≡ negsuc n
unfolding clamp_neg
clamp_neg_lem n h = elim (Bool-cases (ltb (suc n) 9223372036854775808)) [
  | inl e ↦ if_true _ _ e ∙ ground arith
  | inr e ↦ if_false _ _ e ∙ ap negsuc (ground arith)
]

strtoll-minus : (n : ℕ) → strtoll (45 ∷ print_ℕ n) ≡ clamp_neg n
unfolding strtoll signed is_space
strtoll-minus n =
    ap clamp_neg (ap (digits 0) (sym (append-nil (print_ℕ n))) ∙ digits-print_ℕ n [] refl)

pub strtoll-print_ℤ : (z : ℤ) → is_long z ≡ true → strtoll (print_ℤ z) ≡ z
unfolding is_long print_ℤ
strtoll-print_ℤ (pos n) h =
    ap strtoll (sym (append-nil (print_ℕ n))) ∙ strtoll-print_ℕ n [] (ground arith) refl
strtoll-print_ℤ (negsuc n) h = strtoll-minus (suc n) ∙ clamp_neg_lem n (ground arith)

skip : (d : ℕ) (str : Bytes) → d < 10 → after_digits ((48 + d) ∷ str) ≡ after_digits str
unfolding after_digits is_digit
skip d str h = if_true {b = is_digit (48 + d)} _ _ (ground arith)

after_digits-decimal :
    (fuel n : ℕ) (str : Bytes) → after_digits (decimal fuel n str) ≡ after_digits str
unfolding decimal
after_digits-decimal zero n str = refl
after_digits-decimal (suc fuel) n str = elim (Bool-cases (n / 10 == 0)) [
  | inl e ↦ ap after_digits (if_true _ _ e) ∙ skip (n % 10) str (omega arith)
  | inr e ↦
      ap after_digits (if_false _ _ e)
      ∙ after_digits-decimal fuel (n / 10) ((48 + n % 10) ∷ str)
      ∙ skip (n % 10) str (omega arith)
]

-- The number is read to its end.
after_sign-print_ℕ : (n : ℕ) (str : Bytes) → after_sign str (print_ℕ n) ≡ []
unfolding after_sign print_ℕ after_digits is_digit
after_sign-print_ℕ n str =
    let (d, rest, e, small) = decimal-digit (n + 1) n [] (omega arith) in
    ap (after_sign str) e
    ∙ if_true {b = is_digit (48 + d)} _ _ (ground arith)
    ∙ sym (if_true {b = is_digit (48 + d)} (after_digits rest) ((48 + d) ∷ rest) (ground arith))
    ∙ ap after_digits (sym e)
    ∙ after_digits-decimal (n + 1) n []

after_spaces-digit :
    (d : ℕ) (str rest : Bytes)
    → d < 10
    → after_spaces str ((48 + d) ∷ rest) ≡ after_sign str ((48 + d) ∷ rest)
unfolding after_spaces is_space
after_spaces-digit d str rest h =
    if_false {b = is_space (48 + d)} _ _ (ground arith)
    ∙ if_false {b = (48 + d == 45) || (48 + d == 43)} _ _ (ground arith)

strtoll_end-print_ℕ : (n : ℕ) → strtoll_end (print_ℕ n) ≡ []
unfolding strtoll_end print_ℕ
strtoll_end-print_ℕ n =
    let (d, rest, e, small) = decimal-digit (n + 1) n [] (omega arith) in
    ap (after_spaces (print_ℕ n)) e
    ∙ after_spaces-digit d (print_ℕ n) rest small
    ∙ ap (after_sign (print_ℕ n)) (sym e)
    ∙ after_sign-print_ℕ n (print_ℕ n)

pub strtoll_end-print_ℤ : (z : ℤ) → strtoll_end (print_ℤ z) ≡ []
unfolding strtoll_end after_spaces print_ℤ is_space
strtoll_end-print_ℤ (pos n) = strtoll_end-print_ℕ n
strtoll_end-print_ℤ (negsuc n) = after_sign-print_ℕ (suc n) (45 ∷ print_ℕ (suc n))

length-print_ℤ : (z : ℤ) → is_long z ≡ true → length (print_ℤ z) ≤ 20
unfolding print_ℤ print_ℕ is_long
length-print_ℤ (pos n) h = omega (arith, length-decimal 18 (n + 1) n [] (ground arith))
length-print_ℤ (negsuc n) h = omega (arith, length-decimal 18 (suc n + 1) (suc n) [] (ground arith))

-- The buffer of 64 characters has room for every number.
pub take-print_ℤ : (z : ℤ) → is_long z ≡ true → take 63 (print_ℤ z) ≡ print_ℤ z
take-print_ℤ z h = take_all 63 (print_ℤ z) (omega (arith, length-print_ℤ z h))
  where
    take_all : (n : ℕ) (xs : Bytes) → length xs ≤ n → take n xs ≡ xs
    take_all zero [] k = refl
    take_all zero (x ∷ xs) k = absurd (omega arith)
    take_all (suc n) [] k = refl
    take_all (suc n) (x ∷ xs) k = ap (λ l. x ∷ l) (take_all n xs (omega arith))
