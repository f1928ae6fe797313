-- ===== src/Aof/Read/Digits.antt =====
-- db.c and aof.c: the decimal numbers that `aof_append_len` prints, as `aof_load` reads them.
use credish.Prelude.{
  ℕ, zero, suc, ◌+◌, ◌-◌, ◌*◌, ◌/◌, ◌%◌, ◌<◌, ◌≤◌, ◌≡◌, refl, sym, ◌∙◌, ap, Bool, true, ◌&&◌, not,
  [], ◌∷◌, ◌++◌, length, arith, ◌==◌, ltb, leb, Bool-cases, inl, inr, if_true, if_false, append-nil,
}
use credish.Prelude.Int.{ℤ, pos, negsuc, sub_ℕ, to_int, is_int, to_int_lem}
use credish.Sds.{Bytes}
use credish.Aof.{decimal, print_ℕ, print_ℤ}
use credish.Aof.Read.{is_space, is_digit, digits, clamp_pos, clamp_neg, signed, strtoll, atoi}

pub small_quotient : (n : ℕ) → (n / 10 == 0) ≡ true → n % 10 ≡ n
small_quotient n h = ground arith

cut : (d : ℕ) → 48 + d - 48 ≡ d
cut d = omega arith

digit_step :
    (acc d : ℕ) (str : Bytes) → d < 10 → digits acc ((48 + d) ∷ str) ≡ digits (acc * 10 + d) str
unfolding digits is_digit
digit_step acc d str h =
    if_true {b = is_digit (48 + d)} _ _ (ground arith) ∙ ap (λ k. digits (acc * 10 + k) str) (cut d)

digits-decimal :
    (fuel n : ℕ) (str : Bytes) → n < fuel → digits 0 (decimal fuel n str) ≡ digits n str
unfolding decimal
digits-decimal zero n str h = absurd (omega arith)
digits-decimal (suc fuel) n str h = elim (Bool-cases (n / 10 == 0)) [
  | inl e ↦
      ap (digits 0) (if_true _ _ e)
      ∙ digit_step 0 (n % 10) str (omega arith)
      ∙ ap (λ k. digits k str) (omega (arith, small_quotient n e))
  | inr e ↦
      ap (digits 0) (if_false _ _ e)
      ∙ digits-decimal fuel (n / 10) ((48 + n % 10) ∷ str) (ground arith)
      ∙ digit_step (n / 10) (n % 10) str (omega arith)
      ∙ ap (λ k. digits k str) (omega arith)
]

decimal-append :
    (fuel n : ℕ) (str rest : Bytes) → decimal fuel n str ++ rest ≡ decimal fuel n (str ++ rest)
unfolding decimal
decimal-append zero n str rest = refl
decimal-append (suc fuel) n str rest = elim (Bool-cases (n / 10 == 0)) [
  | inl e ↦ ap (λ l. l ++ rest) (if_true _ _ e) ∙ sym (if_true _ _ e)
  | inr e ↦
      ap (λ l. l ++ rest) (if_false _ _ e)
      ∙ decimal-append fuel (n / 10) ((48 + n % 10) ∷ str) rest
      ∙ sym (if_false _ _ e)
]

-- The first character is a digit.
pub decimal-digit :
    (fuel n : ℕ) (str : Bytes)
    → n < fuel
    → (d : ℕ) × (str' : Bytes) × (decimal fuel n str ≡ (48 + d) ∷ str') × (d < 10)
unfolding decimal
decimal-digit zero n str h = absurd (omega arith)
decimal-digit (suc fuel) n str h = elim (Bool-cases (n / 10 == 0)) [
  | inl e ↦ (n % 10, str, if_true _ _ e, omega arith)
  | inr e ↦
      let (d, str', s, small) = decimal-digit fuel (n / 10) ((48 + n % 10) ∷ str) (ground arith) in
      (d, str', if_false _ _ e ∙ s, small)
]

-- The powers of 10, from 10 on.
abbrev pub tens : ℕ → ℕ
tens zero = 10
tens (suc k) = 10 * tens k

-- No more digits than the power of 10 above the number has zeros.
pub length-decimal :
    (k fuel n : ℕ) (str : Bytes) → n < tens k → length (decimal fuel n str) ≤ suc k + length str
unfolding decimal
length-decimal k zero n str h = omega arith
length-decimal zero (suc fuel) n str h = ground arith
length-decimal (suc k) (suc fuel) n str h =
    ground (arith, length-decimal k fuel (n / 10) ((48 + n % 10) ∷ str) (omega arith))

pub length-print_ℕ : (n : ℕ) → n < 2147483648 → length (print_ℕ n) ≤ 10
unfolding print_ℕ
length-print_ℕ n h = length-decimal 9 (n + 1) n [] (omega arith)

-- Whether there is no newline.
abbrev pub one_line : Bytes → Bool
one_line [] = true
one_line (c ∷ str) = not (c == 10) && one_line str

one_line-decimal : (fuel n : ℕ) (str : Bytes) → one_line (decimal fuel n str) ≡ one_line str
unfolding decimal
one_line-decimal zero n str = refl
one_line-decimal (suc fuel) n str = elim (Bool-cases (n / 10 == 0)) [
  | inl e ↦ ap one_line (if_true _ _ e) ∙ no_newline (n % 10) str (omega arith)
  | inr e ↦
      ap one_line (if_false _ _ e)
      ∙ one_line-decimal fuel (n / 10) ((48 + n % 10) ∷ str)
      ∙ no_newline (n % 10) str (omega arith)
]
  where
    no_newline : (d : ℕ) (str : Bytes) → d < 10 → one_line ((48 + d) ∷ str) ≡ one_line str
    no_newline d str h = ground arith

-- What follows a number and does not belong to it.
abbrev pub ends_number : Bytes → Bool
ends_number [] = true
ends_number (c ∷ str) = not (leb 48 c && leb c 57)

digits-end : (n : ℕ) (str : Bytes) → ends_number str ≡ true → digits n str ≡ n
unfolding digits is_digit
digits-end n [] h = refl
digits-end n (c ∷ str) h = if_false {b = is_digit c} _ _ (ground arith)

pub digits-print_ℕ :
    (n : ℕ) (str : Bytes) → ends_number str ≡ true → digits 0 (print_ℕ n ++ str) ≡ n
unfolding print_ℕ
digits-print_ℕ n str h =
    ap (digits 0) (decimal-append (n + 1) n [] str)
    ∙ digits-decimal (n + 1) n str (omega arith)
    ∙ digits-end n str h

clamp_pos_lem : (n : ℕ) → n < 9223372036854775808 → clamp_pos n ≡ pos n
unfolding clamp_pos
clamp_pos_lem n h = if_true {b = ltb n 9223372036854775808} _ _ (ground arith)

signed-digit :
    (d : ℕ) (str : Bytes)
    → d < 10
    → strtoll ((48 + d) ∷ str) ≡ clamp_pos (digits 0 ((48 + d) ∷ str))
unfolding strtoll signed is_space
signed-digit d str h =
    if_false {b = is_space (48 + d)} _ _ (ground arith)
    ∙ if_false {b = 48 + d == 45} _ _ (ground arith)
    ∙ if_false {b = 48 + d == 43} _ _ (ground arith)

-- `strtoll` reads what `%zu` prints, whatever follows that is not a digit.
pub strtoll-print_ℕ :
    (n : ℕ) (str : Bytes)
    → n < 9223372036854775808
    → ends_number str ≡ true
    → strtoll (print_ℕ n ++ str) ≡ pos n
unfolding print_ℕ
strtoll-print_ℕ n str h k =
    let (d, rest, e, small) = decimal-digit (n + 1) n [] (omega arith) in
    ap (λ l. strtoll (l ++ str)) e
    ∙ signed-digit d (rest ++ str) small
    ∙ ap (λ l. clamp_pos (digits 0 (l ++ str))) (sym e)
    ∙ ap clamp_pos (digits-print_ℕ n str k)
    ∙ clamp_pos_lem n h

pub atoi-print_ℕ :
    (n : ℕ) (str : Bytes)
    → n < 2147483648
    → ends_number str ≡ true
    → atoi (print_ℕ n ++ str) ≡ pos n
unfolding atoi is_int
atoi-print_ℕ n str h k =
    ap to_int (strtoll-print_ℕ n str (omega arith) k) ∙ to_int_lem (pos n) (ground arith)

pub one_line-print_ℕ : (n : ℕ) → one_line (print_ℕ n) ≡ true
unfolding print_ℕ
one_line-print_ℕ n = one_line-decimal (n + 1) n []

signed-minus : (n : ℕ) → n < 9223372036854775808 → strtoll (45 ∷ print_ℕ n) ≡ sub_ℕ 0 n
unfolding strtoll signed is_space clamp_neg
signed-minus n h =
    let e : digits 0 (print_ℕ n) ≡ n =
      ap (digits 0) (sym (append-nil (print_ℕ n))) ∙ digits-print_ℕ n [] refl in
    ap clamp_neg e ∙ if_true {b = ltb n 9223372036854775808} _ _ (ground arith)

-- `atoi` reads what `%d` prints of an `int`.
pub atoi-print_ℤ : (z : ℤ) → is_int z ≡ true → atoi (print_ℤ z) ≡ z
unfolding atoi is_int print_ℤ
atoi-print_ℤ (pos n) h =
    ap atoi (sym (append-nil (print_ℕ n))) ∙ atoi-print_ℕ n [] (ground arith) refl
atoi-print_ℤ (negsuc n) h =
    ap to_int (signed-minus (suc n) (ground arith) ∙ minus) ∙ to_int_lem (negsuc n) (ground arith)
  where
    minus : sub_ℕ 0 (suc n) ≡ negsuc n
    minus = ground arith
