-- ===== src/Rdb/Longs.antt =====
-- persistence/rdb.c: a deadline that was written is read.
use credish.Prelude.{
  ℕ, zero, suc, ◌+◌, ◌*◌, ◌/◌, ◌%◌, ◌<◌, ◌≡◌, refl, sym, ◌∙◌, ap, true, some, [], ◌∷◌, ◌++◌, length,
  length-append, take, drop, take-length-append, arith, ltb, if_false,
}
use credish.Prelude.Int.{is_long, ℤ, pos, negsuc}
use credish.Sds.{Bytes}
use credish.Rdb.{Out, w_bytes, to_u64, to_i64, i64_bytes, w_i64, shift_in, r_i64}
use credish.Rdb.Words.{drop-length-append}

-- The powers of 256.
abbrev bytes_range : ℕ → ℕ
bytes_range zero = 1
bytes_range (suc k) = 256 * bytes_range k

shift_in-i64_bytes :
    (k u : ℕ) (b : Bytes) → u < bytes_range k → shift_in 0 (i64_bytes k u b) ≡ shift_in u b
unfolding i64_bytes shift_in
shift_in-i64_bytes zero u b h = ap (λ n. shift_in n b) (omega arith)
shift_in-i64_bytes (suc k) u b h =
    shift_in-i64_bytes k (u / 256) (u % 256 ∷ b) (omega arith)
    ∙ ap (λ n. shift_in n b) (omega arith)

length-i64_bytes : (k u : ℕ) (b : Bytes) → length (i64_bytes k u b) ≡ k + length b
unfolding i64_bytes
length-i64_bytes zero u b = omega arith
length-i64_bytes (suc k) u b = omega (arith, length-i64_bytes k (u / 256) (u % 256 ∷ b))

to_i64-to_u64 : (v : ℤ) → is_long v ≡ true → to_i64 (to_u64 v) ≡ v
unfolding to_i64 to_u64 is_long
to_i64-to_u64 (pos n) h = ground arith
to_i64-to_u64 (negsuc n) h = ground arith

to_u64-lt : (v : ℤ) → to_u64 v < 18446744073709551616
unfolding to_u64
to_u64-lt (pos n) = omega arith
to_u64-lt (negsuc n) = omega arith

-- An `int64_t` that `w_i64` wrote, of either sign, is read by `r_i64`, whatever follows.
pub r_i64-w_i64 :
    (out : Out) (v : ℤ) (rest : Bytes)
    → is_long v ≡ true
    → (bytes : Bytes) × ((w_i64 out v).file ≡ out.file ++ bytes)
      × (r_i64 (bytes ++ rest) ≡ some (v, rest))
unfolding w_i64 w_bytes r_i64 shift_in
r_i64-w_i64 out v rest h =
    let bytes = i64_bytes 8 (to_u64 v) [] in
    let eight : length bytes ≡ 8 = length-i64_bytes 8 (to_u64 v) [] in
    (
      bytes,
      refl,
      if_false {b = ltb (length (bytes ++ rest)) 8} _ _
            (ground (arith, length-append bytes rest, eight))
          ∙ ap (λ n. some (to_i64 (shift_in 0 (take n (bytes ++ rest))), drop n (bytes ++ rest)))
              (sym eight)
          ∙ ap (λ b. some (to_i64 (shift_in 0 b), drop (length bytes) (bytes ++ rest)))
              (take-length-append bytes rest)
          ∙ ap (λ r. some (to_i64 (shift_in 0 bytes), r)) (drop-length-append bytes rest)
          ∙ ap (λ u. some (to_i64 u, rest)) (shift_in-i64_bytes 8 (to_u64 v) [] (to_u64-lt v))
          ∙ ap (λ n. some (n, rest)) (to_i64-to_u64 v h),
    )
