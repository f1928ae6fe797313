-- ===== src/Rdb/Words.antt =====
-- persistence/rdb.c: a number or a string that was written is read.
use credish.Prelude.{
  ℕ, ◌%◌, ◌<◌, ◌≡◌, refl, ◌∙◌, ap, some, [], ◌∷◌, ◌++◌, length, length-append, take, drop,
  take-length-append, append_assoc, arith, ltb, if_false, bind_some,
}
use credish.Sds.{Bytes}
use credish.Rdb.{Out, w_bytes, u32_bytes, w_u32, w_blob, w_sds, r_u32, read_string, r_sds}

pub r_u32-u32_bytes :
    (v : ℕ) (rest : Bytes) → v < 4294967296 → r_u32 (u32_bytes v ++ rest) ≡ some (v, rest)
unfolding r_u32 u32_bytes
r_u32-u32_bytes v rest h = ap (λ n. some (n, rest)) (omega arith)

-- The bytes that `w_sds` adds.
pub sds_bytes : Bytes → Bytes
sds_bytes s = u32_bytes (length s) ++ s

pub drop-length-append : (xs ys : Bytes) → drop (length xs) (xs ++ ys) ≡ ys
drop-length-append [] ys = refl
drop-length-append (x ∷ xs) ys = drop-length-append xs ys

take_all : (xs : Bytes) → take (length xs) xs ≡ xs
take_all [] = refl
take_all (x ∷ xs) = ap (λ l. x ∷ l) (take_all xs)

pub file-w_sds :
    (out : Out) (s : Bytes) → length s < 4294967296 → (w_sds out s).file ≡ out.file ++ sds_bytes s
unfolding w_sds w_blob w_u32 w_bytes sds_bytes
file-w_sds out s h =
    let same : length s % 4294967296 ≡ length s = omega arith in
    ap (λ n. (out.file ++ u32_bytes n) ++ take n s) same
    ∙ ap (λ b. (out.file ++ u32_bytes (length s)) ++ b) (take_all s)
    ∙ append_assoc out.file (u32_bytes (length s)) s

pub r_sds-sds_bytes :
    (s rest : Bytes) → length s < 4294967296 → r_sds (sds_bytes s ++ rest) ≡ some (s, rest)
unfolding r_sds sds_bytes read_string
r_sds-sds_bytes s rest h =
    ap r_sds (append_assoc (u32_bytes (length s)) s rest)
    ∙ bind_some _ (r_u32-u32_bytes (length s) (s ++ rest) h)
    ∙ if_false {b = ltb (length (s ++ rest)) (length s)} _ _ (ground (arith, length-append s rest))
    ∙ ap (λ x. some (x, drop (length s) (s ++ rest))) (take-length-append s rest)
    ∙ ap (λ x. some (s, x)) (drop-length-append s rest)
