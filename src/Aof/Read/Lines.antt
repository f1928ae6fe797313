-- ===== src/Aof/Read/Lines.antt =====
-- aof.c: the reading of one record of the append-only file, as `aof_append_len` of db.c writes it.
use credish.Prelude.{
  ℕ, zero, suc, ◌+◌, ◌<◌, ◌≤◌, ◌≡◌, refl, ◌∙◌, ap, Bool, true, false, ◌&&◌, some, List, [], ◌∷◌,
  ◌++◌, length, drop, length-append, append_assoc, take-length-append, arith, ◌==◌, ltb, if_false,
  bind_some,
}
use credish.Prelude.Int.{pos, negsuc}
use credish.Sds.{Bytes}
use credish.Aof.{print_ℕ, crlf, bulk, bulks, record_of}
use credish.Aof.Read.{
  take_line, fgets, read_data, bulk_of, read_bulk, read_argv, argc_of, command_of, read_command,
}
use credish.Aof.Read.Digits.{one_line, atoi-print_ℕ, length-print_ℕ, one_line-print_ℕ}

take_line-crlf :
    (limit : ℕ) (str file : Bytes)
    → one_line str ≡ true
    → length str + 2 ≤ limit
    → take_line limit (str ++ 13 ∷ 10 ∷ file) ≡ (str ++ crlf, file)
unfolding take_line
take_line-crlf zero str file h k = absurd (omega arith)
take_line-crlf (suc zero) [] file h k = absurd (omega arith)
take_line-crlf (suc (suc limit)) [] file h k = refl
take_line-crlf (suc limit) (c ∷ str) file h k =
    if_false {b = c == 10} _ _ (ground arith)
    ∙ ap (λ r. (c ∷ r.0, r.1)) (take_line-crlf limit str file (ground arith) (omega arith))

drop-length-append : (xs ys : Bytes) → drop (length xs) (xs ++ ys) ≡ ys
drop-length-append [] ys = refl
drop-length-append (x ∷ xs) ys = drop-length-append xs ys

read_data-append :
    (arg file : Bytes) → read_data (pos (length arg)) (arg ++ 13 ∷ 10 ∷ file) ≡ some (arg, file)
unfolding read_data
read_data-append arg file =
    if_false {b = ltb (length (arg ++ 13 ∷ 10 ∷ file)) (length arg)} _ _
      (ground (arith, length-append arg (13 ∷ 10 ∷ file)))
    ∙ ap (λ d. some (d, drop 2 (drop (length arg) (arg ++ 13 ∷ 10 ∷ file))))
        (take-length-append arg (13 ∷ 10 ∷ file))
    ∙ ap (λ d. some (arg, drop 2 d)) (drop-length-append arg (13 ∷ 10 ∷ file))

-- A line that announces a number.
fgets-number :
    (c limit n : ℕ) (file : Bytes)
    → (c == 10) ≡ false
    → 12 < limit
    → n < 2147483648
    → fgets limit (c ∷ print_ℕ n ++ 13 ∷ 10 ∷ file) ≡ some (c ∷ print_ℕ n ++ crlf, file)
unfolding fgets
fgets-number c limit n file h k small = ap some (
    take_line-crlf limit (c ∷ print_ℕ n) file (ground (arith, one_line-print_ℕ n))
      (omega (arith, length-print_ℕ n small)))

append_crlf : (arg file : Bytes) → (arg ++ crlf) ++ file ≡ arg ++ 13 ∷ 10 ∷ file
append_crlf arg file = append_assoc arg crlf file

-- What `read_bulk` is given where a string was written.
pub bulk-append :
    (arg file : Bytes)
    → bulk arg ++ file ≡ 36 ∷ print_ℕ (length arg) ++ 13 ∷ 10 ∷ (arg ++ 13 ∷ 10 ∷ file)
unfolding bulk
bulk-append arg file = simp append_assoc refl

pub read_bulk-bulk :
    (arg file : Bytes) → length arg < 2147483648 → read_bulk (bulk arg ++ file) ≡ some (arg, file)
unfolding read_bulk bulk_of
read_bulk-bulk arg file small =
    ap read_bulk (bulk-append arg file)
    ∙ bind_some (λ x. bulk_of x.0 x.1)
        (fgets-number 36 255 (length arg) (arg ++ 13 ∷ 10 ∷ file) refl (omega arith) small)
    ∙ ap (λ n. read_data n (arg ++ 13 ∷ 10 ∷ file)) (atoi-print_ℕ (length arg) crlf small refl)
    ∙ read_data-append arg file

-- The lengths of the strings are of type `int`.
abbrev pub fit : List Bytes → Bool
fit [] = true
fit (arg ∷ argv) = ltb (length arg) 2147483648 && fit argv

pub read_argv-bulks :
    (argv : List Bytes) (file : Bytes)
    → fit argv ≡ true
    → read_argv (length argv) (bulks argv ++ file) ≡ some (argv, file)
unfolding read_argv bulks
read_argv-bulks [] file h = refl
read_argv-bulks (arg ∷ argv) file h =
    ap (read_argv (suc (length argv))) (append_assoc (bulk arg) (bulks argv) file)
    ∙ bind_some _ (read_bulk-bulk arg (bulks argv ++ file) (ground arith))
    ∙ bind_some _ (read_argv-bulks argv file (ground arith))

argc-print_ℕ : (n : ℕ) → n < 2147483648 → argc_of (42 ∷ print_ℕ n ++ crlf) ≡ n
unfolding argc_of
argc-print_ℕ n small =
    ap (λ z. elim z [ pos k ↦ k | negsuc k ↦ 0 ]) (atoi-print_ℕ n crlf small refl)

record-append :
    (cmd : Bytes) (argv : List Bytes) (file : Bytes)
    → record_of cmd argv ++ file
      ≡ 42 ∷ print_ℕ (length argv + 1) ++ 13 ∷ 10 ∷ (bulks (cmd ∷ argv) ++ file)
unfolding record_of bulks
record-append cmd argv file = simp append_assoc refl

-- A round of the loop on the record of a command.
pub read_command-record_of :
    (cmd : Bytes) (argv : List Bytes) (file : Bytes)
    → fit (cmd ∷ argv) ≡ true
    → length argv + 1 < 2147483648
    → read_command (record_of cmd argv ++ file) ≡ some (some (cmd ∷ argv), file)
unfolding read_command command_of
read_command-record_of cmd argv file h small =
    ap read_command (record-append cmd argv file)
    ∙ bind_some (λ r. command_of (argc_of r.0) r.1)
        (fgets-number 42 1023 (length argv + 1) (bulks (cmd ∷ argv) ++ file) refl (omega arith)
          small)
    ∙ ap (λ n. command_of n (bulks (cmd ∷ argv) ++ file))
        (argc-print_ℕ (length argv + 1) small ∙ one_more)
    ∙ bind_some _ (read_argv-bulks (cmd ∷ argv) file h)
  where
    one_more : length argv + 1 ≡ suc (length argv)
    one_more = omega arith
