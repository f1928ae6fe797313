-- ===== src/Aof/Read.antt =====
-- aof.c: the reading of an append-only file, with the functions of the C library that it calls.
-- A file is what is left to read of it.
pub mod Digits
pub mod Lines
pub mod RoundTrip
pub mod Ends
pub mod Numbers
mod Tests
use credish.Prelude.{
  ℕ, zero, suc, ◌+◌, ◌-◌, ◌*◌, Bool, true, false, ◌&&◌, ◌||◌, Option, none, some, List, [], ◌∷◌,
  length, drop, take, if◌then◌else◌, ◌==◌, ltb, leb, ◌>>=◌,
}
use credish.Prelude.Int.{ℤ, pos, negsuc, sub_ℕ, to_int}
use credish.Sds.{Bytes}

-- The characters up to the newline, with it, or `limit` of them, and what follows.
pub take_line : (limit : ℕ) → Bytes → Bytes × Bytes
take_line zero file = ([], file)
take_line (suc limit) [] = ([], [])
take_line (suc limit) (c ∷ file) =
    let rest = take_line limit file in if c == 10 then (c ∷ [], file) else (c ∷ rest.0, rest.1)

-- `fgets` with a buffer of `limit + 1` bytes.
pub fgets : (limit : ℕ) → Bytes → Option (Bytes × Bytes)
unfolding take_line
fgets limit [] = none
fgets limit (c ∷ file) = some (take_line limit (c ∷ file))

-- `isspace`
is_space : ℕ → Bool
is_space c = (c == 32) || (leb 9 c && leb c 13)

pub is_digit : ℕ → Bool
is_digit c = leb 48 c && leb c 57

-- The number that the digits in front make, after `acc`.
pub digits : (acc : ℕ) → Bytes → ℕ
unfolding is_digit
digits acc [] = acc
digits acc (c ∷ str) =
    let rest = digits (acc * 10 + (c - 48)) str in if is_digit c then rest else acc

-- The two limits of a `long long`.
clamp_pos : ℕ → ℤ
clamp_pos n = if ltb n 9223372036854775808 then pos n else pos 9223372036854775807

clamp_neg : ℕ → ℤ
clamp_neg n = if ltb n 9223372036854775808 then sub_ℕ 0 n else negsuc 9223372036854775807

pub signed : Bytes → ℤ
unfolding digits clamp_pos clamp_neg
signed [] = pos 0
signed (c ∷ str) =
    if c == 45
    then clamp_neg (digits 0 str)
    else if c == 43
    then clamp_pos (digits 0 str)
    else clamp_pos (digits 0 (c ∷ str))

-- `strtoll(str, NULL, 10)`, and `atoll`; the string ends where the list does.
pub strtoll : Bytes → ℤ
unfolding is_space signed
strtoll [] = pos 0
strtoll (c ∷ str) = let rest = strtoll str in if is_space c then rest else signed (c ∷ str)

-- What follows the digits in front.
pub after_digits : Bytes → Bytes
unfolding is_digit
after_digits [] = []
after_digits (c ∷ str) = let rest = after_digits str in if is_digit c then rest else c ∷ str

-- What follows the number after its sign, `str` if there is none.
unfoldable pub after_sign : (str rest : Bytes) → Bytes
unfolding is_digit after_digits
after_sign str [] = str
after_sign str (c ∷ rest) = if is_digit c then after_digits rest else str

pub after_spaces : (str rest : Bytes) → Bytes
unfolding is_space after_sign
after_spaces str [] = str
after_spaces str (c ∷ rest) =
    let more = after_spaces str rest in
    if is_space c
    then more
    else if (c == 45) || (c == 43)
    then after_sign str rest
    else after_sign str (c ∷ rest)

-- What `end` of `strtoll(str, &end, 10)` points to.
pub strtoll_end : Bytes → Bytes
unfolding after_spaces
strtoll_end str = after_spaces str str

-- `atoi`, by way of `strtol` with its 64 bits.
pub atoi : Bytes → ℤ
unfolding strtoll
atoi str = to_int (strtoll str)

-- `fread` of `len` bytes, in full, and two `fgetc`.
pub read_data : ℤ → Bytes → Option (Bytes × Bytes)
read_data (negsuc n) file = none
read_data (pos len) file =
    if ltb (length file) len then none else some (take len file, drop 2 (drop len file))

pub bulk_of : (line : Bytes) → (file : Bytes) → Option (Bytes × Bytes)
unfolding read_data atoi
bulk_of [] file = none
bulk_of (c ∷ line) file = if c == 36 then read_data (atoi line) file else none

-- The string and what follows; `none` for NULL.
pub read_bulk : Bytes → Option (Bytes × Bytes)
unfolding fgets bulk_of
read_bulk file = do r ← fgets 255 file; bulk_of r.0 r.1

-- The loop that reads `argv`.
pub read_argv : (n : ℕ) → Bytes → Option (List Bytes × Bytes)
unfolding read_bulk
read_argv zero file = some ([], file)
read_argv (suc n) file = do
  arg ← read_bulk file
  rest ← read_argv n arg.1
  some (arg.0 ∷ rest.0, rest.1)

-- The number of arguments that a line announces, 0 for a line that is skipped.
pub argc_of : (line : Bytes) → ℕ
unfolding atoi
argc_of [] = 0
argc_of (c ∷ line) = if c == 42 then elim (atoi line) [ pos n ↦ n | negsuc n ↦ 0 ] else 0

command_of : (argc : ℕ) → Bytes → Option (Option (List Bytes) × Bytes)
unfolding read_argv
command_of zero file = some (none, file)
command_of (suc n) file = do r ← read_argv (suc n) file; some (some r.0, r.1)

-- A round of the loop of `aof_load`: it has read a command or skipped a line, with what follows, or
-- `none` at the end of the file and where a command is not read in full.
pub read_command : Bytes → Option (Option (List Bytes) × Bytes)
unfolding fgets argc_of command_of
read_command file = do r ← fgets 1023 file; command_of (argc_of r.0) r.1

-- The loop of `aof_load`: the argument arrays that it replays, in order.
pub load_commands : (fuel : ℕ) → Bytes → List (List Bytes)
unfolding read_command
load_commands zero file = []
load_commands (suc fuel) file = elim (read_command file) [
  | none ↦ []
  | some (none, rest) ↦ load_commands fuel rest
  | some (some argv, rest) ↦ argv ∷ load_commands fuel rest
]

-- Each round reads a character at least, so that as many rounds as the file has characters are enough.
pub file_commands : Bytes → List (List Bytes)
unfolding load_commands
file_commands file = load_commands (length file) file
