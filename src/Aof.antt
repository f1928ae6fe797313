-- ===== src/Aof.antt =====
-- db.c: the record that `aof_append_len` appends to the append-only file, in the RESP format.
pub mod Read
use credish.Prelude.{
  ℕ, zero, suc, ◌+◌, ◌/◌, ◌%◌, Option, none, some, List, [], ◌∷◌, ◌++◌, length, ◌==◌, if◌then◌else◌,
}
use credish.Prelude.Int.{ℤ, pos, negsuc}
use credish.Sds.{Bytes}

-- The decimal digits of `n` before `digits`, on fuel.
unfoldable pub decimal : ℕ → ℕ → Bytes → Bytes
decimal zero n digits = digits
decimal (suc fuel) n digits =
    let more = decimal fuel (n / 10) ((48 + n % 10) ∷ digits) in
    if n / 10 == 0 then (48 + n % 10) ∷ digits else more

-- `snprintf` with `%zu`: each round has a tenth of the number left, so `n + 1` rounds are enough.
unfoldable pub print_ℕ : ℕ → Bytes
unfolding decimal
print_ℕ n = decimal (n + 1) n []

-- `snprintf` with `%d`.
unfoldable pub print_ℤ : ℤ → Bytes
print_ℤ (pos n) = print_ℕ n
print_ℤ (negsuc n) = 45 ∷ print_ℕ (suc n)

abbrev pub crlf : Bytes
crlf = 13 ∷ 10 ∷ []

-- `$len\r\ndata\r\n`
pub bulk : Bytes → Bytes
bulk arg = 36 ∷ print_ℕ (length arg) ++ crlf ++ arg ++ crlf

pub bulks : List Bytes → Bytes
bulks [] = []
bulks (arg ∷ argv) = bulk arg ++ bulks argv

-- The record of one command.
pub record_of : (cmd : Bytes) → List Bytes → Bytes
unfolding bulks
record_of cmd argv = 42 ∷ print_ℕ (length argv + 1) ++ crlf ++ bulk cmd ++ bulks argv

-- What the file holds after the call; `none` where `store->aof_file` is NULL.
pub aof_append_len : Option Bytes → Bytes → List Bytes → Option Bytes
unfolding record_of
aof_append_len none cmd argv = none
aof_append_len (some file) cmd argv = some (file ++ record_of cmd argv)
