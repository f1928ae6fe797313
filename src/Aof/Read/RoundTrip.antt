-- ===== src/Aof/Read/RoundTrip.antt =====
-- db.c and aof.c: `aof_load` reads the commands that `aof_append_len` wrote.
use credish.Prelude.{
  ℕ, zero, suc, ◌+◌, ◌<◌, ◌≤◌, ◌≡◌, refl, sym, ◌∙◌, ap, Bool, true, ◌&&◌, Option, none, some, List,
  [], ◌∷◌, ◌++◌, length, length-append, append_assoc, append-nil, map, arith, ltb,
}
use credish.Sds.{Bytes}
use credish.Aof.{record_of, aof_append_len}
use credish.Aof.Read.{fgets, read_command, load_commands, file_commands}
use credish.Aof.Read.Lines.{fit, read_command-record_of}

-- What the file holds after the calls of `aof_append_len`, one after the other.
unfoldable pub append_all : Option Bytes → List (Bytes × List Bytes) → Option Bytes
append_all file [] = file
append_all file ((cmd, argv) ∷ log) = append_all (aof_append_len file cmd argv) log

-- The lengths and the numbers of arguments are of type `int`.
unfoldable pub fits : List (Bytes × List Bytes) → Bool
fits [] = true
fits ((cmd, argv) ∷ log) = fit (cmd ∷ argv) && ltb (length argv + 1) 2147483648 && fits log

records : List (Bytes × List Bytes) → Bytes
records [] = []
records ((cmd, argv) ∷ log) = record_of cmd argv ++ records log

append_all-records :
    (file : Bytes) (log : List (Bytes × List Bytes))
    → append_all (some file) log ≡ some (file ++ records log)
unfolding append_all records aof_append_len
append_all-records file [] = ap some (sym (append-nil file))
append_all-records file ((cmd, argv) ∷ log) =
    append_all-records (file ++ record_of cmd argv) log
    ∙ ap some (append_assoc file (record_of cmd argv) (records log))

length-record_of : (cmd : Bytes) (argv : List Bytes) → 0 < length (record_of cmd argv)
unfolding record_of
length-record_of cmd argv = omega arith

load_commands-step :
    (fuel : ℕ) (file : Bytes) {argv : List Bytes} {rest : Bytes}
    → read_command file ≡ some (some argv, rest)
    → load_commands (suc fuel) file ≡ argv ∷ load_commands fuel rest
unfolding load_commands
load_commands-step fuel file e =
    ap
      (λ m. elim m [
        | none ↦ []
        | some (none, rest) ↦ load_commands fuel rest
        | some (some argv, rest) ↦ argv ∷ load_commands fuel rest
      ])
      e

pub load_commands-nil : (fuel : ℕ) → load_commands fuel [] ≡ []
unfolding load_commands read_command fgets
load_commands-nil zero = refl
load_commands-nil (suc fuel) = refl

load_commands-records :
    (fuel : ℕ) (log : List (Bytes × List Bytes))
    → fits log ≡ true
    → length (records log) ≤ fuel
    → load_commands fuel (records log) ≡ map (λ c. c.0 ∷ c.1) log
unfolding records fits
load_commands-records fuel [] h k = load_commands-nil fuel
load_commands-records zero ((cmd, argv) ∷ log) h k =
    absurd
      (omega (arith, length-append (record_of cmd argv) (records log), length-record_of cmd argv))
load_commands-records (suc fuel) ((cmd, argv) ∷ log) h k =
    load_commands-step fuel _
      (read_command-record_of cmd argv (records log) (ground arith) (ground arith))
    ∙ ap (λ l. (cmd ∷ argv) ∷ l)
        (load_commands-records fuel log (ground arith) (
          omega
            (arith, length-append (record_of cmd argv) (records log), length-record_of cmd argv)))

-- The commands that `aof_append_len` appends to an empty file, one after the other, are the ones that
-- `aof_load` reads from it, with their arguments and in order. Lengths and numbers of arguments are
-- of type `int`; the arguments may hold any bytes.
pub file_commands-aof_append_len :
    (log : List (Bytes × List Bytes))
    → fits log ≡ true
    → (file : Bytes) × (append_all (some []) log ≡ some file)
      × (file_commands file ≡ map (λ c. c.0 ∷ c.1) log)
unfolding file_commands
file_commands-aof_append_len log h = (
  records log,
  append_all-records [] log,
  load_commands-records (length (records log)) log h (omega arith),
)
