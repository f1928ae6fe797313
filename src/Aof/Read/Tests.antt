-- ===== src/Aof/Read/Tests.antt =====
-- The theorems on the append-only file, at the records of two commands, one with a newline in a value.
use credish.Prelude.{◌≡◌, refl, some, List, [], ◌∷◌, arith}
use credish.Sds.{Bytes}
use credish.Aof.Read.{load_commands, file_commands}
use credish.Aof.Read.RoundTrip.{append_all, fits, file_commands-aof_append_len}
use credish.Aof.Read.Ends.{load_commands-enough}

abbrev two_records : List (Bytes × List Bytes)
two_records =
    (83 ∷ 69 ∷ 84 ∷ [], (107 ∷ []) ∷ (13 ∷ 10 ∷ 36 ∷ []) ∷ [])
    ∷ (68 ∷ 69 ∷ 76 ∷ [], (107 ∷ []) ∷ [] ∷ [])
    ∷ []

file_commands-aof_append_len_example :
    (file : Bytes) × (append_all (some []) two_records ≡ some file)
    × (file_commands file
        ≡ ((83 ∷ 69 ∷ 84 ∷ []) ∷ (107 ∷ []) ∷ (13 ∷ 10 ∷ 36 ∷ []) ∷ [])
          ∷ ((68 ∷ 69 ∷ 76 ∷ []) ∷ (107 ∷ []) ∷ [] ∷ [])
          ∷ [])
unfolding fits
file_commands-aof_append_len_example = file_commands-aof_append_len two_records refl

-- A command of one argument, then one that is not there in full.
abbrev file : Bytes
file = 42 ∷ 49 ∷ 10 ∷ 36 ∷ 49 ∷ 10 ∷ 65 ∷ 13 ∷ 10 ∷ 42 ∷ 50 ∷ 10 ∷ 36 ∷ []

load_commands-enough_example : load_commands 20 file ≡ load_commands 13 file
load_commands-enough_example = load_commands-enough 20 13 file (omega arith) (omega arith)
