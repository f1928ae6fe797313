-- ===== src/Replay/Tests.antt =====
-- The theorems on the replay, at a session of an LPUSH and a SET.
use credish.Prelude.{ℕ, ◌≡◌, refl, ap, true, false, Option, none, some, List, [], ◌∷◌, ◌==◌}
use credish.Prelude.Int.{pos, is_int}
use credish.Sds.{Bytes}
use credish.Keys.{sds_dict_type}
use credish.Adlist.{Adlist}
use credish.Aof.{print_ℤ, print_ℕ, decimal}
use credish.Aof.Read.RoundTrip.{fits}
use credish.Db.{db_create}
use credish.Db.Refines.{live, db_create_lem, db_create-empty}
use credish.Commands.{Clock, Store, py_set}
use credish.ListCommands.{ListReply, Value, converted, py_lpush, py_rpush}
use credish.ListCommands.Push.{ListsAreValid, Sequence}
use credish.ListCommands.Ends.{py_lpush-py_rpush}
use credish.ListCommands.Reads.{is_other}
use credish.Replay.{ListDb, replay_cmd}
use credish.Replay.Load.{aof_load}
use credish.Replay.Commands.{left, replay_cmd-commands}
use credish.Replay.Session.{Reach, started, later, set_step, lpush_step}
use credish.Replay.Recovery.{aof_load-Reach}
use credish.Hash.{pair_args}
use credish.Hash.Fields.{HashesAreValid, allows_hash}
use credish.Replay.Hashes.{Restored, replay_cmd-hset}

abbrev Lists : Type 0
Lists = Unit {0}

abbrev noon : Clock
noon i = pos 12

abbrev clocks : ℕ → Clock
clocks i j = pos 99

abbrev no_zset : Clock → ListDb Lists → List Bytes → Option (ListDb Lists)
no_zset clock db args = some db

abbrev empty : Store (Adlist Bytes) Lists
empty = record { db = db_create; aof_file = some [] }

abbrev key : Bytes
key = 107 ∷ []

abbrev vals : List (Option Bytes)
vals = some (97 ∷ []) ∷ none ∷ some (98 ∷ []) ∷ []

absent : live (pos 12) empty.db key ≡ none
absent = (db_create_lem {V = Value Lists}).1 (pos 12) key

no_lists : ListsAreValid empty.db
unfolding ListsAreValid
no_lists q l h = cc (h, (db_create-empty {V = Value Lists} q).0)

nothing : Sequence (live (pos 12) empty.db key) []
unfolding Sequence
nothing = rw absent refl

pushed : (r : Store (Adlist Bytes) Lists × ListReply) × (py_lpush noon empty key vals ≡ some r)
pushed =
    let p =
      py_lpush-py_rpush noon empty key vals [] (db_create_lem {V = Value Lists}).0 no_lists
        nothing in
    (p.0.0, p.0.1)

not_other : is_other (live (pos 12) empty.db key) ≡ false
unfolding is_other
not_other = ap is_other absent

reached : Reach (py_set noon pushed.0.0 (115 ∷ []) (98 ∷ []) (pos 0) (pos 0) false false (pos 2)).0
unfolding is_int fits converted print_ℤ print_ℕ decimal
reached =
    later (later started (lpush_step noon key vals refl not_other refl pushed.1))
      (set_step noon (115 ∷ []) (98 ∷ []) (pos 2) refl refl)

aof_load-Reach_example :
    (file : Bytes) × ((py_set noon pushed.0.0
        (115 ∷ [])
        (98 ∷ [])
        (pos 0)
        (pos 0)
        false
        false
        (pos 2)).0.aof_file
      ≡ some file)
    × (dbs' : ℕ → ListDb Lists) × (aof_load no_zset no_zset clocks (λ i. db_create) file
        ≡ some dbs')
    × (dbs' 0
        ≡ (py_set noon pushed.0.0 (115 ∷ []) (98 ∷ []) (pos 0) (pos 0) false false (pos 2)).0.db)
    × ((j : ℕ) → (0 == j) ≡ false → dbs' j ≡ db_create)
aof_load-Reach_example = aof_load-Reach no_zset no_zset clocks (λ i. db_create) reached refl

replay_cmd-commands_example :
    (replay_cmd no_zset no_zset noon empty.db
        ((83 ∷ 69 ∷ 84 ∷ []) ∷ key ∷ (98 ∷ []) ∷ (70 ∷ 77 ∷ 84 ∷ []) ∷ print_ℤ (pos 2) ∷ [])
      ≡ some (py_set noon empty key (98 ∷ []) (pos 0) (pos 0) false false (pos 2)).0.db)
    × (replay_cmd no_zset no_zset noon empty.db
          ((76 ∷ 80 ∷ 85 ∷ 83 ∷ 72 ∷ []) ∷ key ∷ converted vals)
        ≡ left (py_lpush noon empty key vals))
    × (replay_cmd no_zset no_zset noon empty.db
          ((82 ∷ 80 ∷ 85 ∷ 83 ∷ 72 ∷ []) ∷ key ∷ converted vals)
        ≡ left (py_rpush noon empty key vals))
unfolding is_int converted
replay_cmd-commands_example =
    replay_cmd-commands no_zset no_zset noon empty key (98 ∷ []) (pos 2) vals refl refl

no_hashes : HashesAreValid empty.db
unfolding HashesAreValid
no_hashes q d h = cc (h, (db_create-empty {V = Value Lists} q).0)

typed : allows_hash (live (pos 12) empty.db key) ≡ true
unfolding allows_hash
typed = ap allows_hash absent

abbrev pairs : List (Bytes × Bytes)
pairs = (98 ∷ [], 2 ∷ 97 ∷ []) ∷ (97 ∷ [], 2 ∷ 99 ∷ []) ∷ []

replay_cmd-hset_example :
    (db' : ListDb Lists) × (replay_cmd no_zset no_zset noon empty.db
        ((72 ∷ 83 ∷ 69 ∷ 84 ∷ []) ∷ key ∷ pair_args ((97 ∷ [], 2 ∷ 98 ∷ []) ∷ pairs))
      ≡ some db')
    × Restored empty.db key ((97 ∷ [], 2 ∷ 98 ∷ []) ∷ pairs) (live (pos 12) empty.db key) db'
replay_cmd-hset_example =
    replay_cmd-hset no_zset no_zset noon empty.db key (97 ∷ [], 2 ∷ 98 ∷ []) pairs
      (db_create_lem {V = Value Lists}).0 no_hashes typed
