-- ===== src/Replay/Load.antt =====
-- aof.c: `aof_load`, with `store_select_db` of db.c.
use credish.Prelude.{ℕ, ◌+◌, Option, none, some, List, [], ◌∷◌, if◌then◌else◌, ltb, update, ◌>>=◌}
use credish.Prelude.Int.{ℤ, pos, negsuc}
use credish.Sds.{Bytes}
use credish.Aof.Read.{atoi, file_commands}
use credish.Commands.{Clock}
use credish.Replay.{ListDb, credish_strcasecmp, replay_cmd}

-- The index of the database that `store_select_db` selects, if there is one: 16 databases.
unfoldable pub store_select_db : ℤ → Option ℕ
store_select_db (pos i) = if ltb i 16 then some i else none
store_select_db (negsuc i) = none

-- `db_id` after the test for SELECT.
unfoldable pub next_db : ℤ → List Bytes → ℤ
next_db db_id (cmd ∷ arg ∷ args) =
    if credish_strcasecmp cmd (83 ∷ 69 ∷ 76 ∷ 69 ∷ 67 ∷ 84 ∷ []) then atoi arg else db_id
next_db db_id _ = db_id

module _ {Z : Type 0}
    (replay_zadd replay_zrem : Clock → ListDb Z → List Bytes → Option (ListDb Z)) where
  -- `replay_cmd` on the databases of the store.
  unfoldable pub replay_on : Clock → (ℕ → (ListDb Z)) → ℤ → List Bytes → Option (ℕ → (ListDb Z))
  unfolding replay_cmd store_select_db
  replay_on clock dbs db_id argv = elim (store_select_db db_id) [
    | none ↦ some dbs
    | some i ↦ do db ← replay_cmd replay_zadd replay_zrem clock (dbs i) argv; some (update dbs i db)
  ]

  -- The commands from the `i`-th on, each with its reads of the clock.
  unfoldable pub replay_commands :
      (ℕ → Clock) → (i : ℕ) → (ℕ → (ListDb Z)) → ℤ → List (List Bytes) → Option (ℕ → (ListDb Z))
  unfolding replay_on next_db
  replay_commands clocks i dbs db_id [] = some dbs
  replay_commands clocks i dbs db_id (argv ∷ log) = do
    dbs' ← replay_on (clocks i) dbs (next_db db_id argv) argv
    replay_commands clocks (i + 1) dbs' (next_db db_id argv) log

  -- `aof_load` of a file with these bytes.
  unfoldable pub aof_load : (ℕ → Clock) → (ℕ → (ListDb Z)) → Bytes → Option (ℕ → (ListDb Z))
  unfolding replay_commands
  aof_load clocks dbs file = replay_commands clocks 0 dbs (pos 0) (file_commands file)
