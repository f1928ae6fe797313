-- ===== src/Expire/Tests.antt =====
-- The theorem on a sweep, at a database with a key whose deadline is 50, swept at time 60.
use credish.Prelude.{ℕ, ap, ◌∷◌, [], is_some}
use credish.Prelude.Int.{pos}
use credish.Sds.{Bytes}
use credish.Db.{CredishDb, db_create, db_set, db_set_expire}
use credish.Db.Refines.{Writes-at, db_create_lem, db_set_lem, db_set_expire_lem}
use credish.Commands.{Clock}
use credish.Expire.{sweep_db}
use credish.Expire.Sweep.{Before, Shows, sweep_db_lem}

abbrev key : Bytes
key = 107 ∷ []

abbrev stored : CredishDb ℕ
stored = db_set db_create key 1

abbrev example : CredishDb ℕ
example = db_set_expire stored key (pos 50)

abbrev sixty : ℕ → Clock
sixty n i = pos 60

same_time : (k : ℕ) → Before (sixty k) (pos 60)
same_time k i t h = h

sweep_db_lem_example : Shows (pos 60) example (sweep_db sixty (λ n. n) example)
sweep_db_lem_example =
    sweep_db_lem sixty (λ n. n) (pos 60)
      (db_set_expire_lem key (pos 50) (db_set_lem key 1 db_create_lem.0).valid
        (ap is_some (Writes-at (db_set_lem key 1 db_create_lem.0)).0)).valid
      same_time
