-- ===== src/Db/Tests.antt =====
-- The theorems on a database, at one with a key whose deadline is 50 and one without a deadline.
use credish.Prelude.{ℕ, ◌≡◌, ap, true, Option, [], ◌∷◌, is_some}
use credish.Prelude.Int.{ℤ, pos}
use credish.Sds.{Bytes}
use credish.Keys.{sds_dict_type}
use credish.Dict.Placed.{view}
use credish.Db.{
  CredishDb, db_create, past, db_is_expired, db_lookup, db_set, db_set_expire, db_get_expire,
  deadline_or,
}
use credish.Db.Refines.{
  IsDb, live, Same, db_create_lem, db_is_expired_lem, db_set_lem, db_set_expire_lem,
  db_get_expire_lem, Writes-at,
}
use credish.Db.Lookup.{Purges, db_lookup_lem}

abbrev timed : Bytes
timed = 116 ∷ []

abbrev kept : Bytes
kept = 107 ∷ []

abbrev stored : CredishDb ℕ
stored = db_set (db_set db_create timed 1) kept 2

stored-IsDb : IsDb stored
stored-IsDb = (db_set_lem kept 2 (db_set_lem timed 1 db_create_lem.0).valid).valid

there : is_some (view stored.keys kept) ≡ true
there = ap is_some (Writes-at (db_set_lem kept 2 (db_set_lem timed 1 db_create_lem.0).valid)).0

abbrev example : CredishDb ℕ
example = db_set_expire stored kept (pos 50)

example-IsDb : IsDb example
example-IsDb = (db_set_expire_lem kept (pos 50) stored-IsDb there).valid

db_is_expired_lem_example :
    Same example (db_is_expired (pos 60) example kept).0
    × ((db_is_expired (pos 60) example kept).1 ≡ past (pos 60) (view example.expires kept))
db_is_expired_lem_example = db_is_expired_lem (pos 60) kept example-IsDb

db_get_expire_lem_example :
    Same example (db_get_expire example kept).0
    × ((db_get_expire example kept).1 ≡ deadline_or (view example.expires kept))
db_get_expire_lem_example = db_get_expire_lem kept example-IsDb

db_lookup_lem_example :
    Purges (pos 60) example kept (db_lookup (pos 60) example kept).0
    × ((db_lookup (pos 60) example kept).1 ≡ live (pos 60) example kept)
db_lookup_lem_example = db_lookup_lem (pos 60) kept example-IsDb

same_time : (t : Option ℤ) → past (pos 60) t ≡ true → past (pos 60) t ≡ true
same_time t h = h
