-- ===== src/Commands/Tests.antt =====
-- The theorems on the commands, at a database with a key whose deadline is 50, read at time 60.
use credish.Prelude.{
  ℕ, ◌+◌, ◌≡◌, refl, ap, true, false, Option, none, some, List, [], ◌∷◌, is_some, if◌then◌else◌,
}
use credish.Prelude.Int.{ℤ, pos, negsuc, mul_ℕ, div_ℕ, ◌+ℤ◌, ◌-ℤ◌, is_nonneg}
use credish.Sds.{Bytes}
use credish.Keys.{sds_dict_type}
use credish.Dict.{dict_size}
use credish.Dict.Placed.{view}
use credish.Object.{CredishObject, obj_string}
use credish.Db.{CredishDb, db_create, past, db_set, db_set_expire, deadline_or}
use credish.Db.Refines.{
  IsDb, live, Writes, Same, Writes-at, db_create_lem, db_set_lem, db_set_expire_lem,
}
use credish.Db.Lookup.{Purges}
use credish.Commands.{
  Reply, none_reply, bool_reply, int_reply, raised, bytes_reply, Clock, Store, py_get, py_set,
  py_expire, py_pexpire, py_persist, py_ttl, py_pttl, py_delete,
}
use credish.Commands.Expiry.{Sets, remaining, py_expire_lem, py_persist_lem, py_ttl_lem}
use credish.Commands.Set.{Touches, Leaves, holds, set_deadline, py_set_lem, py_get-py_set}
use credish.Commands.Counts.{among, Forward, py_delete_lem}

abbrev Object : Type 0
Object = CredishObject (Unit {0}) (Unit {0})

abbrev key : Bytes
key = 107 ∷ []

abbrev value : Object
value = obj_string (pos 2) (118 ∷ [])

abbrev stored : CredishDb Object
stored = db_set db_create key value

stored-Writes : Writes db_create key (some value) (view (db_create {V = Object}).expires key) stored
stored-Writes = db_set_lem key value db_create_lem.0

abbrev example : CredishDb Object
example = db_set_expire stored key (pos 50)

example-Writes : Writes stored key (view stored.keys key) (some (pos 50)) example
example-Writes =
    db_set_expire_lem key (pos 50) stored-Writes.valid (ap is_some (Writes-at stored-Writes).0)

abbrev store : Store (Unit {0}) (Unit {0})
store = record { db = example; aof_file = some [] }

abbrev sixty : Clock
sixty i = pos 60

abbrev keys : List (Option Bytes)
keys = some key ∷ none ∷ some key ∷ []

same_time : (t : Option ℤ) → past (pos 60) t ≡ true → past (pos 60) t ≡ true
same_time t h = h

sixty-Forward : Forward sixty
sixty-Forward i j t h p = p

py_expire_lem_example :
    Sets (pos 60) example key (pos 60 +ℤ mul_ℕ (pos 5) 1000) (py_expire sixty example key (pos 5))
    × Sets (pos 60) example key (pos 60 +ℤ pos 5) (py_pexpire sixty example key (pos 5))
py_expire_lem_example = py_expire_lem sixty key (pos 5) example-Writes.valid

py_persist_lem_example :
    ((py_persist example key).1 ≡ bool_reply (is_nonneg (deadline_or (view example.expires key))))
    × (is_nonneg (deadline_or (view example.expires key)) ≡ true
        → Writes example key (view example.keys key) none (py_persist example key).0)
    × (is_nonneg (deadline_or (view example.expires key)) ≡ false
        → Same example (py_persist example key).0)
py_persist_lem_example = py_persist_lem key example-Writes.valid

py_ttl_lem_example :
    (Purges (pos 60) example key (py_ttl sixty example key).0
      × ((py_ttl sixty example key).1
          ≡ int_reply (
              if is_some (live (pos 60) example key)
              then remaining (λ t. div_ℕ (t -ℤ pos 60) 1000) (view example.expires key)
              else negsuc 1)))
    × Purges (pos 60) example key (py_pttl sixty example key).0
    × ((py_pttl sixty example key).1
        ≡ int_reply (
            if is_some (live (pos 60) example key)
            then remaining (λ t. t -ℤ pos 60) (view example.expires key)
            else negsuc 1))
py_ttl_lem_example = py_ttl_lem sixty key example-Writes.valid

py_delete_lem_example :
    IsDb (py_delete example keys).0
    × ((q : Bytes)
        → (view (py_delete example keys).0.keys q
            ≡ (if among q keys then none else view example.keys q))
          × (view (py_delete example keys).0.expires q
              ≡ (if among q keys then none else view example.expires q)))
    × ((n : ℕ) × ((py_delete example keys).1 ≡ raised)
        × (n + dict_size (py_delete example keys).0.keys ≡ dict_size example.keys))
py_delete_lem_example = py_delete_lem keys example-Writes.valid

abbrev after : Store (Unit {0}) (Unit {0}) × Reply
after = py_set sixty store key (119 ∷ []) (negsuc 0) (negsuc 0) false false (pos 2)

py_set_lem_example :
    Touches example key after.0.db
    × (holds sixty example key false false ≡ false
        → (after.1 ≡ none_reply)
          × (after.0.aof_file ≡ some [])
          × Leaves false example key after.0.db)
    × (holds sixty example key false false ≡ true
        → (after.1 ≡ bool_reply true)
          × (view after.0.db.keys key ≡ some (obj_string (pos 2) (119 ∷ [])))
          × (view after.0.db.expires key
              ≡ set_deadline sixty (negsuc 0) (negsuc 0) (view example.expires key)))
py_set_lem_example =
    py_set_lem sixty {store = store} key (119 ∷ []) (negsuc 0) (negsuc 0) false false (pos 2)
      example-Writes.valid same_time

unconditional : holds sixty example key false false ≡ true
unfolding holds
unconditional = refl

py_get-py_set_example : (py_get sixty after.0.db key).1 ≡ (
    if past (pos 60) (set_deadline sixty (negsuc 0) (negsuc 0) (view example.expires key))
    then none_reply
    else bytes_reply (119 ∷ []))
py_get-py_set_example =
    py_get-py_set sixty sixty store key (119 ∷ []) (negsuc 0) (negsuc 0) false false (pos 2)
      example-Writes.valid same_time unconditional

-- A SET on a key whose deadline has passed, before a sweep removes it, is lost.
set_over_expired : (py_get sixty after.0.db key).1 ≡ none_reply
unfolding set_deadline
set_over_expired = rw ((Writes-at example-Writes).1) at py_get-py_set_example
