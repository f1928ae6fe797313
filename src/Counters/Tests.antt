-- ===== src/Counters/Tests.antt =====
-- The theorems on INCRBY and HINCRBY, at a key that holds 41 and at one that is absent.
use credish.Prelude.{◌≡◌, refl, ◌∙◌, ap, true, none, some, [], ◌∷◌}
use credish.Prelude.Int.{is_long, pos, negsuc, ◌+ℤ◌}
use credish.Sds.{Bytes}
use credish.Keys.{sds_dict_type}
use credish.Dict.Placed.{view}
use credish.Dict.Find.{dict_create_lem}
use credish.Object.{CredishObject, obj_string}
use credish.Aof.{print_ℤ}
use credish.Db.{CredishDb, db_create, db_set}
use credish.Db.Refines.{live, db_create_lem, db_create-empty, db_set_lem, Writes-at}
use credish.Commands.{Clock, Store}
use credish.Hash.Fields.{HashesAreValid, allows_hash, fields_of}
use credish.Counters.{CountReply, field_number, py_incrby, py_hincrby}
use credish.Counters.Strings.{parse_number-print_ℤ, Counts, Counted, py_incrby_lem}
use credish.Counters.Fields.{HashCounted, py_hincrby_lem}

abbrev Object : Type 0
Object = CredishObject (Unit {0}) (Unit {0})

abbrev noon : Clock
noon i = pos 12

abbrev key : Bytes
key = 107 ∷ []

abbrev before : CredishDb Object
before = db_create

abbrev forty_one : Store (Unit {0}) (Unit {0})
forty_one = record {
  db = db_set before key (obj_string (pos 3) (print_ℤ (pos 41)));
  aof_file = some [];
}

abbrev empty : Store (Unit {0}) (Unit {0})
empty = record { db = before; aof_file = none }

found : live (pos 12) forty_one.db key ≡ some (obj_string (pos 3) (print_ℤ (pos 41)))
unfolding live
found =
    let w =
      Writes-at
        (db_set_lem key (obj_string (pos 3) (print_ℤ (pos 41))) (db_create_lem {V = Object}).0) in
    rw (w.1, w.0, (db_create-empty {V = Object} key).1) refl

counts : Counts (live (pos 12) forty_one.db key) (pos 41)
unfolding Counts is_long
counts = rw found (parse_number-print_ℤ (pos 41) refl)

py_incrby_lem_example :
    (r : Store (Unit {0}) (Unit {0}) × CountReply) × (py_incrby noon forty_one key (negsuc 1)
      ≡ some r)
    × Counted forty_one key (negsuc 1) (pos 41 +ℤ negsuc 1) (live (pos 12) forty_one.db key) r
    × Counts (view r.0.db.keys key) (pos 41 +ℤ negsuc 1)
unfolding is_long ◌+ℤ◌
py_incrby_lem_example =
    py_incrby_lem noon key (negsuc 1) (pos 41)
      (db_set_lem key (obj_string (pos 3) (print_ℤ (pos 41))) (db_create_lem {V = Object}).0).valid
      counts refl

absent : live (pos 12) empty.db key ≡ none
absent = (db_create_lem {V = Object}).1 (pos 12) key

no_hashes : HashesAreValid empty.db
unfolding HashesAreValid
no_hashes q d h = cc (h, (db_create-empty {V = Object} q).0)

typed : allows_hash (live (pos 12) empty.db key) ≡ true
unfolding allows_hash
typed = ap allows_hash absent

no_number : field_number (view (fields_of (live (pos 12) empty.db key)) key) ≡ some (pos 0)
unfolding field_number
no_number =
    ap (λ o. field_number (view (fields_of o) key)) absent
    ∙ ap field_number ((dict_create_lem {K = Bytes} {V = Bytes}).1 key)

py_hincrby_lem_example :
    (r : Store (Unit {0}) (Unit {0}) × CountReply) × (py_hincrby noon empty key key (negsuc 6)
      ≡ some r)
    × HashCounted empty key key (pos 0 +ℤ negsuc 6) (live (pos 12) empty.db key) r
    × HashesAreValid r.0.db
    × (field_number (some (3 ∷ print_ℤ (pos 0 +ℤ negsuc 6))) ≡ some (pos 0 +ℤ negsuc 6))
unfolding is_long ◌+ℤ◌
py_hincrby_lem_example =
    py_hincrby_lem noon key key (negsuc 6) (pos 0) (db_create_lem {V = Object}).0 no_hashes typed
      no_number refl
