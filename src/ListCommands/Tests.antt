-- ===== src/ListCommands/Tests.antt =====
-- The theorems on the commands on lists, at a database with a list of two values and a string.
use credish.Prelude.{
  ◌≡◌, refl, ap, true, Option, none, some, List, [], ◌∷◌, ◌++◌, arith, if◌then◌else◌, ◌==◌,
}
use credish.Prelude.Int.{pos, negsuc, is_int}
use credish.Sds.{Bytes}
use credish.Keys.{sds_dict_type}
use credish.Adlist.{Nodes, Adlist}
use credish.Adlist.Linked.{Linked, Holds, values}
use credish.Object.{obj_list, obj_string}
use credish.Db.{CredishDb, db_create, db_set, db_lookup}
use credish.Db.Refines.{live, db_create_lem, db_create-empty, db_set_lem, Writes-at}
use credish.Commands.{Clock, Store}
use credish.ListCommands.{
  ListReply, Value, converted, py_lpush, py_rpush, py_lrange, py_llen, list_reply, count_reply,
  wrong_type,
}
use credish.ListCommands.Push.{ListsAreValid, Sequence, Pushed}
use credish.ListCommands.Ends.{reverse_onto, py_lpush-py_rpush, touched-ListsAreValid}
use credish.ListCommands.Range.{slice}
use credish.ListCommands.Reads.{is_other, py_lrange-py_llen, py_lpush-other}
use credish.Commands.Set.{Writes-Touches}

abbrev nodes : Nodes Bytes
nodes a =
    if a == 0
    then some (record { prev = none; next = some 1; value = 97 ∷ [] })
    else if a == 1
    then some (record { prev = some 0; next = none; value = 98 ∷ [] })
    else none

abbrev two : Adlist Bytes
two = record { head = some 0; tail = some 1; len = 2; nodes = nodes; fresh = 2 }

abbrev sequence : List Bytes
sequence = (97 ∷ []) ∷ (98 ∷ []) ∷ []

abbrev key : Bytes
key = 108 ∷ []

abbrev text : Bytes
text = 116 ∷ []

abbrev noon : Clock
noon i = pos 12

abbrev before : CredishDb (Value (Unit {0}))
before = db_create

abbrev store : Store (Adlist Bytes) (Unit {0})
store = record { db = db_set before key (obj_list two); aof_file = some [] }

abbrev texts : Store (Adlist Bytes) (Unit {0})
texts = record { db = db_set before text (obj_string (pos 0) (97 ∷ [])); aof_file = some [] }

two-Holds : Holds two sequence
unfolding Holds Linked values
two-Holds = (
  (0, 97 ∷ []) ∷ (1, 98 ∷ []) ∷ [],
  record {
    head = refl;
    tail = refl;
    len = refl;
    linked = (refl, (refl, tt));
    apart = refl;
    old = λ a h. ground (arith, h);
  },
  refl,
)

live_at : (q : Bytes) (o : Value (Unit {0})) → live (pos 12) (db_set before q o) q ≡ some o
unfolding live
live_at q o =
    let w = Writes-at (db_set_lem q o (db_create_lem {V = Value (Unit {0})}).0) in
    rw (w.1, w.0, (db_create-empty {V = Value (Unit {0})} q).1) refl

no_lists : ListsAreValid before
unfolding ListsAreValid
no_lists q l h = cc (h, (db_create-empty {V = Value (Unit {0})} q).0)

lists : ListsAreValid store.db
lists =
    let w = db_set_lem key (obj_list two) (db_create_lem {V = Value (Unit {0})}).0 in
    touched-ListsAreValid key sequence no_lists (Writes-Touches w) (Writes-at w).0 two-Holds

listed : Sequence (live (pos 12) store.db key) sequence
unfolding Sequence
listed = rw (live_at key (obj_list two)) two-Holds

other : is_other (live (pos 12) texts.db text) ≡ true
unfolding is_other
other = ap is_other (live_at text (obj_string (pos 0) (97 ∷ [])))

abbrev vals : List (Option Bytes)
vals = some (99 ∷ []) ∷ none ∷ some (100 ∷ []) ∷ []

py_lpush-py_rpush_example :
    ((r : Store (Adlist Bytes) (Unit {0}) × ListReply) × (py_lpush noon store key vals ≡ some r)
      × Pushed store
          (76 ∷ 80 ∷ 85 ∷ 83 ∷ 72 ∷ [])
          key
          vals
          (reverse_onto (converted vals) sequence)
          (live (pos 12) store.db key)
          r
      × ListsAreValid r.0.db)
    × ((r : Store (Adlist Bytes) (Unit {0}) × ListReply) × (py_rpush noon store key vals ≡ some r)
        × Pushed store
            (82 ∷ 80 ∷ 85 ∷ 83 ∷ 72 ∷ [])
            key
            vals
            (sequence ++ converted vals)
            (live (pos 12) store.db key)
            r
        × ListsAreValid r.0.db)
py_lpush-py_rpush_example =
    py_lpush-py_rpush noon store key vals sequence
      (db_set_lem key (obj_list two) (db_create_lem {V = Value (Unit {0})}).0).valid lists listed

py_lrange-py_llen_example :
    (py_lrange noon store.db key (negsuc 1) (pos 7)
      ≡ some ((db_lookup (pos 12) store.db key).0, list_reply (slice (negsuc 1) (pos 7) sequence)))
    × (py_llen noon store.db key ≡ ((db_lookup (pos 12) store.db key).0, count_reply 2))
unfolding is_int
py_lrange-py_llen_example =
    py_lrange-py_llen noon key sequence (negsuc 1) (pos 7)
      (db_set_lem key (obj_list two) (db_create_lem {V = Value (Unit {0})}).0).valid listed
      (omega arith) refl refl

py_lpush-other_example :
    (py_lpush noon texts text vals
      ≡ some (record texts { db = (db_lookup (pos 12) texts.db text).0 }, wrong_type))
    × (py_rpush noon texts text vals
        ≡ some (record texts { db = (db_lookup (pos 12) texts.db text).0 }, wrong_type))
    × (py_lrange noon texts.db text (pos 0) (negsuc 0)
        ≡ some ((db_lookup (pos 12) texts.db text).0, list_reply []))
    × (py_llen noon texts.db text ≡ ((db_lookup (pos 12) texts.db text).0, count_reply 0))
py_lpush-other_example =
    py_lpush-other noon texts text vals (pos 0) (negsuc 0)
      (db_set_lem text (obj_string (pos 0) (97 ∷ []))
        (db_create_lem {V = Value (Unit {0})}).0).valid
      other
