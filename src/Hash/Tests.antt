-- ===== src/Hash/Tests.antt =====
-- The theorems on hashes, at a database with a hash and a key that is absent.
use credish.Prelude.{
  ℕ, Bool, subst, if◌then◌else◌, some, ◌≡◌, ap, true, false, none, List, [], ◌∷◌, is_some, map,
}
use credish.Object.{obj_hash}
use credish.Prelude.Int.{pos}
use credish.Sds.{Bytes}
use credish.Keys.{sds_dict_type}
use credish.Dict.{Dict, dict_create, dict_size}
use credish.Dict.Placed.{view}
use credish.Db.{db_create, past}
use credish.Db.Refines.{live, db_create_lem, db_create-empty}
use credish.Commands.{Clock, Store}
use credish.Hash.{
  py_hdel, py_hgetall, hash_collect, dict_reply, value_item, field_key_to_py, py_none, count_reply,
  flag_reply, item_reply, list_reply, fetched_item, hash_apply_fields, py_hget, py_hmget,
  py_hexists, py_hlen,
}
use credish.Hash.Fields.{
  HashesAreValid, allows_hash, fields_of, written, Applied, hash_apply_fields_lem,
}
use credish.Hash.Removal.{Removed, py_hdel_lem}
use credish.Hash.Listing.{Lists, hash_collect_lem}
use credish.Dict.Entry.{Chain}
use credish.Hash.Queries.{by_hash, hash_queries_lem, py_hget-hash_apply_fields}

abbrev key : Bytes
key = 104 ∷ []

abbrev field : Bytes
field = 102 ∷ []

abbrev pairs : List (Bytes × Bytes)
pairs = (field, 2 ∷ 97 ∷ []) ∷ (98 ∷ [], 0 ∷ []) ∷ (field, 2 ∷ 98 ∷ []) ∷ []

abbrev noon : Clock
noon i = pos 12

abbrev no_fields : Dict Bytes Bytes
no_fields = dict_create

abbrev empty_store : Store (Unit {0}) (Unit {0})
empty_store = record { db = db_create; aof_file = none }

no_keys : (q : Bytes) → view empty_store.db.keys q ≡ none
no_keys q = (db_create-empty q).0

no_deadline : past (pos 12) (view empty_store.db.expires key) ≡ false
no_deadline = ap (past (pos 12)) (db_create-empty key).1

no_hashes : HashesAreValid empty_store.db
unfolding HashesAreValid
no_hashes q d h = cc (h, no_keys q)

absent : live (pos 12) empty_store.db key ≡ none
absent = db_create_lem.1 (pos 12) key

typed : allows_hash (live (pos 12) empty_store.db key) ≡ true
unfolding allows_hash
typed = ap allows_hash absent

abbrev filled : Store (Unit {0}) (Unit {0})
filled = (hash_apply_fields noon empty_store key pairs).0

hash_apply_fields_lem_example :
    Applied empty_store.db key pairs
      (live (pos 12) empty_store.db key)
      (hash_apply_fields noon empty_store key pairs)
    × HashesAreValid filled.db
hash_apply_fields_lem_example =
    hash_apply_fields_lem noon empty_store key pairs db_create_lem.0 no_hashes typed

hash_queries_lem_example :
    ((py_hget noon filled.db key field true).1
      ≡ by_hash
          (item_reply py_none)
          (λ d. item_reply (fetched_item true (view d field)))
          (live (pos 12) filled.db key))
    × ((py_hmget noon filled.db key (field ∷ key ∷ []) true).1
        ≡ by_hash
            (list_reply (map (λ f. py_none) (field ∷ key ∷ [])))
            (λ d. list_reply (map (λ f. fetched_item true (view d f)) (field ∷ key ∷ [])))
            (live (pos 12) filled.db key))
    × ((py_hexists noon filled.db key field).1
        ≡ by_hash
            (flag_reply false)
            (λ d. flag_reply (is_some (view d field)))
            (live (pos 12) filled.db key))
    × ((py_hlen noon filled.db key).1
        ≡ by_hash (count_reply 0) (λ d. count_reply (dict_size d)) (live (pos 12) filled.db key))
hash_queries_lem_example =
    hash_queries_lem noon key field (field ∷ key ∷ []) true
      hash_apply_fields_lem_example.0.touches.valid hash_apply_fields_lem_example.1

py_hget-hash_apply_fields_example :
    (py_hget noon filled.db key field true).1
    ≡ item_reply (
        fetched_item true
          (written pairs field (view (fields_of (live (pos 12) empty_store.db key)) field)))
py_hget-hash_apply_fields_example =
    py_hget-hash_apply_fields noon noon empty_store key field pairs true db_create_lem.0 no_hashes
      typed no_deadline

abbrev applied :
    Applied empty_store.db key pairs none (hash_apply_fields noon empty_store key pairs)
applied =
    subst (λ o. Applied empty_store.db key pairs o (hash_apply_fields noon empty_store key pairs))
      absent hash_apply_fields_lem_example.0

alive : live (pos 12) filled.db key ≡ some (obj_hash applied.fields)
unfolding live
alive = rw (applied.deadline, applied.stored)

py_hdel_lem_example :
    (n : ℕ) × ((py_hdel noon filled key (field ∷ [])).1 ≡ count_reply n)
    × Removed filled.db key
        (field ∷ [])
        applied.fields
        (py_hdel noon filled key (field ∷ [])).0.db
        n
py_hdel_lem_example =
    py_hdel_lem noon filled key (field ∷ []) applied.fields applied.touches.valid
      hash_apply_fields_lem_example.1 alive

abbrev ascii : Bytes → Bool
ascii bytes = true

hash_collect_lem_example :
    (entries : Chain Bytes Bytes) × Lists applied.fields entries
    × ((py_hgetall ascii noon filled.db key true).1
        ≡ dict_reply (map (λ e. (field_key_to_py ascii true e.0, value_item true e.1)) entries))
    × ((hash_collect ascii noon filled.db key true true).1
        ≡ list_reply (
            map
              (λ e. if true then value_item true e.1 else field_key_to_py ascii true e.0)
              entries))
hash_collect_lem_example =
    hash_collect_lem ascii noon key true true applied.fields applied.touches.valid
      hash_apply_fields_lem_example.1 alive
