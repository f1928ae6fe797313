-- ===== src/Hash/Listing.antt =====
-- hash.c: the commands that list a whole hash.
use credish.Prelude.{◌≤◌, ◌≡◌, refl, ap, Bool, some, map, length, if◌then◌else◌, ◌∙◌}
use credish.Sds.{Bytes}
use credish.Keys.{sds_dict_type}
use credish.Dict.{Dict, dict_size}
use credish.Dict.Entry.{Chain, find_entry, count}
use credish.Dict.Placed.{view}
use credish.Dict.Iterator.{dict_entries}
use credish.Dict.Iterator.Entries.{dict_entries_lem}
use credish.Object.{CredishObject, obj_hash}
use credish.Db.{CredishDb}
use credish.Db.Refines.{IsDb, live}
use credish.Commands.{Clock}
use credish.Hash.{dict_reply, list_reply, value_item, field_key_to_py, py_hgetall, hash_collect}
use credish.Hash.Fields.{HashesAreValid}
use credish.Db.Lookup.{live_object}
use credish.Hash.Queries.{by_hash, query_lem}

-- The entries list the map of the dictionary: as many as its size, each key once.
pub record Lists (d : Dict Bytes Bytes) (entries : Chain Bytes Bytes) : Type 0 where
  pub size : length entries ≡ dict_size d
  pub once : (q : Bytes) → count q entries ≤ 1
  pub finds : (q : Bytes) → find_entry q entries ≡ view d q

module _ {L Z : Type 0} where
  -- HGETALL, HKEYS and HVALS on a live hash answer from one list of entries, which has each field
  -- of the hash once, with its value: the pairs, the fields and the values, in that order.
  -- The database is well formed and its hashes are valid.
  pub hash_collect_lem :
      (is_utf8 : Bytes → Bool) (clock : Clock) {db : CredishDb (CredishObject L Z)} (key : Bytes)
      (want_values native : Bool) (d : Dict Bytes Bytes)
      → IsDb db
      → HashesAreValid db
      → live (clock 0) db key ≡ some (obj_hash d)
      → (entries : Chain Bytes Bytes) × Lists d entries
        × ((py_hgetall is_utf8 clock db key native).1
            ≡ dict_reply
                (map (λ e. (field_key_to_py is_utf8 native e.0, value_item native e.1)) entries))
        × ((hash_collect is_utf8 clock db key want_values native).1
            ≡ list_reply (
                map
                  (λ e.
                    if want_values
                    then value_item native e.1
                    else field_key_to_py is_utf8 native e.0)
                  entries))
  unfolding py_hgetall hash_collect HashesAreValid by_hash
  hash_collect_lem is_utf8 clock {db} key want_values native d v hashes alive =
      let valid = hashes key d (live_object (clock 0) db key alive) in
      let listed = dict_entries_lem valid in
      (
        dict_entries d,
        record { size = listed.0; once = λ q. (listed.1 q).0; finds = λ q. (listed.1 q).1 },
        query_lem clock key _ _ _ v hashes (λ d w. refl) ∙ ap (by_hash _ _) alive,
        query_lem clock key _ _ _ v hashes (λ d w. refl) ∙ ap (by_hash _ _) alive,
      )
