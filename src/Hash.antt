-- ===== src/Hash.antt =====
-- hash.c: the commands on hashes. An object is mutated through its pointer, so that the new
-- dictionary is put back in its entry of the key space. The field and value arguments are given as
-- the strings that `pyobj_to_sds` and `pyobj_to_tagged_sds` make of them.
pub mod Fields
pub mod Queries
pub mod Tags
pub mod Removal
pub mod Listing
mod Tests
use credish.Prelude.{
  ℕ, ◌+◌, Bool, true, false, Option, none, some, List, [], ◌∷◌, ◌++◌, ◌==◌, ◌&&◌, if◌then◌else◌,
  is_some, map, length,
}
use credish.Sds.{Bytes}
use credish.Keys.{sds_dict_type}
use credish.Dict.{
  Dict, dict_create, dict_size, dict_find, dict_fetch_value, dict_replace, dict_delete, dict_assign,
}
use credish.Dict.Entry.{DictEntry}
use credish.Dict.Iterator.{dict_entries}
use credish.Object.{
  CredishObject, obj_string, obj_list, obj_set, obj_zset, obj_hash, obj_create_hash,
}
use credish.Aof.{aof_append_len}
use credish.Db.{CredishDb, db_lookup, db_lookup_write, db_set, write_object}
use credish.Commands.{Clock, Store}

-- What the CPython function that is called makes of the bytes of a field or value.
pub data PyItem : Type 0 where
  py_none : PyItem
  py_bytes : Bytes → PyItem
  py_text : Bytes → PyItem
  py_long : Bytes → PyItem
  py_float : Bytes → PyItem

-- `wrong_type` is the exception `WRONGTYPE`.
pub data HashReply : Type 0 where
  wrong_type : HashReply
  count_reply : ℕ → HashReply
  flag_reply : Bool → HashReply
  item_reply : PyItem → HashReply
  list_reply : List PyItem → HashReply
  dict_reply : List (PyItem × PyItem) → HashReply

pub tagged_value_to_bytes : Bytes → PyItem
tagged_value_to_bytes [] = py_bytes []
tagged_value_to_bytes (tag ∷ payload) = py_bytes payload

-- The encodings of `object.h`; an empty string reads as tag 0, its terminator.
pub tagged_value_to_native : Bytes → PyItem
tagged_value_to_native [] = py_bytes []
tagged_value_to_native (tag ∷ payload) =
    if tag == 2
    then py_text payload
    else if tag == 3
    then py_long payload
    else if tag == 4
    then py_float payload
    else py_bytes payload

unfoldable pub value_item : (native : Bool) → Bytes → PyItem
value_item native val = if native then tagged_value_to_native val else tagged_value_to_bytes val

-- The item for `dict_fetch_value`, `Py_None` for NULL.
abbrev pub fetched_item : (native : Bool) → Option Bytes → PyItem
fetched_item native none = py_none
fetched_item native (some val) = value_item native val

-- The loop of `hash_apply_fields`.
pub apply_fields : Dict Bytes Bytes → List (Bytes × Bytes) → ℕ → Dict Bytes Bytes × ℕ
apply_fields d [] added = (d, added)
apply_fields d ((field, value) ∷ pairs) added =
    let seen = dict_find d field in
    apply_fields (dict_replace seen.0 field value).0 pairs
      (if is_some seen.1 then added else added + 1)

-- `fields` and `values` after the key in the record that is logged.
unfoldable pub pair_args : List (Bytes × Bytes) → List Bytes
pair_args [] = []
pair_args ((field, value) ∷ pairs) = field ∷ value ∷ pair_args pairs

-- The loop of `py_hmget`.
pub fetch_fields : Bool → Dict Bytes Bytes → List Bytes → Dict Bytes Bytes × List PyItem
fetch_fields native d [] = (d, [])
fetch_fields native d (field ∷ fields) =
    let val = dict_fetch_value d field in
    let rest = fetch_fields native val.0 fields in (rest.0, fetched_item native val.1 ∷ rest.1)

-- The loop of `py_hdel`; the list is `removed_fields`.
pub remove_fields : Dict Bytes Bytes → List Bytes → Dict Bytes Bytes × List Bytes
remove_fields d [] = (d, [])
remove_fields d (field ∷ fields) =
    let cut = dict_delete d field in
    let rest = remove_fields cut.0 fields in (rest.0, if cut.1 then field ∷ rest.1 else rest.1)

-- `is_utf8` is whether `PyUnicode_DecodeUTF8` decodes the bytes.
pub field_key_to_py : (is_utf8 : Bytes → Bool) → (native : Bool) → Bytes → PyItem
field_key_to_py is_utf8 native bytes =
    if native && is_utf8 bytes then py_text bytes else py_bytes bytes

module _ {L Z : Type 0} where
  -- The command's arguments after its name, appended to the file.
  log : Store L Z → CredishDb (CredishObject L Z) → Bytes → List Bytes → Store L Z
  log store db cmd argv = record { db = db; aof_file = aof_append_len store.aof_file cmd argv }

  -- From the type test of `hash_apply_fields` on; `none` is the result -1.
  apply_to :
      Store L Z
      → CredishDb (CredishObject L Z)
      → Bytes
      → List (Bytes × Bytes)
      → Option (CredishObject L Z)
      → Store L Z × Option ℕ
  unfolding apply_fields pair_args log write_object
  apply_to store db key pairs none =
      let r = apply_fields dict_create pairs 0 in
      (
        log store (write_object (db_set db key obj_create_hash) key (obj_hash r.0))
            (72 ∷ 83 ∷ 69 ∷ 84 ∷ []) (key ∷ pair_args pairs),
        some r.1,
      )
  apply_to store db key pairs (some (obj_hash d)) =
      let r = apply_fields d pairs 0 in
      (
        log store (write_object db key (obj_hash r.0)) (72 ∷ 83 ∷ 69 ∷ 84 ∷ [])
            (key ∷ pair_args pairs),
        some r.1,
      )
  apply_to store db key pairs (some _) = (record store { db = db }, none)

  pub hash_apply_fields : Clock → Store L Z → Bytes → List (Bytes × Bytes) → Store L Z × Option ℕ
  unfolding apply_to
  hash_apply_fields clock store key pairs =
      let o = db_lookup_write (clock 0) store.db key in apply_to store o.0 key pairs o.1

  -- The pairs of the mapping, or the one of `field` and `value`.
  pub py_hset : Clock → Store L Z → Bytes → List (Bytes × Bytes) → Store L Z × HashReply
  py_hset clock store key [] = (store, count_reply 0)
  py_hset clock store key (pair ∷ pairs) =
      let r = hash_apply_fields clock store key (pair ∷ pairs) in
      (r.0, elim r.1 [ none ↦ wrong_type | some added ↦ count_reply added ])

  pub py_hmset : Clock → Store L Z → Bytes → List (Bytes × Bytes) → Store L Z × HashReply
  py_hmset clock store key [] = (store, flag_reply true)
  py_hmset clock store key (pair ∷ pairs) =
      let r = hash_apply_fields clock store key (pair ∷ pairs) in
      (r.0, elim r.1 [ none ↦ wrong_type | some added ↦ flag_reply true ])

  -- From the type test of a query on: `missing` without an object, else `ask` of its dictionary,
  -- with the dictionary that the query leaves.
  query_of :
      CredishDb (CredishObject L Z)
      → Bytes
      → HashReply
      → (Dict Bytes Bytes → Dict Bytes Bytes × HashReply)
      → Option (CredishObject L Z)
      → CredishDb (CredishObject L Z) × HashReply
  unfolding write_object
  query_of db key missing ask none = (db, missing)
  query_of db key missing ask (some (obj_hash d)) =
      (write_object db key (obj_hash (ask d).0), (ask d).1)
  query_of db key missing ask (some _) = (db, wrong_type)

  pub query :
      Clock
      → CredishDb (CredishObject L Z)
      → Bytes
      → HashReply
      → (Dict Bytes Bytes → Dict Bytes Bytes × HashReply)
      → CredishDb (CredishObject L Z) × HashReply
  unfolding query_of
  query clock db key missing ask =
      let o = db_lookup (clock 0) db key in query_of o.0 key missing ask o.1

  pub py_hget :
      Clock
      → CredishDb (CredishObject L Z)
      → (key field : Bytes) → (native : Bool) → CredishDb (CredishObject L Z) × HashReply
  unfolding query
  py_hget clock db key field native =
      query clock db key (item_reply py_none)
        (λ d. let val = dict_fetch_value d field in (val.0, item_reply (fetched_item native val.1)))

  pub py_hmget :
      Clock
      → CredishDb (CredishObject L Z)
      → (key : Bytes) → List Bytes
      → (native : Bool) → CredishDb (CredishObject L Z) × HashReply
  py_hmget clock db key fields native =
      query clock db key (list_reply (map (λ field. py_none) fields))
        (λ d. let r = fetch_fields native d fields in (r.0, list_reply r.1))

  pub py_hexists :
      Clock
      → CredishDb (CredishObject L Z)
      → (key field : Bytes) → CredishDb (CredishObject L Z) × HashReply
  py_hexists clock db key field =
      query clock db key (flag_reply false)
        (λ d. let e = dict_find d field in (e.0, flag_reply (is_some e.1)))

  pub py_hlen :
      Clock → CredishDb (CredishObject L Z) → Bytes → CredishDb (CredishObject L Z) × HashReply
  py_hlen clock db key = query clock db key (count_reply 0) (λ d. (d, count_reply (dict_size d)))

  -- The record of `py_hdel`, if a field was removed.
  log_removed :
      Store L Z → CredishDb (CredishObject L Z) → Bytes → (removed : List Bytes) → Store L Z
  unfolding log
  log_removed store db key [] = record store { db = db }
  log_removed store db key (field ∷ removed) =
      log store db (72 ∷ 68 ∷ 69 ∷ 76 ∷ []) (key ∷ field ∷ removed)

  -- From the type test of `py_hdel` on.
  delete_from :
      Store L Z
      → CredishDb (CredishObject L Z)
      → Bytes
      → List Bytes
      → Option (CredishObject L Z)
      → Store L Z × HashReply
  unfolding remove_fields write_object log_removed
  delete_from store db key fields none = (record store { db = db }, count_reply 0)
  delete_from store db key fields (some (obj_hash d)) =
      let r = remove_fields d fields in
      (log_removed store (write_object db key (obj_hash r.0)) key r.1, count_reply (length r.1))
  delete_from store db key fields (some _) = (record store { db = db }, wrong_type)

  pub py_hdel : Clock → Store L Z → Bytes → List Bytes → Store L Z × HashReply
  unfolding delete_from
  py_hdel clock store key fields =
      let o = db_lookup_write (clock 0) store.db key in delete_from store o.0 key fields o.1

  module _ (is_utf8 : Bytes → Bool) where
    pub py_hgetall :
        Clock
        → CredishDb (CredishObject L Z)
        → (key : Bytes) → (native : Bool) → CredishDb (CredishObject L Z) × HashReply
    unfolding field_key_to_py
    py_hgetall clock db key native = query clock db key (dict_reply []) (λ d. (
      d,
      dict_reply
          (map (λ e. (field_key_to_py is_utf8 native e.0, value_item native e.1)) (dict_entries d)),
    ))

    -- HKEYS and HVALS.
    pub hash_collect :
        Clock
        → CredishDb (CredishObject L Z)
        → (key : Bytes) → (want_values native : Bool) → CredishDb (CredishObject L Z) × HashReply
    hash_collect clock db key want_values native = query clock db key (list_reply []) (λ d. (
      d,
      list_reply (
          map
            (λ e. if want_values then value_item native e.1 else field_key_to_py is_utf8 native e.0)
            (dict_entries d)),
    ))
