-- ===== src/Replay.antt =====
-- aof.c: the replay of the append-only file, with `store_select_db` of db.c. A result `none` is a
-- fault: the access of a node that is not there, or memory that FLUSHDB has freed. The two branches on
-- sorted sets are arguments, from the test of the number of arguments on.
pub mod Load
pub mod Commands
pub mod Numbers
pub mod Session
pub mod Logged
pub mod Recovery
pub mod Hashes
mod Tests
use credish.Prelude.{
  ℕ, zero, suc, ◌+◌, Bool, true, false, ◌&&◌, Option, none, some, List, [], ◌∷◌, take, map,
  if◌then◌else◌, ◌==◌, leb, ◌>>=◌, update, is_some, ltb,
}
use credish.Prelude.Int.{ℤ, pos, negsuc, ◌+ℤ◌, mul_ℕ}
use credish.Sds.{Bytes}
use credish.Keys.{sds_dict_type}
use credish.Dict.{Dict, dict_create, dict_replace, dict_delete}
use credish.Adlist.{Adlist, adlist_create, adlist_push_head, adlist_push_tail}
use credish.Object.{
  CredishObject, obj_string, obj_list, obj_hash, obj_encoding_raw, obj_create_string_encoded,
  obj_create_string, obj_create_hash,
}
use credish.Aof.{print_ℤ}
use credish.Aof.Read.{strtoll, atoi, file_commands}
use credish.Db.{CredishDb, db_lookup, db_set, db_del, db_set_expire, db_remove_expire, write_object}
use credish.Commands.{Clock}
use credish.ListCommands.{Value, push_all, obj_create_list}

-- A byte string up to its first NUL, in lower case.
abbrev lower : Bytes → Bytes
lower [] = []
lower (zero ∷ str) = []
lower (suc c ∷ str) = (if leb 65 (suc c) && leb (suc c) 90 then suc c + 32 else suc c) ∷ lower str

abbrev same : Bytes → Bytes → Bool
same [] [] = true
same (a ∷ rest) (b ∷ rest') = (a == b) && same rest rest'
same _ _ = false

-- Whether `credish_strcasecmp` returns 0.
abbrev pub credish_strcasecmp : Bytes → Bytes → Bool
credish_strcasecmp a b = same (lower a) (lower b)

-- The encoding after the first `FMT` among the options of SET.
find_encoding : List Bytes → ℤ
find_encoding [] = obj_encoding_raw
find_encoding (arg ∷ []) = obj_encoding_raw
find_encoding (arg ∷ next ∷ opts) =
    let rest = find_encoding (next ∷ opts) in
    if credish_strcasecmp arg (70 ∷ 77 ∷ 84 ∷ []) then atoi next else rest

-- The loop over `EX` and `PX`, at the `i`-th read of the clock.
replay_expires : {V : Type 0} → Clock → ℕ → CredishDb V → Bytes → List Bytes → CredishDb V
replay_expires clock i db key [] = db
replay_expires clock i db key (arg ∷ []) = db
replay_expires clock i db key (arg ∷ next ∷ opts) = elim (credish_strcasecmp arg (69 ∷ 88 ∷ [])) [
  | true ↦
      replay_expires clock (i + 1) (db_set_expire db key (clock i +ℤ mul_ℕ (strtoll next) 1000)) key
        opts
  | false ↦ elim (credish_strcasecmp arg (80 ∷ 88 ∷ [])) [
    | true ↦ replay_expires clock (i + 1) (db_set_expire db key (clock i +ℤ strtoll next)) key opts
    | false ↦ replay_expires clock i db key (next ∷ opts)
  ]
]

replay_del : {V : Type 0} → CredishDb V → List Bytes → CredishDb V
replay_del db [] = db
replay_del db (key ∷ keys) = replay_del (db_del db key).0 keys

replay_expire : {V : Type 0} → Clock → CredishDb V → List Bytes → CredishDb V
replay_expire clock db (key ∷ sec ∷ args) =
    db_set_expire db key (clock 0 +ℤ mul_ℕ (strtoll sec) 1000)
replay_expire clock db _ = db

replay_persist : {V : Type 0} → CredishDb V → List Bytes → CredishDb V
replay_persist db [] = db
replay_persist db (key ∷ args) = db_remove_expire db key

-- The loop of HSET.
replace_fields : Dict Bytes Bytes → List Bytes → Dict Bytes Bytes
replace_fields d (field ∷ val ∷ args) = replace_fields (dict_replace d field val).0 args
replace_fields d _ = d

-- The loop of HDEL.
delete_fields : Dict Bytes Bytes → List Bytes → Dict Bytes Bytes
delete_fields d [] = d
delete_fields d (field ∷ fields) = delete_fields (dict_delete d field).0 fields

abbrev pub ListDb : Type 0 → Type 0
ListDb Z = CredishDb (Value Z)

module _ {Z : Type 0} where
  pub replay_set : Clock → ListDb Z → List Bytes → ListDb Z
  unfolding find_encoding replay_expires
  replay_set clock db (key ∷ val ∷ opts) =
      replay_expires clock 0 (db_set db key (obj_create_string_encoded val (find_encoding opts)))
        key opts
  replay_set clock db _ = db

  -- `val` of INCRBY before the addition: at most 63 bytes are read.
  pub number_of : Option (Value Z) → ℤ
  number_of (some (obj_string encoding bytes)) = strtoll (take 63 bytes)
  number_of _ = pos 0

  pub replay_incrby : Clock → ListDb Z → List Bytes → ListDb Z
  unfolding number_of
  replay_incrby clock db (key ∷ delta ∷ args) =
      let o = db_lookup (clock 0) db key in
      db_set o.0 key (obj_create_string (print_ℤ (number_of o.1 +ℤ strtoll delta)))
  replay_incrby clock db _ = db

  -- From the creation of the list on.
  push_into :
      ListDb Z
      → Bytes
      → (Adlist Bytes → Bytes → Option (Adlist Bytes))
      → List Bytes
      → Option (Value Z)
      → Option (ListDb Z)
  push_into db key push vals none = do
    l ← push_all push adlist_create (map some vals)
    some (write_object (db_set db key obj_create_list) key (obj_list l))
  push_into db key push vals (some (obj_list old)) = do
    l ← push_all push old (map some vals)
    some (write_object db key (obj_list l))
  push_into db key push vals (some _) = some db

  pub replay_push :
      (Adlist Bytes → Bytes → Option (Adlist Bytes))
      → Clock
      → ListDb Z
      → List Bytes
      → Option (ListDb Z)
  unfolding push_into
  replay_push push clock db (key ∷ val ∷ vals) =
      let o = db_lookup (clock 0) db key in push_into o.0 key push (val ∷ vals) o.1
  replay_push push clock db _ = some db

  -- From the creation of the hash on.
  set_fields : (ListDb Z) → Bytes → List Bytes → Option (Value Z) → ListDb Z
  unfolding replace_fields
  set_fields db key args none =
      write_object (db_set db key obj_create_hash) key (obj_hash (replace_fields dict_create args))
  set_fields db key args (some (obj_hash d)) =
      write_object db key (obj_hash (replace_fields d args))
  set_fields db key args (some _) = db

  pub replay_hset : Clock → ListDb Z → List Bytes → ListDb Z
  unfolding set_fields
  replay_hset clock db (key ∷ field ∷ val ∷ args) =
      let o = db_lookup (clock 0) db key in set_fields o.0 key (field ∷ val ∷ args) o.1
  replay_hset clock db _ = db

  cut_fields : (ListDb Z) → Bytes → List Bytes → Option (Value Z) → ListDb Z
  unfolding delete_fields
  cut_fields db key fields (some (obj_hash d)) =
      write_object db key (obj_hash (delete_fields d fields))
  cut_fields db key fields _ = db

  replay_hdel : Clock → ListDb Z → List Bytes → ListDb Z
  unfolding cut_fields
  replay_hdel clock db (key ∷ field ∷ fields) =
      let o = db_lookup (clock 0) db key in cut_fields o.0 key (field ∷ fields) o.1
  replay_hdel clock db _ = db

  module _ (replay_zadd replay_zrem : Clock → ListDb Z → List Bytes → Option (ListDb Z)) where
    -- On the database of `db_id`.
    pub replay_cmd : Clock → ListDb Z → List Bytes → Option (ListDb Z)
    unfolding replay_set replay_del replay_expire replay_persist replay_incrby replay_push
        replay_hset replay_hdel
    replay_cmd clock db [] = some db
    replay_cmd clock db (cmd ∷ args) =
        if credish_strcasecmp cmd (83 ∷ 69 ∷ 84 ∷ [])
        then some (replay_set clock db args)
        else if credish_strcasecmp cmd (68 ∷ 69 ∷ 76 ∷ [])
        then some (replay_del db args)
        else if credish_strcasecmp cmd (69 ∷ 88 ∷ 80 ∷ 73 ∷ 82 ∷ 69 ∷ [])
        then some (replay_expire clock db args)
        else if credish_strcasecmp cmd (80 ∷ 69 ∷ 82 ∷ 83 ∷ 73 ∷ 83 ∷ 84 ∷ [])
        then some (replay_persist db args)
        else if credish_strcasecmp cmd (83 ∷ 69 ∷ 76 ∷ 69 ∷ 67 ∷ 84 ∷ [])
        then some db
        else if credish_strcasecmp cmd (70 ∷ 76 ∷ 85 ∷ 83 ∷ 72 ∷ 68 ∷ 66 ∷ [])
        then none
        else if credish_strcasecmp cmd (73 ∷ 78 ∷ 67 ∷ 82 ∷ 66 ∷ 89 ∷ [])
        then some (replay_incrby clock db args)
        else if credish_strcasecmp cmd (82 ∷ 80 ∷ 85 ∷ 83 ∷ 72 ∷ [])
        then replay_push adlist_push_tail clock db args
        else if credish_strcasecmp cmd (76 ∷ 80 ∷ 85 ∷ 83 ∷ 72 ∷ [])
        then replay_push adlist_push_head clock db args
        else if credish_strcasecmp cmd (90 ∷ 65 ∷ 68 ∷ 68 ∷ [])
        then replay_zadd clock db args
        else if credish_strcasecmp cmd (90 ∷ 82 ∷ 69 ∷ 77 ∷ [])
        then replay_zrem clock db args
        else if credish_strcasecmp cmd (72 ∷ 83 ∷ 69 ∷ 84 ∷ [])
        then some (replay_hset clock db args)
        else if credish_strcasecmp cmd (72 ∷ 68 ∷ 69 ∷ 76 ∷ [])
        then some (replay_hdel clock db args)
        else some db
