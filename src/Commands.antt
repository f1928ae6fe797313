-- ===== src/Commands.antt =====
-- credish_module.c: the commands on keys and strings, on the database that `credish_get_db` selects.
-- A command that reads the clock takes it as a function from the number of the read to the time.
pub mod Reads
pub mod Expiry
pub mod Set
pub mod Counts
mod Tests
use credish.Prelude.{
  ℕ, suc, ◌+◌, ◌-◌, ◌*◌, ◌/◌, Bool, true, false, not, ◌&&◌, Option, none, some, List, [], ◌∷◌,
  if◌then◌else◌, is_some, all_some,
}
use credish.Prelude.Int.{is_long, mul_ℕ, div_ℕ, ℤ, pos, negsuc, ltb_ℤ, ◌+ℤ◌, ◌-ℤ◌, is_nonneg}
use credish.Sds.{Bytes}
use credish.Object.{
  CredishObject, obj_string, obj_list, obj_set, obj_zset, obj_hash, obj_steal_string_encoded,
}
use credish.Aof.{aof_append_len, print_ℤ}
use credish.Db.{
  CredishDb, db_lookup, db_set, db_del, db_set_expire, db_get_expire, db_remove_expire,
}

-- The selected database and what the append-only file holds.
pub record Store (L Z : Type 0) : Type 0 where
  pub db : CredishDb (CredishObject L Z)
  pub aof_file : Option Bytes

-- `tname` of `py_type`.
pub data TypeName : Type 0 where
  none_name : TypeName
  string_name : TypeName
  list_name : TypeName
  hash_name : TypeName
  set_name : TypeName
  zset_name : TypeName

-- What a command returns; `wrong_type` is the exception `WRONGTYPE`. Where `decode_key` has set an
-- exception and the command returns a number all the same, Python raises: `raised`.
pub data Reply : Type 0 where
  none_reply : Reply
  bool_reply : Bool → Reply
  int_reply : ℤ → Reply
  bytes_reply : Bytes → Reply
  name_reply : TypeName → Reply
  wrong_type : Reply
  raised : Reply

abbrev pub Clock : Type 0
Clock = ℕ → ℤ

-- The number that the loop has counted, which is returned also where an exception is set.
abbrev pub counted : List (Option Bytes) → ℕ → Reply
counted keys n = if all_some keys then int_reply (pos n) else raised

module _ {L Z : Type 0} where
  abbrev pub get_reply : Option (CredishObject L Z) → Reply
  get_reply none = none_reply
  get_reply (some (obj_string encoding bytes)) = bytes_reply bytes
  get_reply (some _) = wrong_type

  pub py_get : Clock → CredishDb (CredishObject L Z) → Bytes → CredishDb (CredishObject L Z) × Reply
  py_get clock db key = let o = db_lookup (clock 0) db key in (o.0, get_reply o.1)

  abbrev pub encoding_reply : Option (CredishObject L Z) → Reply
  encoding_reply none = none_reply
  encoding_reply (some (obj_string encoding bytes)) = int_reply encoding
  encoding_reply (some _) = wrong_type

  pub py_get_encoding :
      Clock → CredishDb (CredishObject L Z) → Bytes → CredishDb (CredishObject L Z) × Reply
  py_get_encoding clock db key = let o = db_lookup (clock 0) db key in (o.0, encoding_reply o.1)

  abbrev pub type_name : Option (CredishObject L Z) → TypeName
  type_name none = none_name
  type_name (some (obj_string encoding bytes)) = string_name
  type_name (some (obj_list l)) = list_name
  type_name (some (obj_hash d)) = hash_name
  type_name (some (obj_set d)) = set_name
  type_name (some (obj_zset z)) = zset_name

  pub py_type :
      Clock → CredishDb (CredishObject L Z) → Bytes → CredishDb (CredishObject L Z) × Reply
  py_type clock db key = let o = db_lookup (clock 0) db key in (o.0, name_reply (type_name o.1))

  -- `!(nx && db_lookup(…)) && !(xx && !db_lookup(…))`
  unfoldable pub set_allowed :
      Clock
      → CredishDb (CredishObject L Z)
      → Bytes
      → (nx xx : Bool) → CredishDb (CredishObject L Z) × Bool
  set_allowed clock db key nx xx =
      let first = db_lookup (clock 0) db key in
      let db' = if nx then first.0 else db in
      let second = db_lookup (clock 1) db' key in
      if nx && is_some first.1
      then (db', false)
      else if xx
      then (second.0, is_some second.1)
      else (db', true)

  -- `if (time > 0) db_set_expire(db, key, keylen, deadline)`
  unfoldable pub set_expire_if :
      CredishDb (CredishObject L Z) → Bytes → (time deadline : ℤ) → CredishDb (CredishObject L Z)
  set_expire_if db key time deadline =
      if ltb_ℤ (pos 0) time then db_set_expire db key deadline else db

  unfoldable pub py_set :
      Clock
      → Store L Z
      → (key val : Bytes) → (ex px : ℤ) → (nx xx : Bool) → (value_encoding : ℤ) → Store L Z × Reply
  unfolding set_expire_if
  py_set clock store key val ex px nx xx value_encoding =
      let allowed = set_allowed clock store.db key nx xx in
      let written = db_set allowed.0 key (obj_steal_string_encoded val value_encoding) in
      let first = set_expire_if written key ex (clock 2 +ℤ mul_ℕ ex 1000) in
      let second = set_expire_if first key px (clock 3 +ℤ px) in
      if allowed.1
      then (
        record {
          db = second;
          aof_file =
              aof_append_len store.aof_file (83 ∷ 69 ∷ 84 ∷ [])
                (key ∷ val ∷ (70 ∷ 77 ∷ 84 ∷ []) ∷ print_ℤ value_encoding ∷ []);
        },
        bool_reply true,
      )
      else (record store { db = allowed.0 }, none_reply)

module _ {V : Type 0} where
  -- `if (found) db_set_expire(db, key, keylen, deadline)` and the result; `none` is an overflow of the
  -- `int64_t` sum that is the deadline.
  unfoldable pub expire_found :
      CredishDb V → Bytes → (found : Bool) → (deadline : ℤ) → Option (CredishDb V × Reply)
  expire_found db key found deadline =
      if found
      then (if is_long deadline
          then some (db_set_expire db key deadline, bool_reply true)
          else none)
      else some (db, bool_reply false)

  pub py_expire : Clock → CredishDb V → Bytes → (seconds : ℤ) → Option (CredishDb V × Reply)
  unfolding expire_found
  py_expire clock db key seconds =
      let o = db_lookup (clock 0) db key in
      expire_found o.0 key (is_some o.1) (clock 1 +ℤ mul_ℕ seconds 1000)

  pub py_pexpire : Clock → CredishDb V → Bytes → (ms : ℤ) → Option (CredishDb V × Reply)
  unfolding expire_found
  py_pexpire clock db key ms =
      let o = db_lookup (clock 0) db key in expire_found o.0 key (is_some o.1) (clock 1 +ℤ ms)

  pub py_persist : CredishDb V → Bytes → CredishDb V × Reply
  py_persist db key =
      let dl = db_get_expire db key in
      (if is_nonneg dl.1 then db_remove_expire dl.0 key else dl.0, bool_reply (is_nonneg dl.1))

  pub py_ttl : Clock → CredishDb V → Bytes → CredishDb V × Reply
  py_ttl clock db key =
      let o = db_lookup (clock 0) db key in
      let dl = db_get_expire o.0 key in
      if is_some o.1
      then (dl.0, int_reply (if is_nonneg dl.1 then div_ℕ (dl.1 -ℤ clock 1) 1000 else negsuc 0))
      else (o.0, int_reply (negsuc 1))

  pub py_pttl : Clock → CredishDb V → Bytes → CredishDb V × Reply
  py_pttl clock db key =
      let o = db_lookup (clock 0) db key in
      let dl = db_get_expire o.0 key in
      if is_some o.1
      then (dl.0, int_reply (if is_nonneg dl.1 then dl.1 -ℤ clock 1 else negsuc 0))
      else (o.0, int_reply (negsuc 1))

  -- The loop of `py_delete`; a key is `none` where `decode_key` fails.
  pub delete_keys : CredishDb V → List (Option Bytes) → ℕ → CredishDb V × ℕ
  delete_keys db [] deleted = (db, deleted)
  delete_keys db (none ∷ keys) deleted = delete_keys db keys deleted
  delete_keys db (some key ∷ keys) deleted =
      let removed = db_del db key in
      delete_keys removed.0 keys (if removed.1 then deleted + 1 else deleted)

  pub py_delete : CredishDb V → List (Option Bytes) → CredishDb V × Reply
  unfolding delete_keys
  py_delete db keys = let r = delete_keys db keys 0 in (r.0, counted keys r.1)

  -- The loop of `py_exists` from round `i` on.
  pub count_keys : Clock → CredishDb V → List (Option Bytes) → (i count : ℕ) → CredishDb V × ℕ
  count_keys clock db [] i count = (db, count)
  count_keys clock db (none ∷ keys) i count = count_keys clock db keys (i + 1) count
  count_keys clock db (some key ∷ keys) i count =
      let o = db_lookup (clock i) db key in
      count_keys clock o.0 keys (i + 1) (if is_some o.1 then count + 1 else count)

  pub py_exists : Clock → CredishDb V → List (Option Bytes) → CredishDb V × Reply
  unfolding count_keys
  py_exists clock db keys = let r = count_keys clock db keys 0 0 in (r.0, counted keys r.1)
