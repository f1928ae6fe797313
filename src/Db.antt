-- ===== src/Db.antt =====
-- db.c and db.h: one logical database, its keys and their deadlines. `V` is the type of the objects,
-- which these functions only store. A key is given by its bytes, as in `sds_newlen(key, keylen)`.
-- A function that reads the clock takes the time in milliseconds that it reads.
pub mod Refines
pub mod Lookup
mod Tests
use credish.Prelude.{ℕ, Bool, true, false, Option, none, some, if◌then◌else◌}
use credish.Prelude.Int.{ℤ, negsuc, ltb_ℤ}
use credish.Sds.{Bytes}
use credish.Keys.{sds_dict_type}
use credish.Dict.{
  Dict, dict_create, dict_assign, dict_find, dict_fetch_value, dict_replace, dict_delete, dict_size,
}

-- `credish_db`, less its number.
pub record CredishDb (V : Type 0) : Type 0 where
  pub keys : Dict Bytes V
  pub expires : Dict Bytes ℤ

-- Whether a deadline, if there is one, has passed.
abbrev pub past : ℤ → Option ℤ → Bool
past now none = false
past now (some deadline) = ltb_ℤ deadline now

-- `p ? *p : -1`
abbrev pub deadline_or : Option ℤ → ℤ
deadline_or none = negsuc 0
deadline_or (some deadline) = deadline

module _ {V : Type 0} where
  -- A database as `store_open` makes it.
  pub db_create : CredishDb V
  db_create = record { keys = dict_create; expires = dict_create }

  pub db_is_expired : ℤ → CredishDb V → Bytes → CredishDb V × Bool
  db_is_expired now db key =
      let found = dict_find db.expires key in (record db { expires = found.0 }, past now found.1)

  -- `dict_delete(db->keys, tmp); dict_delete(db->expires, tmp)`, and whether the first returned 0.
  remove_both : CredishDb V → Bytes → CredishDb V × Bool
  remove_both db key =
      let cut = dict_delete db.keys key in
      (record { keys = cut.0; expires = (dict_delete db.expires key).0 }, cut.1)

  lazy_expire : ℤ → CredishDb V → Bytes → CredishDb V × Bool
  lazy_expire now db key =
      let expired = db_is_expired now db key in
      if expired.1 then ((remove_both expired.0 key).0, true) else (expired.0, false)

  fetch : CredishDb V → Bytes → CredishDb V × Option V
  fetch db key = let found = dict_fetch_value db.keys key in (record db { keys = found.0 }, found.1)

  pub db_lookup : ℤ → CredishDb V → Bytes → CredishDb V × Option V
  db_lookup now db key =
      let expired = lazy_expire now db key in
      if expired.1 then (expired.0, none) else fetch expired.0 key

  unfoldable pub db_lookup_write : ℤ → CredishDb V → Bytes → CredishDb V × Option V
  db_lookup_write now db key = db_lookup now db key

  pub db_set : CredishDb V → Bytes → V → CredishDb V
  db_set db key val = record db { keys = (dict_replace db.keys key val).0 }

  -- `o->ptr` of the object under the key, written through.
  unfoldable pub write_object : CredishDb V → Bytes → V → CredishDb V
  write_object db key o = record db { keys = dict_assign db.keys key o }

  -- The Boolean is whether the source returns 1.
  pub db_del : CredishDb V → Bytes → CredishDb V × Bool
  unfolding remove_both
  db_del db key = remove_both db key

  pub db_set_expire : CredishDb V → Bytes → ℤ → CredishDb V
  db_set_expire db key deadline = record db { expires = (dict_replace db.expires key deadline).0 }

  pub db_get_expire : CredishDb V → Bytes → CredishDb V × ℤ
  db_get_expire db key =
      let found = dict_fetch_value db.expires key in
      (record db { expires = found.0 }, deadline_or found.1)

  pub db_remove_expire : CredishDb V → Bytes → CredishDb V
  db_remove_expire db key = record db { expires = (dict_delete db.expires key).0 }
