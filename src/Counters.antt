-- ===== src/Counters.antt =====
-- credish_module.c and hash.c: INCRBY and HINCRBY. A sum outside the range of a `long long` is
-- undefined behaviour in C: a result `none`.
pub mod Strings
pub mod Fields
mod Tests
use credish.Prelude.{
  ℕ, zero, suc, ◌-◌, Bool, true, false, Option, none, some, List, [], ◌∷◌, take, drop,
  if◌then◌else◌,
}
use credish.Prelude.Int.{is_long, ℤ, pos, ◌+ℤ◌}
use credish.Sds.{Bytes}
use credish.Keys.{sds_dict_type}
use credish.Dict.{Dict, dict_create, dict_fetch_value, dict_replace}
use credish.Object.{CredishObject, obj_string, obj_hash, obj_create_string, obj_create_hash}
use credish.Aof.{print_ℤ, aof_append_len}
use credish.Aof.Read.{strtoll, strtoll_end}
use credish.Db.{CredishDb, db_lookup, db_lookup_write, db_set, write_object}
use credish.Commands.{Clock, Store}

-- `not_integer` is the exception `ValueError`.
pub data CountReply : Type 0 where
  wrong_type : CountReply
  not_integer : CountReply
  int_reply : ℤ → CountReply

-- `*end == '\0'`
unfoldable pub at_end : Bytes → Bool
at_end [] = true
at_end (zero ∷ str) = true
at_end (suc c ∷ str) = false

-- What `strtoll` makes of the first 63 bytes, if it reads them to their end.
unfoldable pub parse_number : Bytes → Option ℤ
unfolding at_end
parse_number bytes =
    if at_end (strtoll_end (take 63 bytes)) then some (strtoll (take 63 bytes)) else none

-- The payload of a tagged value; an empty one has none.
pub parse_payload : Bytes → Option ℤ
unfolding parse_number
parse_payload bytes = parse_number (drop 1 bytes)

-- The number that a field holds, by `dict_fetch_value`; a field that is not there counts as 0.
unfoldable pub field_number : Option Bytes → Option ℤ
unfolding parse_payload
field_number none = some (pos 0)
field_number (some existing) = parse_payload existing

module _ {L Z : Type 0} where
  -- From the addition in `py_incrby` on.
  pub incr_from :
      Store L Z
      → CredishDb (CredishObject L Z)
      → (key : Bytes) → (amount val : ℤ) → Option (Store L Z × CountReply)
  incr_from store db key amount val =
      if is_long (val +ℤ amount)
      then some (
        record {
          db = db_set db key (obj_create_string (print_ℤ (val +ℤ amount)));
          aof_file =
              aof_append_len store.aof_file (73 ∷ 78 ∷ 67 ∷ 82 ∷ 66 ∷ 89 ∷ [])
                (key ∷ print_ℤ amount ∷ []);
        },
        int_reply (val +ℤ amount),
      )
      else none

  incr_number :
      Store L Z
      → CredishDb (CredishObject L Z)
      → (key : Bytes) → (amount : ℤ) → Option ℤ
      → Option (Store L Z × CountReply)
  unfolding incr_from
  incr_number store db key amount none = some (record store { db = db }, not_integer)
  incr_number store db key amount (some val) = incr_from store db key amount val

  incr_at :
      Store L Z
      → CredishDb (CredishObject L Z)
      → (key : Bytes) → (amount : ℤ) → Option (CredishObject L Z)
      → Option (Store L Z × CountReply)
  unfolding incr_number parse_number
  incr_at store db key amount none = incr_from store db key amount (pos 0)
  incr_at store db key amount (some (obj_string encoding bytes)) =
      incr_number store db key amount (parse_number bytes)
  incr_at store db key amount (some _) = some (record store { db = db }, wrong_type)

  pub py_incrby : Clock → Store L Z → (key : Bytes) → (amount : ℤ) → Option (Store L Z × CountReply)
  unfolding incr_at
  py_incrby clock store key amount =
      let o = db_lookup (clock 0) store.db key in incr_at store o.0 key amount o.1

  -- From the addition in `py_hincrby` on, with the dictionary that the search left.
  hincr_from :
      Store L Z
      → CredishDb (CredishObject L Z)
      → Dict Bytes Bytes
      → (key field : Bytes) → (amount val : ℤ) → Option (Store L Z × CountReply)
  hincr_from store db d key field amount val =
      let newval = 3 ∷ print_ℤ (val +ℤ amount) in
      if is_long (val +ℤ amount)
      then some (
        record {
          db = write_object db key (obj_hash (dict_replace d field newval).0);
          aof_file =
              aof_append_len store.aof_file (72 ∷ 83 ∷ 69 ∷ 84 ∷ []) (key ∷ field ∷ newval ∷ []);
        },
        int_reply (val +ℤ amount),
      )
      else none

  hincr_number :
      Store L Z
      → CredishDb (CredishObject L Z)
      → Dict Bytes Bytes
      → (key field : Bytes) → (amount : ℤ) → Option ℤ
      → Option (Store L Z × CountReply)
  unfolding hincr_from
  hincr_number store db d key field amount none =
      some (record store { db = write_object db key (obj_hash d) }, not_integer)
  hincr_number store db d key field amount (some val) = hincr_from store db d key field amount val

  hincr_in :
      Store L Z
      → CredishDb (CredishObject L Z)
      → Dict Bytes Bytes
      → (key field : Bytes) → (amount : ℤ) → Option (Store L Z × CountReply)
  unfolding hincr_number field_number
  hincr_in store db d key field amount =
      let existing = dict_fetch_value d field in
      hincr_number store db existing.0 key field amount (field_number existing.1)

  hincr_at :
      Store L Z
      → CredishDb (CredishObject L Z)
      → (key field : Bytes) → (amount : ℤ) → Option (CredishObject L Z)
      → Option (Store L Z × CountReply)
  unfolding hincr_in
  hincr_at store db key field amount none =
      hincr_in store (db_set db key obj_create_hash) dict_create key field amount
  hincr_at store db key field amount (some (obj_hash d)) = hincr_in store db d key field amount
  hincr_at store db key field amount (some _) = some (record store { db = db }, wrong_type)

  pub py_hincrby :
      Clock → Store L Z → (key field : Bytes) → (amount : ℤ) → Option (Store L Z × CountReply)
  unfolding hincr_at
  py_hincrby clock store key field amount =
      let o = db_lookup_write (clock 0) store.db key in hincr_at store o.0 key field amount o.1
