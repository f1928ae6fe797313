-- ===== src/ListCommands.antt =====
-- credish_module.c: the commands on lists, with `obj_create_list` of object.c. An object is mutated
-- through its pointer, so that the new list is put back in its entry of the key space. The value
-- arguments are given as what `pyobj_to_sds` makes of them, `none` for NULL, with the exception set;
-- an int is one that fits a `long long`. A result `none` is a fault, the access of a node that is not there.
pub mod Push
pub mod Ends
pub mod Range
pub mod Reads
mod Tests
use credish.Prelude.{
  ℕ, zero, suc, ◌+◌, Bool, true, false, Option, none, some, List, [], ◌∷◌, ◌++◌, if◌then◌else◌,
  ◌>>=◌, all_some,
}
use credish.Prelude.Int.{ℤ, pos, pos_part, ◌+ℤ◌, ◌-ℤ◌, ltb_ℤ, to_int}
use credish.Sds.{Bytes}
use credish.Keys.{sds_dict_type}
use credish.Adlist.{
  Ptr, Nodes, Adlist, adlist_create, adlist_push_head, adlist_push_tail, adlist_index,
}
use credish.Object.{CredishObject, obj_list}
use credish.Aof.{aof_append_len}
use credish.Db.{CredishDb, db_lookup, db_lookup_write, db_set, write_object}
use credish.Commands.{Clock, Store}

-- `wrong_type` is the exception `WRONGTYPE`. Where a conversion has set an exception and the command
-- returns the length all the same, Python raises: `raised`.
pub data ListReply : Type 0 where
  wrong_type : ListReply
  raised : ListReply
  count_reply : ℕ → ListReply
  list_reply : List Bytes → ListReply

abbrev pub Value : Type 0 → Type 0
Value Z = CredishObject (Adlist Bytes) Z

-- The values that convert.
unfoldable pub converted : List (Option Bytes) → List Bytes
converted [] = []
converted (none ∷ vals) = converted vals
converted (some val ∷ vals) = val ∷ converted vals

-- The length, which is returned also where an exception is set.
abbrev pub length_reply : List (Option Bytes) → (len : ℕ) → ListReply
length_reply vals len = if all_some vals then count_reply len else raised

-- The loop over `vals_list`, with the insertion that it calls.
unfoldable pub push_all :
    (Adlist Bytes → Bytes → Option (Adlist Bytes))
    → Adlist Bytes
    → List (Option Bytes)
    → Option (Adlist Bytes)
push_all push l [] = some l
push_all push l (none ∷ vals) = push_all push l vals
push_all push l (some val ∷ vals) = do l' ← push l val; push_all push l' vals

-- The record of the command, if a value converts.
unfoldable pub log_pushed : Option Bytes → (cmd key : Bytes) → (argv : List Bytes) → Option Bytes
log_pushed file cmd key [] = file
log_pushed file cmd key (val ∷ vals) = aof_append_len file cmd (key ∷ val ∷ vals)

-- The loop of `py_lrange`, which has `count` rounds left: `n && i <= stop`.
pub range_values : (count : ℕ) → Nodes Bytes → Ptr → Option (List Bytes)
range_values zero nodes n = some []
range_values (suc count) nodes none = some []
range_values (suc count) nodes (some p) = do
  node ← nodes p
  rest ← range_values count nodes node.next
  some (node.value ∷ rest)

-- `start` after its two tests.
unfoldable pub range_start : (len : ℕ) → (start : ℤ) → ℕ
range_start len start = pos_part (if ltb_ℤ start (pos 0) then to_int (pos len +ℤ start) else start)

-- `stop` after its two tests.
unfoldable pub range_stop : (len : ℕ) → (stop : ℤ) → ℤ
range_stop len stop =
    let stop' = if ltb_ℤ stop (pos 0) then to_int (pos len +ℤ stop) else stop in
    if ltb_ℤ stop' (pos len) then stop' else to_int (pos len) -ℤ pos 1

-- The test of the indices and the loop.
pub range_between : Adlist Bytes → (first : ℕ) → (last : ℤ) → Option (List Bytes)
unfolding range_values
range_between l first last = if ltb_ℤ last (pos first) then some [] else do
  n ← adlist_index l (pos first)
  range_values (pos_part (last -ℤ pos first) + 1) l.nodes n

-- From the length of the list on.
pub lrange_of : Adlist Bytes → (start stop : ℤ) → Option (List Bytes)
unfolding range_between range_start range_stop
lrange_of l start stop = range_between l (range_start l.len start) (range_stop l.len stop)

module _ {Z : Type 0} where
  unfoldable pub obj_create_list : Value Z
  obj_create_list = obj_list adlist_create

  -- From the type test of `py_lpush` and `py_rpush` on.
  unfoldable pub push_to :
      Store (Adlist Bytes) Z
      → CredishDb (Value Z)
      → (cmd key : Bytes) → (Adlist Bytes → Bytes → Option (Adlist Bytes))
      → List (Option Bytes)
      → Option (Value Z)
      → Option (Store (Adlist Bytes) Z × ListReply)
  unfolding push_all log_pushed converted
  push_to store db cmd key push vals none = do
    l ← push_all push adlist_create vals
    some (
      record {
        db = write_object (db_set db key obj_create_list) key (obj_list l);
        aof_file = log_pushed store.aof_file cmd key (converted vals);
      },
      length_reply vals l.len,
    )
  push_to store db cmd key push vals (some (obj_list old)) = do
    l ← push_all push old vals
    some (
      record {
        db = write_object db key (obj_list l);
        aof_file = log_pushed store.aof_file cmd key (converted vals);
      },
      length_reply vals l.len,
    )
  push_to store db cmd key push vals (some _) = some (record store { db = db }, wrong_type)

  unfoldable pub py_lpush :
      Clock
      → Store (Adlist Bytes) Z
      → Bytes
      → List (Option Bytes)
      → Option (Store (Adlist Bytes) Z × ListReply)
  unfolding push_to
  py_lpush clock store key vals =
      let o = db_lookup_write (clock 0) store.db key in
      push_to store o.0 (76 ∷ 80 ∷ 85 ∷ 83 ∷ 72 ∷ []) key adlist_push_head vals o.1

  unfoldable pub py_rpush :
      Clock
      → Store (Adlist Bytes) Z
      → Bytes
      → List (Option Bytes)
      → Option (Store (Adlist Bytes) Z × ListReply)
  unfolding push_to
  py_rpush clock store key vals =
      let o = db_lookup_write (clock 0) store.db key in
      push_to store o.0 (82 ∷ 80 ∷ 85 ∷ 83 ∷ 72 ∷ []) key adlist_push_tail vals o.1

  -- The values for what the lookup found; a key that is missing or has another type has none.
  pub range_reply : (start stop : ℤ) → Option (Value Z) → Option (List Bytes)
  unfolding lrange_of
  range_reply start stop (some (obj_list l)) = lrange_of l start stop
  range_reply start stop _ = some []

  pub py_lrange :
      Clock
      → CredishDb (Value Z)
      → Bytes
      → (start stop : ℤ) → Option (CredishDb (Value Z) × ListReply)
  unfolding range_reply
  py_lrange clock db key start stop =
      let o = db_lookup (clock 0) db key in
      do result ← range_reply start stop o.1; some (o.0, list_reply result)

  pub len_of : Option (Value Z) → ℕ
  len_of (some (obj_list l)) = l.len
  len_of _ = 0

  pub py_llen : Clock → CredishDb (Value Z) → Bytes → CredishDb (Value Z) × ListReply
  unfolding len_of
  py_llen clock db key = let o = db_lookup (clock 0) db key in (o.0, count_reply (len_of o.1))
