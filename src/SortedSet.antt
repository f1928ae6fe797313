-- ===== src/SortedSet.antt =====
-- sorted_set.c: the commands on sorted sets, with `obj_create_zset` of object.c. `D` is the type of
-- the `double`s that are not NaN. An object is mutated through its pointer, so that the new sorted set
-- is put back in its entry of the key space. `rand i` is what `rand` returns to the insertion into
-- the skip list that the `i`-th member makes, and `print` is `snprintf` by "%.17g".
pub mod Items
pub mod Reads
pub mod Adds
pub mod Loops
pub mod ByScore
pub mod Commands
pub mod Queries
mod Tests
use Prim.Native.Nat.{Ordering}
use credish.Prelude.{
  ℕ, zero, suc, ◌+◌, ◌-◌, ◌≡◌, Bool, true, false, not, ◌&&◌, ◌||◌, Option, none, some, List, [],
  ◌∷◌, ◌++◌, if◌then◌else◌, ltb, ◌>>=◌,
}
use credish.Prelude.Int.{ℤ, pos, pos_part, ◌-ℤ◌, ltb_ℤ}
use credish.Sds.{Bytes}
use credish.Keys.{sds_dict_type}
use credish.Dict.{Dict, dict_create, dict_fetch_value, dict_replace, dict_delete}
use credish.Object.{CredishObject, obj_zset}
use credish.Aof.{aof_append_len}
use credish.Db.{CredishDb, db_lookup, db_lookup_write, db_set, write_object}
use credish.Commands.{Clock, Store}
use credish.ListCommands.{range_start, range_stop}
use credish.Skiplist.{
  Ptr, Doubles, Nodes, Zskiplist, is_lt, is_eq, is_gt, zsl_create, zsl_insert, zsl_delete,
  zsl_get_rank, zsl_get_element_by_rank,
}

-- `zset`
pub record Zset (D : Type 0) : Type 0 where
  pub dict : Dict Bytes D
  pub zsl : Zskiplist D

-- `wrong_type` is the exception `WRONGTYPE`, `bad_options` and `bad_score` are those on the options of
-- ZADD and on a score that is NaN, `bad_member` is one that a conversion has set.
pub data ZsetReply (D : Type 0) : Type 0 where
  wrong_type : ZsetReply D
  bad_options : ZsetReply D
  bad_score : ZsetReply D
  bad_member : ZsetReply D
  py_none : ZsetReply D
  count_reply : ℕ → ZsetReply D
  score_reply : D → ZsetReply D
  list_reply : List (Bytes × Option D) → ZsetReply D

abbrev pub Value : Type 0 → Type 0 → Type 0
Value L D = CredishObject L (Zset D)

-- The two flags of ZADD on existing members, and those on the direction of a change.
pub record AddFlags : Type 0 where
  pub nx : Bool
  pub xx : Bool
  pub gt : Bool
  pub lt : Bool

abbrev pub no_flags : AddFlags
no_flags = record { nx = false; xx = false; gt = false; lt = false }

-- What `zset_add` returns, and what it leaves in `*added` and `*changed`.
pub record Added : Type 0 where
  pub done : Bool
  pub added : Bool
  pub changed : Bool

module _ {D : Type 0} (doubles : Doubles D) where
  -- `score <= old` and `score >= old`
  abbrev le_score : D → D → Bool
  le_score score old = not (is_gt (doubles.cmp score old))

  abbrev ge_score : D → D → Bool
  ge_score score old = not (is_lt (doubles.cmp score old))

  -- From the test of `oldp` on.
  pub zset_add_over :
      (rands : List ℕ) → Zset D → Bytes → D → AddFlags → (oldp : Option D) → Zset D × Added
  zset_add_over rands zs member score flags (some old) =
      if flags.nx || (flags.gt && le_score score old || flags.lt && ge_score score old)
      then (zs, record { done = false; added = false; changed = false })
      else if is_eq (doubles.cmp score old)
      then (zs, record { done = true; added = false; changed = false })
      else (
        record {
          zsl = zsl_insert doubles rands (zsl_delete doubles zs.zsl old member).0 score member;
          dict = (dict_replace zs.dict member score).0;
        },
        record { done = true; added = false; changed = true },
      )
  zset_add_over rands zs member score flags none =
      if flags.xx then (zs, record { done = false; added = false; changed = false }) else (
        record {
          dict = (dict_replace zs.dict member score).0;
          zsl = zsl_insert doubles rands zs.zsl score member;
        },
        record { done = true; added = true; changed = false },
      )

  pub zset_add : (rands : List ℕ) → Zset D → Bytes → D → AddFlags → Zset D × Added
  unfolding zset_add_over
  zset_add rands zs member score flags =
      let oldp = dict_fetch_value zs.dict member in
      zset_add_over rands (record zs { dict = oldp.0 }) member score flags oldp.1

  -- From the test of `score` on.
  pub zset_delete_at : Zset D → Bytes → (score : Option D) → Zset D × Bool
  zset_delete_at zs member none = (zs, false)
  zset_delete_at zs member (some old) =
      let cut = zsl_delete doubles zs.zsl old member in
      if cut.1
      then (record { dict = (dict_delete zs.dict member).0; zsl = cut.0 }, true)
      else (record zs { zsl = cut.0 }, false)

  pub zset_delete_member : Zset D → Bytes → Zset D × Bool
  unfolding zset_delete_at
  zset_delete_member zs member =
      let score = dict_fetch_value zs.dict member in
      zset_delete_at (record zs { dict = score.0 }) member score.1

  -- The members and scores of `mapping`, `none` where a conversion fails: NULL for a member, an
  -- exception or NaN for a score.
  pub zadd_pairs : List (Option Bytes × Option D) → Option (List (Bytes × D))
  zadd_pairs [] = some []
  zadd_pairs ((member, score) ∷ mapping) = do
    m ← member
    s ← score
    rest ← zadd_pairs mapping
    some ((m, s) ∷ rest)

  -- The loop of `py_zadd`: the sorted set, `result`, and the pairs that are `applied`.
  pub add_all :
      (rand : ℕ → List ℕ)
      → (flags : AddFlags) → (ch : Bool) → (i : ℕ) → Zset D
      → List (Bytes × D)
      → Zset D × ℕ × List (Bytes × D)
  unfolding zset_add
  add_all rand flags ch i zs [] = (zs, 0, [])
  add_all rand flags ch i zs ((member, score) ∷ pairs) =
      let r = zset_add (rand i) zs member score flags in
      let rest = add_all rand flags ch (i + 1) r.0 pairs in
      let applied = r.1.done && (r.1.added || r.1.changed) in
      (
        rest.0,
        (if r.1.done && (if ch then r.1.added || r.1.changed else r.1.added) then 1 else 0)
            + rest.1,
        if applied then (member, score) ∷ rest.2 else rest.2,
      )

  -- The loop of `py_zrem`, with the members that are removed.
  pub remove_all : Zset D → List Bytes → Zset D × List Bytes
  unfolding zset_delete_member
  remove_all zs [] = (zs, [])
  remove_all zs (member ∷ members) =
      let r = zset_delete_member zs member in
      let rest = remove_all r.0 members in (rest.0, if r.1 then member ∷ rest.1 else rest.1)

  pub obj_create_zset : {L : Type 0} → CredishObject L (Zset D)
  obj_create_zset = obj_zset (record { dict = dict_create; zsl = zsl_create doubles })

-- One record for each pair, or each member.
pub log_added :
    {D : Type 0} (print : D → Bytes) → Option Bytes → Bytes → List (Bytes × D) → Option Bytes
log_added print file key [] = file
log_added print file key ((member, score) ∷ pairs) =
    log_added print (aof_append_len file (90 ∷ 65 ∷ 68 ∷ 68 ∷ []) (key ∷ print score ∷ member ∷ []))
      key pairs

pub log_removed : Option Bytes → Bytes → List Bytes → Option Bytes
log_removed file key [] = file
log_removed file key (member ∷ members) =
    log_removed (aof_append_len file (90 ∷ 82 ∷ 69 ∷ 77 ∷ []) (key ∷ member ∷ [])) key members
