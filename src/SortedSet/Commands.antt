-- ===== src/SortedSet/Commands.antt =====
-- sorted_set.c: ZADD, ZREM and ZINCRBY, from their decoded arguments on.
use credish.Prelude.{ℕ, Bool, ◌&&◌, ◌||◌, Option, none, some, List, [], ◌∷◌, if◌then◌else◌, length}
use credish.Sds.{Bytes}
use credish.Keys.{sds_dict_type}
use credish.Dict.{dict_create, dict_fetch_value}
use credish.Object.{obj_zset}
use credish.Db.{CredishDb, db_lookup_write, db_set, write_object}
use credish.Commands.{Clock, Store}
use credish.Skiplist.{Doubles, zsl_create}
use credish.SortedSet.{
  Zset, ZsetReply, wrong_type, bad_options, bad_score, bad_member, count_reply, score_reply, Value,
  AddFlags, no_flags, zset_add, zadd_pairs, add_all, remove_all, obj_create_zset, log_added,
  log_removed,
}

-- The members that a list converts to, `none` where one does not.
pub zrem_members : List (Option Bytes) → Option (List Bytes)
zrem_members [] = some []
zrem_members (none ∷ members) = none
zrem_members (some member ∷ members) = elim (zrem_members members) [
  | none ↦ none
  | some rest ↦ some (member ∷ rest)
]

abbrev new_zset : {D : Type 0} → Doubles D → Zset D
new_zset doubles = record { dict = dict_create; zsl = zsl_create doubles }

module _ {L D : Type 0} (doubles : Doubles D) where
  module _ (print : D → Bytes) (rand : ℕ → List ℕ) where
    -- From the pairs' application to the sorted set on.
    pub zadd_into :
        Store L (Zset D)
        → CredishDb (Value L D)
        → Bytes
        → List (Bytes × D)
        → (flags : AddFlags) → (ch : Bool) → Zset D
        → Store L (Zset D) × ZsetReply D
    unfolding add_all log_added write_object
    zadd_into store db key pairs flags ch zs =
        let r = add_all doubles rand flags ch 0 zs pairs in
        (
          record {
            db = write_object db key (obj_zset r.0);
            aof_file = log_added print store.aof_file key r.2;
          },
          count_reply r.1,
        )

    -- From the type test of `py_zadd` on.
    pub zadd_to :
        Store L (Zset D)
        → CredishDb (Value L D)
        → Bytes
        → List (Bytes × D)
        → (flags : AddFlags) → (ch : Bool) → Option (Value L D)
        → Store L (Zset D) × ZsetReply D
    unfolding zadd_into obj_create_zset
    zadd_to store db key pairs flags ch none =
        zadd_into store (db_set db key (obj_create_zset doubles)) key pairs flags ch
          (new_zset doubles)
    zadd_to store db key pairs flags ch (some (obj_zset zs)) =
        zadd_into store db key pairs flags ch zs
    zadd_to store db key pairs flags ch (some _) = (record store { db = db }, wrong_type)

    pub zadd_pairs_to :
        Clock
        → Store L (Zset D)
        → Bytes
        → (flags : AddFlags) → (ch : Bool) → Option (List (Bytes × D))
        → Store L (Zset D) × ZsetReply D
    unfolding zadd_to
    zadd_pairs_to clock store key flags ch none = (store, bad_member)
    zadd_pairs_to clock store key flags ch (some pairs) =
        let o = db_lookup_write (clock 0) store.db key in zadd_to store o.0 key pairs flags ch o.1

    -- The test `n == 0` comes before the conversions.
    pub zadd_nonempty :
        Clock
        → Store L (Zset D)
        → Bytes
        → List (Option Bytes × Option D)
        → (flags : AddFlags) → (ch : Bool) → Store L (Zset D) × ZsetReply D
    unfolding zadd_pairs_to zadd_pairs
    zadd_nonempty clock store key [] flags ch = (store, count_reply 0)
    zadd_nonempty clock store key (pair ∷ mapping) flags ch =
        zadd_pairs_to clock store key flags ch (zadd_pairs doubles (pair ∷ mapping))

    pub py_zadd :
        Clock
        → Store L (Zset D)
        → Bytes
        → List (Option Bytes × Option D)
        → (flags : AddFlags) → (ch : Bool) → Store L (Zset D) × ZsetReply D
    unfolding zadd_nonempty
    py_zadd clock store key mapping flags ch =
        if flags.nx && flags.xx || (flags.gt && flags.lt || flags.nx && (flags.gt || flags.lt))
        then (store, bad_options)
        else zadd_nonempty clock store key mapping flags ch

    -- From the type test of `py_zrem` on.
    pub zrem_from :
        Store L (Zset D)
        → CredishDb (Value L D)
        → Bytes
        → List Bytes
        → Option (Value L D)
        → Store L (Zset D) × ZsetReply D
    unfolding remove_all log_removed write_object
    zrem_from store db key members none = (record store { db = db }, count_reply 0)
    zrem_from store db key members (some (obj_zset zs)) =
        let r = remove_all doubles zs members in
        (
          record {
            db = write_object db key (obj_zset r.0);
            aof_file = log_removed store.aof_file key r.1;
          },
          count_reply (length r.1),
        )
    zrem_from store db key members (some _) = (record store { db = db }, wrong_type)

    pub py_zrem :
        Clock → Store L (Zset D) → Bytes → List (Option Bytes) → Store L (Zset D) × ZsetReply D
    unfolding zrem_from zrem_members
    py_zrem clock store key members = elim (zrem_members members) [
      | none ↦ (store, bad_member)
      | some all ↦ let o = db_lookup_write (clock 0) store.db key in zrem_from store o.0 key all o.1
    ]

    -- From the sum on, which is `none` where it is NaN.
    pub zincrby_sum :
        Store L (Zset D)
        → CredishDb (Value L D)
        → (key member : Bytes) → Zset D
        → (sum : Option D) → Store L (Zset D) × ZsetReply D
    unfolding zset_add log_added write_object
    zincrby_sum store db key member zs none =
        (record store { db = write_object db key (obj_zset zs) }, bad_score)
    zincrby_sum store db key member zs (some new_score) =
        let r = zset_add doubles (rand 0) zs member new_score no_flags in
        (
          record {
            db = write_object db key (obj_zset r.0);
            aof_file = log_added print store.aof_file key ((member, new_score) ∷ []);
          },
          score_reply new_score,
        )

    -- From the lookup of the old score on.
    pub zincrby_in :
        Store L (Zset D)
        → CredishDb (Value L D)
        → (key member : Bytes) → (amount : D) → Zset D
        → Store L (Zset D) × ZsetReply D
    unfolding zincrby_sum
    zincrby_in store db key member amount zs =
        let oldp = dict_fetch_value zs.dict member in
        zincrby_sum store db key member (record zs { dict = oldp.0 })
          (doubles.add (elim oldp.1 [ none ↦ doubles.zero_point | some old ↦ old ]) amount)

    -- From the type test of `py_zincrby` on.
    pub zincrby_to :
        Store L (Zset D)
        → CredishDb (Value L D)
        → (key member : Bytes) → (amount : D) → Option (Value L D)
        → Store L (Zset D) × ZsetReply D
    unfolding zincrby_in obj_create_zset
    zincrby_to store db key member amount none =
        zincrby_in store (db_set db key (obj_create_zset doubles)) key member amount
          (new_zset doubles)
    zincrby_to store db key member amount (some (obj_zset zs)) =
        zincrby_in store db key member amount zs
    zincrby_to store db key member amount (some _) = (record store { db = db }, wrong_type)

    pub py_zincrby :
        Clock
        → Store L (Zset D)
        → (key member : Bytes) → (amount : D) → Store L (Zset D) × ZsetReply D
    unfolding zincrby_to
    py_zincrby clock store key member amount =
        let o = db_lookup_write (clock 0) store.db key in zincrby_to store o.0 key member amount o.1
