-- ===== src/ListCommands/Reads.antt =====
-- credish_module.c: LRANGE and LLEN as commands, and what the commands on lists do on other types.
use credish.Prelude.{
  ℕ, ◌<◌, ◌-◌, ◌≡◌, refl, sym, ◌∙◌, ap, Bool, true, false, Option, none, some, List, [], length,
  take, drop, bind_some, zero, suc,
}
use credish.Prelude.Int.{ℤ, is_int}
use credish.Sds.{Bytes}
use credish.Keys.{sds_dict_type}
use credish.Adlist.{Adlist}
use credish.Object.{obj_string, obj_list, obj_set, obj_zset, obj_hash}
use credish.Db.{CredishDb, db_lookup, db_lookup_write}
use credish.Db.Refines.{IsDb, live}
use credish.Db.Lookup.{db_lookup_lem}
use credish.Commands.{Clock, Store}
use credish.ListCommands.{
  wrong_type, count_reply, list_reply, Value, push_to, py_lpush, py_rpush, range_reply, py_lrange,
  len_of, py_llen,
}
use credish.ListCommands.Push.{Sequence, length-Holds}
use credish.ListCommands.Range.{from_position, to_position, slice, lrange_of_lem}

take-nil : (n : ℕ) → take {A = Bytes} n [] ≡ []
take-nil zero = refl
take-nil (suc n) = refl

drop-nil : (n : ℕ) → drop {A = Bytes} n [] ≡ []
drop-nil zero = refl
drop-nil (suc n) = refl

slice-nil : (start stop : ℤ) → slice {A = Bytes} start stop [] ≡ []
unfolding slice
slice-nil start stop =
    ap (take (to_position 0 stop - from_position 0 start)) (drop-nil (from_position 0 start))
    ∙ take-nil (to_position 0 stop - from_position 0 start)

module _ {Z : Type 0} where
  -- Whether there is an object that is not a list.
  unfoldable pub is_other : Option (Value Z) → Bool
  is_other none = false
  is_other (some (obj_list l)) = false
  is_other (some _) = true

  range_reply_lem :
      (o : Option (Value Z)) (xs : List Bytes) (start stop : ℤ)
      → Sequence o xs
      → length xs < 2147483648
      → is_int start ≡ true
      → is_int stop ≡ true
      → range_reply start stop o ≡ some (slice start stop xs)
  unfolding Sequence range_reply
  range_reply_lem none xs start stop s small i j = rw s (ap some (sym (slice-nil start stop)))
  range_reply_lem (some (obj_list l)) xs start stop s small i j =
      lrange_of_lem l xs start stop s (rw (length-Holds l xs s) small) i j
  range_reply_lem (some (obj_string _ _)) xs start stop s small i j = cc
  range_reply_lem (some (obj_hash _)) xs start stop s small i j = cc
  range_reply_lem (some (obj_set _)) xs start stop s small i j = cc
  range_reply_lem (some (obj_zset _)) xs start stop s small i j = cc

  len_of_lem : (o : Option (Value Z)) (xs : List Bytes) → Sequence o xs → len_of o ≡ length xs
  unfolding Sequence len_of
  len_of_lem none xs s = sym (ap length s)
  len_of_lem (some (obj_list l)) xs s = length-Holds l xs s
  len_of_lem (some (obj_string _ _)) xs s = cc
  len_of_lem (some (obj_hash _)) xs s = cc
  len_of_lem (some (obj_set _)) xs s = cc
  len_of_lem (some (obj_zset _)) xs s = cc

  -- LRANGE on the sequence under a key, `[]` without a live key, does not fault and returns the part
  -- from `start` to `stop`, both included, a negative position counting from the end; LLEN returns
  -- the length. The indices are of type `int`, and the sequence is shorter than 2^31.
  pub py_lrange-py_llen :
      (clock : Clock) {db : CredishDb (Value Z)} (key : Bytes) (xs : List Bytes) (start stop : ℤ)
      → IsDb db
      → Sequence (live (clock 0) db key) xs
      → length xs < 2147483648
      → is_int start ≡ true
      → is_int stop ≡ true
      → (py_lrange clock db key start stop
          ≡ some ((db_lookup (clock 0) db key).0, list_reply (slice start stop xs)))
        × (py_llen clock db key ≡ ((db_lookup (clock 0) db key).0, count_reply (length xs)))
  unfolding py_lrange py_llen
  py_lrange-py_llen clock {db} key xs start stop v s small i j =
      let e = (db_lookup_lem (clock 0) key v).1 in
      (
        bind_some _ (ap (range_reply start stop) e ∙ range_reply_lem _ xs start stop s small i j),
        ap (λ o. ((db_lookup (clock 0) db key).0, count_reply (len_of o))) e
            ∙ ap (λ n. ((db_lookup (clock 0) db key).0, count_reply n)) (len_of_lem _ xs s),
      )

  push_to-other :
      (store : Store (Adlist Bytes) Z) (db : CredishDb (Value Z)) (cmd key : Bytes)
      (push : Adlist Bytes → Bytes → Option (Adlist Bytes)) (vals : List (Option Bytes))
      (o : Option (Value Z))
      → is_other o ≡ true
      → push_to store db cmd key push vals o ≡ some (record store { db = db }, wrong_type)
  unfolding push_to is_other
  push_to-other store db cmd key push vals none h = cc
  push_to-other store db cmd key push vals (some (obj_list _)) h = cc
  push_to-other store db cmd key push vals (some (obj_string _ _)) h = refl
  push_to-other store db cmd key push vals (some (obj_hash _)) h = refl
  push_to-other store db cmd key push vals (some (obj_set _)) h = refl
  push_to-other store db cmd key push vals (some (obj_zset _)) h = refl

  range_reply-other :
      (start stop : ℤ) (o : Option (Value Z))
      → is_other o ≡ true
      → (range_reply start stop o ≡ some []) × (len_of o ≡ 0)
  unfolding range_reply len_of is_other
  range_reply-other start stop none h = cc
  range_reply-other start stop (some (obj_list _)) h = cc
  range_reply-other start stop (some (obj_string _ _)) h = (refl, refl)
  range_reply-other start stop (some (obj_hash _)) h = (refl, refl)
  range_reply-other start stop (some (obj_set _)) h = (refl, refl)
  range_reply-other start stop (some (obj_zset _)) h = (refl, refl)

  -- Under a key whose live object is not a list, LPUSH and RPUSH raise `WRONGTYPE` and log nothing,
  -- while LRANGE and LLEN answer as without a key, `[]` and 0. None changes more than the lookup of
  -- the key does.
  pub py_lpush-other :
      (clock : Clock) (store : Store (Adlist Bytes) Z) (key : Bytes) (vals : List (Option Bytes))
      (start stop : ℤ)
      → IsDb store.db
      → is_other (live (clock 0) store.db key) ≡ true
      → (py_lpush clock store key vals
          ≡ some (record store { db = (db_lookup (clock 0) store.db key).0 }, wrong_type))
        × (py_rpush clock store key vals
            ≡ some (record store { db = (db_lookup (clock 0) store.db key).0 }, wrong_type))
        × (py_lrange clock store.db key start stop
            ≡ some ((db_lookup (clock 0) store.db key).0, list_reply []))
        × (py_llen clock store.db key ≡ ((db_lookup (clock 0) store.db key).0, count_reply 0))
  unfolding py_lpush py_rpush db_lookup_write py_lrange py_llen
  py_lpush-other clock store key vals start stop v h =
      let e = (db_lookup_lem (clock 0) key v).1 in
      let other : is_other (db_lookup (clock 0) store.db key).1 ≡ true = ap is_other e ∙ h in
      let (none_read, no_length) = range_reply-other start stop _ other in
      (
        push_to-other store _ _ key _ vals _ other,
        push_to-other store _ _ key _ vals _ other,
        bind_some _ none_read,
        ap (λ n. ((db_lookup (clock 0) store.db key).0, count_reply n)) no_length,
      )
