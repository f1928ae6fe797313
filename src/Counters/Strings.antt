-- ===== src/Counters/Strings.antt =====
-- credish_module.c: INCRBY, against the numbers under the keys.
use credish.Prelude.{
  ◌≡◌, refl, sym, ◌∙◌, ap, true, false, Option, none, some, [], ◌∷◌, if◌then◌else◌, is_some,
  if_true,
}
use credish.Prelude.Int.{is_long, ℤ, pos, ◌+ℤ◌}
use credish.Sds.{Bytes}
use credish.Keys.{sds_dict_type}
use credish.Dict.Placed.{view}
use credish.Object.{
  CredishObject, obj_string, obj_list, obj_hash, obj_set, obj_zset, obj_encoding_raw,
  obj_create_string, obj_create_string_encoded,
}
use credish.Aof.{print_ℤ, aof_append_len}
use credish.Aof.Read.{strtoll, strtoll_end}
use credish.Aof.Read.Numbers.{strtoll-print_ℤ, strtoll_end-print_ℤ, take-print_ℤ}
use credish.Db.{CredishDb, db_lookup, db_set}
use credish.Db.Refines.{IsDb, live, db_set_lem, Writes-at}
use credish.Db.Lookup.{db_lookup_lem, found-Same}
use credish.Commands.{Clock, Store}
use credish.Commands.Set.{Touches, Touches-trans, Purges-Touches, Writes-Touches, purged_deadline}
use credish.Counters.{
  CountReply, int_reply, at_end, parse_number, incr_from, incr_number, incr_at, py_incrby,
}

-- What is printed is read.
pub parse_number-print_ℤ : (z : ℤ) → is_long z ≡ true → parse_number (print_ℤ z) ≡ some z
unfolding parse_number at_end
parse_number-print_ℤ z h =
    ap (λ s. if at_end (strtoll_end s) then some (strtoll s) else none) (take-print_ℤ z h)
    ∙ if_true _ _ (ap at_end (strtoll_end-print_ℤ z))
    ∙ ap some (strtoll-print_ℤ z h)

module _ {L Z : Type 0} where
  -- The number of what is live under a key, 0 without a key.
  unfoldable pub Counts : Option (CredishObject L Z) → ℤ → Type 0
  Counts none n = n ≡ pos 0
  Counts (some (obj_string encoding bytes)) n = parse_number bytes ≡ some n
  Counts (some _) n = true ≡ false

  -- The sum has been stored in decimal under the key, whose object was `o`, and the amount logged.
  pub record Counted (store : Store L Z) (key : Bytes) (amount sum : ℤ)
      (o : Option (CredishObject L Z)) (r : Store L Z × CountReply) : Type 0 where
    pub touches : Touches store.db key r.0.db
    pub stored : view r.0.db.keys key ≡ some (obj_string obj_encoding_raw (print_ℤ sum))
    pub answer : r.1 ≡ int_reply sum
    pub deadline : view r.0.db.expires key ≡ (if is_some o then view store.db.expires key else none)
    pub logged :
        r.0.aof_file
        ≡ aof_append_len store.aof_file
            (73 ∷ 78 ∷ 67 ∷ 82 ∷ 66 ∷ 89 ∷ [])
            (key ∷ print_ℤ amount ∷ [])

  incr_from-Counted :
      (store : Store L Z) {db : CredishDb (CredishObject L Z)} (key : Bytes) (amount n : ℤ)
      (o : Option (CredishObject L Z))
      → Touches store.db key db
      → view db.expires key ≡ (if is_some o then view store.db.expires key else none)
      → is_long (n +ℤ amount) ≡ true
      → (r : Store L Z × CountReply) × (incr_from store db key amount n ≡ some r)
        × Counted store key amount (n +ℤ amount) o r
  unfolding incr_from obj_create_string obj_create_string_encoded
  incr_from-Counted store {db} key amount n o t same h =
      let w = db_set_lem key (obj_create_string (print_ℤ (n +ℤ amount))) t.valid in
      (
        (
          record {
            db = db_set db key (obj_create_string (print_ℤ (n +ℤ amount)));
            aof_file =
                aof_append_len store.aof_file (73 ∷ 78 ∷ 67 ∷ 82 ∷ 66 ∷ 89 ∷ [])
                  (key ∷ print_ℤ amount ∷ []);
          },
          int_reply (n +ℤ amount),
        ),
        if_true _ _ h,
        record {
          touches = Touches-trans t (Writes-Touches w);
          stored = (Writes-at w).0;
          answer = refl;
          deadline = (Writes-at w).1 ∙ same;
          logged = refl;
        },
      )

  incr_at-Counted :
      (clock : Clock) (store : Store L Z) (key : Bytes) (amount n : ℤ)
      (o : Option (CredishObject L Z))
      → IsDb store.db
      → live (clock 0) store.db key ≡ o
      → Counts o n
      → is_long (n +ℤ amount) ≡ true
      → (r : Store L Z × CountReply) × (incr_at store
            (db_lookup (clock 0) store.db key).0
            key
            amount
            o
          ≡ some r)
        × Counted store key amount (n +ℤ amount) o r
  unfolding incr_at incr_number Counts
  incr_at-Counted clock store key amount n none v e c h =
      let p = (db_lookup_lem (clock 0) key v).0 in
      let zero_sum : is_long (pos 0 +ℤ amount) ≡ true =
        ap (λ k. is_long (k +ℤ amount)) (sym c) ∙ h in
      rw c (
        incr_from-Counted store key amount (pos 0) none (Purges-Touches p)
          (purged_deadline v p (ap is_some e)) zero_sum)
  incr_at-Counted clock store key amount n (some (obj_string encoding bytes)) v e c h =
      let p = (db_lookup_lem (clock 0) key v).0 in
      let same = (found-Same (clock 0) key v (ap is_some e)).0 in
      let (r, step, counted) =
        incr_from-Counted store key amount n (some (obj_string encoding bytes)) (Purges-Touches p)
          (same.deadlines key) h in
      (r, ap (incr_number store (db_lookup (clock 0) store.db key).0 key amount) c ∙ step, counted)
  incr_at-Counted clock store key amount n (some (obj_list _)) v e c h = cc
  incr_at-Counted clock store key amount n (some (obj_hash _)) v e c h = cc
  incr_at-Counted clock store key amount n (some (obj_set _)) v e c h = cc
  incr_at-Counted clock store key amount n (some (obj_zset _)) v e c h = cc

  -- INCRBY, where the key is not live or holds the digits of a number and the sum is a `long long`,
  -- stores the sum in decimal, so that the next INCRBY reads it, answers it and logs the amount.
  -- It keeps the key's deadline unless it has passed, and changes no other key. The database is well
  -- formed.
  pub py_incrby_lem :
      (clock : Clock) {store : Store L Z} (key : Bytes) (amount n : ℤ)
      → IsDb store.db
      → Counts (live (clock 0) store.db key) n
      → is_long (n +ℤ amount) ≡ true
      → (r : Store L Z × CountReply) × (py_incrby clock store key amount ≡ some r)
        × Counted store key amount (n +ℤ amount) (live (clock 0) store.db key) r
        × Counts (view r.0.db.keys key) (n +ℤ amount)
  unfolding py_incrby Counts
  py_incrby_lem clock {store} key amount n v c h =
      let (r, step, counted) = incr_at-Counted clock store key amount n _ v refl c h in
      (
        r,
        ap (incr_at store (db_lookup (clock 0) store.db key).0 key amount)
              (db_lookup_lem (clock 0) key v).1
            ∙ step,
        counted,
        rw counted.stored (parse_number-print_ℤ (n +ℤ amount) h),
      )

  -- The store that INCRBY leaves, where it succeeds.
  abbrev pub counted_store :
      Store L Z → CredishDb (CredishObject L Z) → (key : Bytes) → (amount sum : ℤ) → Store L Z
  counted_store store db key amount sum = record {
    db = db_set db key (obj_create_string (print_ℤ sum));
    aof_file =
        aof_append_len store.aof_file (73 ∷ 78 ∷ 67 ∷ 82 ∷ 66 ∷ 89 ∷ [])
          (key ∷ print_ℤ amount ∷ []);
  }

  incr_at-run :
      (store : Store L Z) (db : CredishDb (CredishObject L Z)) (key : Bytes) (amount n : ℤ)
      (o : Option (CredishObject L Z))
      → Counts o n
      → is_long (n +ℤ amount) ≡ true
      → incr_at store db key amount o
        ≡ some (counted_store store db key amount (n +ℤ amount), int_reply (n +ℤ amount))
  unfolding incr_at incr_number incr_from Counts
  incr_at-run store db key amount n none c h =
      rw c (if_true _ _ (ap (λ k. is_long (k +ℤ amount)) (sym c) ∙ h))
  incr_at-run store db key amount n (some (obj_string encoding bytes)) c h =
      ap (incr_number store db key amount) c ∙ if_true _ _ h
  incr_at-run store db key amount n (some (obj_list _)) c h = cc
  incr_at-run store db key amount n (some (obj_hash _)) c h = cc
  incr_at-run store db key amount n (some (obj_set _)) c h = cc
  incr_at-run store db key amount n (some (obj_zset _)) c h = cc

  pub py_incrby-run :
      (clock : Clock) (store : Store L Z) (key : Bytes) (amount n : ℤ)
      → IsDb store.db
      → Counts (live (clock 0) store.db key) n
      → is_long (n +ℤ amount) ≡ true
      → py_incrby clock store key amount
        ≡ some (
          counted_store store (db_lookup (clock 0) store.db key).0 key amount (n +ℤ amount),
          int_reply (n +ℤ amount),
        )
  unfolding py_incrby
  py_incrby-run clock store key amount n v c h =
      ap (incr_at store (db_lookup (clock 0) store.db key).0 key amount)
        (db_lookup_lem (clock 0) key v).1
      ∙ incr_at-run store (db_lookup (clock 0) store.db key).0 key amount n _ c h
