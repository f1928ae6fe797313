-- ===== src/Counters/Fields.antt =====
-- hash.c: HINCRBY, against the numbers that the fields hold.
use credish.Prelude.{
  ◌≡◌, refl, sym, ◌∙◌, ap, true, Option, none, some, [], ◌∷◌, if◌then◌else◌, is_some, if_true,
}
use credish.Prelude.Int.{is_long, ℤ, ◌+ℤ◌}
use credish.Sds.{Bytes}
use credish.Keys.{sds_dict_type, dict_cmp_sds}
use credish.Dict.{Dict, dict_create, dict_find, dict_fetch_value, dict_replace}
use credish.Dict.Placed.{IsValid, view}
use credish.Dict.Find.{dict_create_lem, dict_find_lem}
use credish.Dict.Insert.{dict_replace_lem}
use credish.Object.{
  CredishObject, obj_string, obj_list, obj_hash, obj_set, obj_zset, obj_create_hash,
}
use credish.Aof.{print_ℤ, aof_append_len}
use credish.Db.{CredishDb, db_lookup, db_lookup_write, write_object}
use credish.Db.Refines.{IsDb, live, db_set_lem, Writes-at}
use credish.Db.Lookup.{db_lookup_lem, found-Same, live_object, write_object-Writes}
use credish.Commands.{Clock, Store}
use credish.Commands.Set.{Touches, Touches-trans, Purges-Touches, Writes-Touches, purged_deadline}
use credish.Hash.Fields.{HashesAreValid, allows_hash, fields_of, touched-HashesAreValid}
use credish.Counters.{
  CountReply, int_reply, parse_payload, field_number, hincr_from, hincr_number, hincr_in, hincr_at,
  py_hincrby,
}
use credish.Counters.Strings.{parse_number-print_ℤ}

module _ {L Z : Type 0} where
  -- The sum has been stored, tagged as an int, in the field of the hash, whose object was `o`.
  pub record HashCounted (store : Store L Z) (key field : Bytes) (sum : ℤ)
      (o : Option (CredishObject L Z)) (r : Store L Z × CountReply) : Type 0 where
    pub touches : Touches store.db key r.0.db
    pub fields : Dict Bytes Bytes
    pub stored : view r.0.db.keys key ≡ some (obj_hash fields)
    pub valid : IsValid fields
    pub writes :
        (q : Bytes)
        → view fields q
          ≡ (if dict_cmp_sds field q then some (3 ∷ print_ℤ sum) else view (fields_of o) q)
    pub answer : r.1 ≡ int_reply sum
    pub deadline : view r.0.db.expires key ≡ (if is_some o then view store.db.expires key else none)
    pub logged :
        r.0.aof_file
        ≡ aof_append_len store.aof_file
            (72 ∷ 83 ∷ 69 ∷ 84 ∷ [])
            (key ∷ field ∷ (3 ∷ print_ℤ sum) ∷ [])

  hincr_in-HashCounted :
      (store : Store L Z) {db : CredishDb (CredishObject L Z)} (d : Dict Bytes Bytes)
      (key field : Bytes) (amount n : ℤ) (o : Option (CredishObject L Z)) {old : CredishObject L Z}
      → Touches store.db key db
      → view db.expires key ≡ (if is_some o then view store.db.expires key else none)
      → view db.keys key ≡ some old
      → IsValid d
      → fields_of o ≡ d
      → field_number (view d field) ≡ some n
      → is_long (n +ℤ amount) ≡ true
      → (r : Store L Z × CountReply) × (hincr_in store db d key field amount ≡ some r)
        × HashCounted store key field (n +ℤ amount) o r
  unfolding hincr_in hincr_from hincr_number dict_fetch_value
  hincr_in-HashCounted store {db} d key field amount n o t same present valid own holds h =
      let (k, e) = dict_find_lem field valid in
      let (done, u) = dict_replace_lem field (3 ∷ print_ℤ (n +ℤ amount)) k.valid in
      let new = (dict_replace (dict_find d field).0 field (3 ∷ print_ℤ (n +ℤ amount))).0 in
      let w = write_object-Writes key (obj_hash new) t.valid present in
      (
        (
          record {
            db = write_object db key (obj_hash new);
            aof_file =
                aof_append_len store.aof_file (72 ∷ 83 ∷ 69 ∷ 84 ∷ [])
                  (key ∷ field ∷ (3 ∷ print_ℤ (n +ℤ amount)) ∷ []);
          },
          int_reply (n +ℤ amount),
        ),
        ap (hincr_number store db (dict_find d field).0 key field amount)
              (ap field_number e ∙ holds)
            ∙ if_true _ _ h,
        record {
          touches = Touches-trans t (Writes-Touches w);
          fields = new;
          stored = (Writes-at w).0;
          valid = u.valid;
          writes = λ q.
              u.same q
              ∙ ap (λ m. if dict_cmp_sds field q then some (3 ∷ print_ℤ (n +ℤ amount)) else m)
                  (k.same q ∙ ap (λ c. view c q) (sym own));
          answer = refl;
          deadline = (Writes-at w).1 ∙ same;
          logged = refl;
        },
      )

  hincr_at-HashCounted :
      (clock : Clock) (store : Store L Z) (key field : Bytes) (amount n : ℤ)
      (o : Option (CredishObject L Z))
      → IsDb store.db
      → HashesAreValid store.db
      → live (clock 0) store.db key ≡ o
      → allows_hash o ≡ true
      → field_number (view (fields_of o) field) ≡ some n
      → is_long (n +ℤ amount) ≡ true
      → (r : Store L Z × CountReply) × (hincr_at store
            (db_lookup (clock 0) store.db key).0
            key
            field
            amount
            o
          ≡ some r)
        × HashCounted store key field (n +ℤ amount) o r
  unfolding hincr_at allows_hash HashesAreValid obj_create_hash
  hincr_at-HashCounted clock store key field amount n none v hashes e typed holds h =
      let p = (db_lookup_lem (clock 0) key v).0 in
      let new = db_set_lem key obj_create_hash p.valid in
      hincr_in-HashCounted store dict_create key field amount n none
        (Touches-trans (Purges-Touches p) (Writes-Touches new))
        ((Writes-at new).1 ∙ purged_deadline v p (ap is_some e)) (Writes-at new).0
        (dict_create_lem {K = Bytes} {V = Bytes}).0 refl holds h
  hincr_at-HashCounted clock store key field amount n (some (obj_hash d)) v hashes e typed holds h =
      let object = live_object (clock 0) store.db key e in
      let p = (db_lookup_lem (clock 0) key v).0 in
      let same = (found-Same (clock 0) key v (ap is_some e)).0 in
      hincr_in-HashCounted store d key field amount n (some (obj_hash d)) (Purges-Touches p)
        (same.deadlines key) (same.objects key ∙ object) (hashes key d object) refl holds h
  hincr_at-HashCounted clock store key field amount n (some (obj_string _ _)) v hs e typed c h = cc
  hincr_at-HashCounted clock store key field amount n (some (obj_list _)) v hs e typed c h = cc
  hincr_at-HashCounted clock store key field amount n (some (obj_set _)) v hs e typed c h = cc
  hincr_at-HashCounted clock store key field amount n (some (obj_zset _)) v hs e typed c h = cc

  -- HINCRBY, where the key is not live or is a hash, the field is not there or holds the digits of a
  -- number, and the sum is a `long long`, stores the sum in the field, tagged as an int, so that the
  -- next HINCRBY reads it; it answers the sum and logs it as by HSET. It changes no other field and no
  -- other key, and keeps the key's deadline unless it has passed. The database is well formed and its
  -- hashes are valid, which they stay.
  pub py_hincrby_lem :
      (clock : Clock) {store : Store L Z} (key field : Bytes) (amount n : ℤ)
      → IsDb store.db
      → HashesAreValid store.db
      → allows_hash (live (clock 0) store.db key) ≡ true
      → field_number (view (fields_of (live (clock 0) store.db key)) field) ≡ some n
      → is_long (n +ℤ amount) ≡ true
      → (r : Store L Z × CountReply) × (py_hincrby clock store key field amount ≡ some r)
        × HashCounted store key field (n +ℤ amount) (live (clock 0) store.db key) r
        × HashesAreValid r.0.db
        × (field_number (some (3 ∷ print_ℤ (n +ℤ amount))) ≡ some (n +ℤ amount))
  unfolding py_hincrby db_lookup_write field_number parse_payload
  py_hincrby_lem clock {store} key field amount n v hashes typed holds h =
      let (r, step, c) =
        hincr_at-HashCounted clock store key field amount n _ v hashes refl typed holds h in
      (
        r,
        ap (hincr_at store (db_lookup (clock 0) store.db key).0 key field amount)
              (db_lookup_lem (clock 0) key v).1
            ∙ step,
        c,
        touched-HashesAreValid key hashes c.touches c.stored c.valid,
        parse_number-print_ℤ (n +ℤ amount) h,
      )
