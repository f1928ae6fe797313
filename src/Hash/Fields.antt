-- ===== src/Hash/Fields.antt =====
-- hash.c: the commands that write fields, against the map from fields to values.
use credish.Prelude.{
  ℕ, ◌+◌, ◌≡◌, subst, refl, sym, ◌∙◌, ap, Bool, true, false, Option, none, some, List, [], ◌∷◌,
  arith, if◌then◌else◌, is_some, Bool-cases, inl, inr,
}
use credish.Sds.{Bytes}
use credish.Keys.{sds_dict_type, dict_cmp_sds, dict_cmp_sds_iff}
use credish.Dict.{Dict, dict_create, dict_size, dict_find, dict_replace}
use credish.Dict.Placed.{IsValid, view}
use credish.Dict.Find.{dict_create_lem, dict_find_lem}
use credish.Dict.Insert.{dict_replace_lem}
use credish.Object.{
  CredishObject, obj_string, obj_list, obj_set, obj_zset, obj_hash, obj_create_hash,
}
use credish.Db.{CredishDb, db_lookup, db_lookup_write}
use credish.Db.Refines.{IsDb, live, db_set_lem, Writes-at}
use credish.Db.Lookup.{write_object-Writes, live_object, db_lookup_lem, found-Same}
use credish.Commands.{Clock, Store}
use credish.Commands.Set.{Touches, Touches-trans, Purges-Touches, Writes-Touches, purged_deadline}
use credish.Hash.{apply_fields, apply_to, log, hash_apply_fields}

-- The value of a field once the pairs are written one after the other over `old`.
unfoldable pub written : List (Bytes × Bytes) → (field : Bytes) → Option Bytes → Option Bytes
written [] q old = old
written ((field, value) ∷ pairs) q old =
    written pairs q (if dict_cmp_sds field q then some value else old)

-- The loop of `hash_apply_fields` writes the pairs one after the other over what a valid dictionary
-- has, and counts as many fields as the dictionary gains.
pub apply_fields_lem :
    (pairs : List (Bytes × Bytes)) {d : Dict Bytes Bytes} (added : ℕ)
    → IsValid d
    → IsValid (apply_fields d pairs added).0
      × ((q : Bytes) → view (apply_fields d pairs added).0 q ≡ written pairs q (view d q))
      × ((apply_fields d pairs added).1 + dict_size d
          ≡ added + dict_size (apply_fields d pairs added).0)
unfolding apply_fields written
apply_fields_lem [] added v = (v, λ q. refl, omega arith)
apply_fields_lem ((field, value) ∷ pairs) {d} added v =
    let (k, e) = dict_find_lem field v in
    let (done, u) = dict_replace_lem field value k.valid in
    let rest =
      apply_fields_lem pairs {d = (dict_replace (dict_find d field).0 field value).0}
        (if is_some (dict_find d field).1 then added else added + 1) u.valid in
    (
      rest.0,
      λ q. rw (rest.1 q, u.same q, k.same q),
      ground (arith, rest.2, u.size, k.size, e, k.same field),
    )

module _ {L Z : Type 0} where
  -- The dictionaries of the hashes are valid.
  unfoldable pub HashesAreValid : CredishDb (CredishObject L Z) → Type 0
  HashesAreValid db =
      (q : Bytes) (d : Dict Bytes Bytes) → view db.keys q ≡ some (obj_hash d) → IsValid d

  -- Whether the object, if there is one, is a hash.
  unfoldable pub allows_hash : Option (CredishObject L Z) → Bool
  allows_hash none = true
  allows_hash (some (obj_hash d)) = true
  allows_hash (some _) = false

  -- The dictionary of a hash, which is empty without one.
  abbrev pub fields_of : Option (CredishObject L Z) → Dict Bytes Bytes
  fields_of (some (obj_hash d)) = d
  fields_of _ = dict_create

  -- `hash_apply_fields` has written the pairs, and counted those that were new.
  pub record Applied (db : CredishDb (CredishObject L Z)) (key : Bytes)
      (pairs : List (Bytes × Bytes)) (o : Option (CredishObject L Z)) (r : Store L Z × Option ℕ)
      : Type 0 where
    pub touches : Touches db key r.0.db
    pub fields : Dict Bytes Bytes
    pub stored : view r.0.db.keys key ≡ some (obj_hash fields)
    pub valid : IsValid fields
    pub writes : (q : Bytes) → view fields q ≡ written pairs q (view (fields_of o) q)
    pub added : ℕ
    pub answer : r.1 ≡ some added
    pub count : added + dict_size (fields_of o) ≡ dict_size fields
    pub deadline : view r.0.db.expires key ≡ (if is_some o then view db.expires key else none)

  apply_to-hash-Applied :
      (store : Store L Z) {db : CredishDb (CredishObject L Z)} (key : Bytes)
      (pairs : List (Bytes × Bytes)) (d : Dict Bytes Bytes)
      → IsDb db
      → IsValid d
      → view db.keys key ≡ some (obj_hash d)
      → Applied db key pairs (some (obj_hash d)) (apply_to store db key pairs (some (obj_hash d)))
  unfolding apply_to log
  apply_to-hash-Applied store key pairs d v valid present =
      let r = apply_fields_lem pairs 0 valid in
      let w = write_object-Writes key (obj_hash (apply_fields d pairs 0).0) v present in
      record {
        touches = Writes-Touches w;
        fields = (apply_fields d pairs 0).0;
        stored = (Writes-at w).0;
        valid = r.0;
        writes = r.1;
        added = (apply_fields d pairs 0).1;
        answer = refl;
        count = omega (arith, r.2);
        deadline = (Writes-at w).1;
      }

  apply_to-none-Applied :
      (store : Store L Z) {db : CredishDb (CredishObject L Z)} (key : Bytes)
      (pairs : List (Bytes × Bytes))
      → IsDb db
      → view db.expires key ≡ none
      → Applied db key pairs none (apply_to store db key pairs none)
  unfolding apply_to log obj_create_hash
  apply_to-none-Applied store key pairs v fresh =
      let new = db_set_lem key obj_create_hash v in
      let r = apply_fields_lem pairs 0 (dict_create_lem {K = Bytes} {V = Bytes}).0 in
      let w =
        write_object-Writes key (obj_hash (apply_fields dict_create pairs 0).0) new.valid
          (Writes-at new).0 in
      record {
        touches = Touches-trans (Writes-Touches new) (Writes-Touches w);
        fields = (apply_fields dict_create pairs 0).0;
        stored = (Writes-at w).0;
        valid = r.0;
        writes = r.1;
        added = (apply_fields dict_create pairs 0).1;
        answer = refl;
        count = omega (arith, r.2);
        deadline = (Writes-at w).1 ∙ (Writes-at new).1 ∙ fresh;
      }

  pub touched-HashesAreValid :
      {db db' : CredishDb (CredishObject L Z)} (key : Bytes) {fields : Dict Bytes Bytes}
      → HashesAreValid db
      → Touches db key db'
      → view db'.keys key ≡ some (obj_hash fields)
      → IsValid fields
      → HashesAreValid db'
  unfolding HashesAreValid
  touched-HashesAreValid {db} {db'} key {fields} hashes t stored valid q d h =
      elim (Bool-cases (dict_cmp_sds key q)) [
        | inl e ↦
            let same : key ≡ q = (dict_cmp_sds_iff key q).0 e in
            subst IsValid (ap fields_of (sym stored ∙ ap (view db'.keys) same ∙ h)) valid
        | inr ne ↦ hashes q d (sym (t.objects q ne) ∙ h)
      ]

  after_lookup-Applied :
      {a b : CredishDb (CredishObject L Z)} {key : Bytes} {pairs : List (Bytes × Bytes)}
      {o : Option (CredishObject L Z)} {r : Store L Z × Option ℕ}
      → Touches a key b
      → (is_some o ≡ true → view b.expires key ≡ view a.expires key)
      → Applied b key pairs o r
      → Applied a key pairs o r
  after_lookup-Applied t same r = record {
    touches = Touches-trans t r.touches;
    fields = r.fields;
    stored = r.stored;
    valid = r.valid;
    writes = r.writes;
    added = r.added;
    answer = r.answer;
    count = r.count;
    deadline = ground (arith, r.deadline, same);
  }

  apply_to-Applied :
      (clock : Clock) (store : Store L Z) (key : Bytes) (pairs : List (Bytes × Bytes))
      (o : Option (CredishObject L Z))
      → IsDb store.db
      → HashesAreValid store.db
      → live (clock 0) store.db key ≡ o
      → allows_hash o ≡ true
      → Applied store.db key pairs o
          (apply_to store (db_lookup (clock 0) store.db key).0 key pairs o)
  unfolding allows_hash HashesAreValid
  apply_to-Applied clock store key pairs none v hashes e typed =
      let p = (db_lookup_lem (clock 0) key v).0 in
      after_lookup-Applied (Purges-Touches p) (λ h. cc)
        (apply_to-none-Applied store key pairs p.valid (purged_deadline v p (ap is_some e)))
  apply_to-Applied clock store key pairs (some (obj_hash d)) v hashes e typed =
      let s = (found-Same (clock 0) key v (ap is_some e)).0 in
      let p = (db_lookup_lem (clock 0) key v).0 in
      after_lookup-Applied (Purges-Touches p) (λ h. s.deadlines key)
        (apply_to-hash-Applied store key pairs d p.valid
          (hashes key d (live_object (clock 0) store.db key e))
          (s.objects key ∙ live_object (clock 0) store.db key e))
  apply_to-Applied clock store key pairs (some (obj_string _ _)) v hashes e typed = cc
  apply_to-Applied clock store key pairs (some (obj_list _)) v hashes e typed = cc
  apply_to-Applied clock store key pairs (some (obj_set _)) v hashes e typed = cc
  apply_to-Applied clock store key pairs (some (obj_zset _)) v hashes e typed = cc

  -- HSET under a key that is not live or is a hash writes its pairs in order over what the hash
  -- had, counts the fields that are new, keeps the key's deadline unless it has passed, and changes
  -- no other key. The database is well formed and its hashes are valid.
  pub hash_apply_fields_lem :
      (clock : Clock) (store : Store L Z) (key : Bytes) (pairs : List (Bytes × Bytes))
      → IsDb store.db
      → HashesAreValid store.db
      → allows_hash (live (clock 0) store.db key) ≡ true
      → Applied store.db key pairs
          (live (clock 0) store.db key)
          (hash_apply_fields clock store key pairs)
        × HashesAreValid (hash_apply_fields clock store key pairs).0.db
  unfolding hash_apply_fields db_lookup_write
  hash_apply_fields_lem clock store key pairs v hashes typed =
      let (p, e) = db_lookup_lem (clock 0) key v in
      let a = apply_to-Applied clock store key pairs _ v hashes refl typed in
      rw e (a, touched-HashesAreValid key hashes a.touches a.stored a.valid)
