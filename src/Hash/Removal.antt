-- ===== src/Hash/Removal.antt =====
-- hash.c: the command that removes fields, against the map from fields to values.
use credish.Prelude.{
  ℕ, ◌+◌, ◌≡◌, refl, ◌∙◌, ap, Bool, true, false, none, some, List, [], ◌∷◌, arith, if◌then◌else◌,
  is_some, length,
}
use credish.Sds.{Bytes}
use credish.Keys.{sds_dict_type, dict_cmp_sds}
use credish.Dict.{Dict, dict_size, dict_delete}
use credish.Dict.Placed.{IsValid, view}
use credish.Dict.Delete.{dict_delete_lem}
use credish.Object.{CredishObject, obj_hash}
use credish.Db.{write_object, CredishDb, db_lookup, db_lookup_write}
use credish.Db.Refines.{IsDb, live, Writes-at}
use credish.Db.Lookup.{live_object, write_object-Writes, db_lookup_lem, found-Same}
use credish.Commands.{Clock, Store}
use credish.Commands.Set.{Touches, Touches-trans, Purges-Touches, Writes-Touches}
use credish.Hash.{count_reply, remove_fields, log, log_removed, delete_from, py_hdel}
use credish.Hash.Fields.{HashesAreValid}

-- Whether the field is in the list.
unfoldable pub listed : (field : Bytes) → List Bytes → Bool
listed q [] = false
listed q (field ∷ fields) = if dict_cmp_sds field q then true else listed q fields

remove_fields_lem :
    (fields : List Bytes) {d : Dict Bytes Bytes}
    → IsValid d
    → IsValid (remove_fields d fields).0
      × ((q : Bytes)
          → view (remove_fields d fields).0 q ≡ (if listed q fields then none else view d q))
      × (length (remove_fields d fields).1 + dict_size (remove_fields d fields).0 ≡ dict_size d)
unfolding remove_fields listed
remove_fields_lem [] v = (v, λ q. refl, omega arith)
remove_fields_lem (field ∷ fields) {d} v =
    let (e, u) = dict_delete_lem field v in
    let rest = remove_fields_lem fields {d = (dict_delete d field).0} u.valid in
    (rest.0, λ q. ground (arith, rest.1 q, u.same q), ground (arith, rest.2, u.size, e))

module _ {L Z : Type 0} where
  -- `py_hdel` has removed the fields from the hash and changed no other key.
  pub record Removed (db : CredishDb (CredishObject L Z)) (key : Bytes) (removed : List Bytes)
      (d : Dict Bytes Bytes) (db' : CredishDb (CredishObject L Z)) (n : ℕ) : Type 0 where
    pub touches : Touches db key db'
    pub fields : Dict Bytes Bytes
    pub stored : view db'.keys key ≡ some (obj_hash fields)
    pub valid : IsValid fields
    pub removes : (q : Bytes) → view fields q ≡ (if listed q removed then none else view d q)
    pub count : n + dict_size fields ≡ dict_size d
    pub deadline : view db'.expires key ≡ view db.expires key

  log_removed-db :
      (store : Store L Z) (db : CredishDb (CredishObject L Z)) (key : Bytes) (removed : List Bytes)
      → (log_removed store db key removed).db ≡ db
  unfolding log_removed log
  log_removed-db store db key [] = refl
  log_removed-db store db key (field ∷ removed) = refl

  -- HDEL on a live hash removes the fields of its list and no others, answers how many fields the
  -- hash has lost, and keeps the deadline of the key and all other keys.
  -- The database is well formed and its hashes are valid.
  pub py_hdel_lem :
      (clock : Clock) (store : Store L Z) (key : Bytes) (fields : List Bytes) (d : Dict Bytes Bytes)
      → IsDb store.db
      → HashesAreValid store.db
      → live (clock 0) store.db key ≡ some (obj_hash d)
      → (n : ℕ) × ((py_hdel clock store key fields).1 ≡ count_reply n)
        × Removed store.db key fields d (py_hdel clock store key fields).0.db n
  unfolding py_hdel delete_from db_lookup_write HashesAreValid
  py_hdel_lem clock store key fields d v hashes alive =
      let (p, e) = db_lookup_lem (clock 0) key v in
      let s = (found-Same (clock 0) key v (ap is_some alive)).0 in
      let object = live_object (clock 0) store.db key alive in
      let r = remove_fields_lem fields (hashes key d object) in
      let w =
        write_object-Writes key (obj_hash (remove_fields d fields).0) p.valid
          (s.objects key ∙ object) in
      let after : Removed store.db key fields d
          (write_object (db_lookup (clock 0) store.db key).0 key
            (obj_hash (remove_fields d fields).0))
          (length (remove_fields d fields).1) =
        record {
          touches = Touches-trans (Purges-Touches p) (Writes-Touches w);
          fields = (remove_fields d fields).0;
          stored = (Writes-at w).0;
          valid = r.0;
          removes = r.1;
          count = r.2;
          deadline = (Writes-at w).1 ∙ s.deadlines key;
        } in
      (length (remove_fields d fields).1, rw (e, alive) refl, rw (e, alive, log_removed-db) after)
