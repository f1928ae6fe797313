-- ===== src/Replay/Hashes.antt =====
-- aof.c and hash.c: the replay of the record of HSET, against the map from fields to values.
use credish.Prelude.{◌≡◌, refl, ◌∙◌, ap, true, Option, none, some, List, [], ◌∷◌, is_some}
use credish.Sds.{Bytes}
use credish.Keys.{sds_dict_type}
use credish.Dict.{Dict, dict_create, dict_replace}
use credish.Dict.Placed.{IsValid, view}
use credish.Dict.Find.{dict_create_lem}
use credish.Dict.Insert.{dict_replace_lem}
use credish.Object.{obj_string, obj_list, obj_hash, obj_set, obj_zset, obj_create_hash}
use credish.Db.{db_lookup}
use credish.Db.Refines.{IsDb, live, db_set_lem, Writes-at}
use credish.Db.Lookup.{db_lookup_lem, found-Same, live_object, write_object-Writes}
use credish.Commands.{Clock}
use credish.Commands.Set.{Touches, Touches-trans, Purges-Touches, Writes-Touches}
use credish.ListCommands.{Value}
use credish.Hash.{pair_args}
use credish.Hash.Fields.{HashesAreValid, allows_hash, fields_of, written}
use credish.Replay.{ListDb, replace_fields, set_fields, replay_hset, replay_cmd}

replace_fields_lem :
    (pairs : List (Bytes × Bytes)) (d : Dict Bytes Bytes)
    → IsValid d
    → IsValid (replace_fields d (pair_args pairs))
      × ((q : Bytes) → view (replace_fields d (pair_args pairs)) q ≡ written pairs q (view d q))
unfolding replace_fields pair_args written
replace_fields_lem [] d v = (v, λ q. refl)
replace_fields_lem ((field, value) ∷ pairs) d v =
    let (done, u) = dict_replace_lem field value v in
    let rest = replace_fields_lem pairs (dict_replace d field value).0 u.valid in
    (rest.0, λ q. rest.1 q ∙ ap (written pairs q) (u.same q))

module _ {Z : Type 0} where
  -- The replay has written the pairs over the hash `o` under the key, and touched no other key.
  pub record Restored (db : ListDb Z) (key : Bytes) (pairs : List (Bytes × Bytes))
      (o : Option (Value Z)) (db' : ListDb Z) : Type 0 where
    pub touches : Touches db key db'
    pub fields : Dict Bytes Bytes
    pub stored : view db'.keys key ≡ some (obj_hash fields)
    pub valid : IsValid fields
    pub writes : (q : Bytes) → view fields q ≡ written pairs q (view (fields_of o) q)

  set_fields-Restored :
      (clock : Clock) (db : ListDb Z) (key : Bytes) (pairs : List (Bytes × Bytes))
      (o : Option (Value Z))
      → IsDb db
      → HashesAreValid db
      → live (clock 0) db key ≡ o
      → allows_hash o ≡ true
      → Restored db key pairs o (set_fields (db_lookup (clock 0) db key).0 key (pair_args pairs) o)
  unfolding set_fields allows_hash HashesAreValid obj_create_hash
  set_fields-Restored clock db key pairs none v hashes e typed =
      let p = (db_lookup_lem (clock 0) key v).0 in
      let new = db_set_lem key obj_create_hash p.valid in
      let r = replace_fields_lem pairs dict_create (dict_create_lem {K = Bytes} {V = Bytes}).0 in
      let w =
        write_object-Writes key (obj_hash (replace_fields dict_create (pair_args pairs))) new.valid
          (Writes-at new).0 in
      record {
        touches =
            Touches-trans (Purges-Touches p)
              (Touches-trans (Writes-Touches new) (Writes-Touches w));
        fields = replace_fields dict_create (pair_args pairs);
        stored = (Writes-at w).0;
        valid = r.0;
        writes = r.1;
      }
  set_fields-Restored clock db key pairs (some (obj_hash d)) v hashes e typed =
      let object = live_object (clock 0) db key e in
      let p = (db_lookup_lem (clock 0) key v).0 in
      let s = (found-Same (clock 0) key v (ap is_some e)).0 in
      let r = replace_fields_lem pairs d (hashes key d object) in
      let w =
        write_object-Writes key (obj_hash (replace_fields d (pair_args pairs))) p.valid
          (s.objects key ∙ object) in
      record {
        touches = Touches-trans (Purges-Touches p) (Writes-Touches w);
        fields = replace_fields d (pair_args pairs);
        stored = (Writes-at w).0;
        valid = r.0;
        writes = r.1;
      }
  set_fields-Restored clock db key pairs (some (obj_string _ _)) v hashes e typed = cc
  set_fields-Restored clock db key pairs (some (obj_list _)) v hashes e typed = cc
  set_fields-Restored clock db key pairs (some (obj_set _)) v hashes e typed = cc
  set_fields-Restored clock db key pairs (some (obj_zset _)) v hashes e typed = cc

  module _ (replay_zadd replay_zrem : Clock → ListDb Z → List Bytes → Option (ListDb Z)) where
    -- The replay of the record that HSET logs for a pair and more does not fault. Under a key that is
    -- not live or is a hash it leaves the map from fields to values that HSET leaves: the pairs in
    -- order over what the hash had. It changes no other key. The database is well formed and its
    -- hashes are valid.
    pub replay_cmd-hset :
        (clock : Clock) (db : ListDb Z) (key : Bytes) (pair : Bytes × Bytes)
        (pairs : List (Bytes × Bytes))
        → IsDb db
        → HashesAreValid db
        → allows_hash (live (clock 0) db key) ≡ true
        → (db' : ListDb Z) × (replay_cmd replay_zadd replay_zrem clock db
              ((72 ∷ 83 ∷ 69 ∷ 84 ∷ []) ∷ key ∷ pair_args (pair ∷ pairs))
            ≡ some db')
          × Restored db key (pair ∷ pairs) (live (clock 0) db key) db'
    unfolding replay_cmd replay_hset pair_args
    replay_cmd-hset clock db key pair pairs v hashes typed = (
      set_fields (db_lookup (clock 0) db key).0 key (pair_args (pair ∷ pairs))
          (live (clock 0) db key),
      ap (λ o. some (set_fields (db_lookup (clock 0) db key).0 key (pair_args (pair ∷ pairs)) o))
          (db_lookup_lem (clock 0) key v).1,
      set_fields-Restored clock db key (pair ∷ pairs) _ v hashes refl typed,
    )
