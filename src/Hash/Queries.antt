-- ===== src/Hash/Queries.antt =====
-- hash.c: the commands that read a hash, against the map from fields to values.
use credish.Prelude.{
  ◌≡◌, refl, ◌∙◌, ap, Bool, true, false, Option, none, some, List, [], ◌∷◌, arith, is_some, map,
}
use credish.Sds.{Bytes}
use credish.Keys.{sds_dict_type}
use credish.Dict.{Dict, dict_size, dict_fetch_value}
use credish.Dict.Placed.{IsValid, view}
use credish.Dict.Find.{dict_find_lem}
use credish.Object.{CredishObject, obj_string, obj_list, obj_set, obj_zset, obj_hash}
use credish.Db.{CredishDb, past}
use credish.Db.Refines.{IsDb, live}
use credish.Db.Lookup.{live_object, db_lookup_lem}
use credish.Commands.{Clock, Store}
use credish.Hash.{
  py_none, HashReply, wrong_type, count_reply, flag_reply, item_reply, list_reply, fetched_item,
  fetch_fields, query_of, query, hash_apply_fields, py_hget, py_hmget, py_hexists, py_hlen,
}
use credish.Hash.Fields.{HashesAreValid, allows_hash, fields_of, written, hash_apply_fields_lem}

map-same {ℓ κ} :
    {A : Type ℓ} {B : Type κ} {f g : A → B}
    → ((x : A) → f x ≡ g x)
    → (xs : List A) → map f xs ≡ map g xs
map-same h [] = refl
map-same h (x ∷ xs) = rw (h x, map-same h xs)

fetch_fields_lem :
    (native : Bool) (fields : List Bytes) {d : Dict Bytes Bytes}
    → IsValid d
    → (fetch_fields native d fields).1 ≡ map (λ f. fetched_item native (view d f)) fields
unfolding fetch_fields dict_fetch_value
fetch_fields_lem native [] v = refl
fetch_fields_lem native (field ∷ fields) {d} v =
    let (k, e) = dict_find_lem field v in
    rw (
      e,
      fetch_fields_lem native fields k.valid,
      map-same (λ f. ap (fetched_item native) (k.same f)) fields,
    )

module _ {L Z : Type 0} where
  -- The reply by the object: `missing` without one, `ask` of the dictionary of a hash.
  unfoldable pub by_hash :
      HashReply → (Dict Bytes Bytes → HashReply) → Option (CredishObject L Z) → HashReply
  by_hash missing ask none = missing
  by_hash missing ask (some (obj_hash d)) = ask d
  by_hash missing ask (some _) = wrong_type

  query_of_lem :
      (db : CredishDb (CredishObject L Z)) (key : Bytes) (missing : HashReply)
      (ask : Dict Bytes Bytes → Dict Bytes Bytes × HashReply) (says : Dict Bytes Bytes → HashReply)
      (o : Option (CredishObject L Z))
      → ((d : Dict Bytes Bytes) → o ≡ some (obj_hash d) → (ask d).1 ≡ says d)
      → (query_of db key missing ask o).1 ≡ by_hash missing says o
  unfolding query_of by_hash
  query_of_lem db key missing ask says none h = refl
  query_of_lem db key missing ask says (some (obj_hash d)) h = h d refl
  query_of_lem db key missing ask says (some (obj_string _ _)) h = refl
  query_of_lem db key missing ask says (some (obj_list _)) h = refl
  query_of_lem db key missing ask says (some (obj_set _)) h = refl
  query_of_lem db key missing ask says (some (obj_zset _)) h = refl

  pub query_lem :
      (clock : Clock) {db : CredishDb (CredishObject L Z)} (key : Bytes) (missing : HashReply)
      (ask : Dict Bytes Bytes → Dict Bytes Bytes × HashReply) (says : Dict Bytes Bytes → HashReply)
      → IsDb db
      → HashesAreValid db
      → ((d : Dict Bytes Bytes) → IsValid d → (ask d).1 ≡ says d)
      → (query clock db key missing ask).1 ≡ by_hash missing says (live (clock 0) db key)
  unfolding query HashesAreValid
  query_lem clock {db} key missing ask says v hashes asks = rw ((db_lookup_lem (clock 0) key v).1) (
      query_of_lem _ key missing ask says _
        (λ d h. asks d (hashes key d (live_object (clock 0) db key h))))

  -- HGET, HMGET, HEXISTS and HLEN answer by the map of the hash that is live under the key: the
  -- field's value or None, those of all the fields in order, whether the field is there, and the
  -- number of fields. Without a live key they answer as for an empty hash; on another type, `WRONGTYPE`.
  -- The database is well formed and its hashes are valid.
  pub hash_queries_lem :
      (clock : Clock) {db : CredishDb (CredishObject L Z)} (key field : Bytes) (fields : List Bytes)
      (native : Bool)
      → IsDb db
      → HashesAreValid db
      → ((py_hget clock db key field native).1
          ≡ by_hash
              (item_reply py_none)
              (λ d. item_reply (fetched_item native (view d field)))
              (live (clock 0) db key))
        × ((py_hmget clock db key fields native).1
            ≡ by_hash
                (list_reply (map (λ f. py_none) fields))
                (λ d. list_reply (map (λ f. fetched_item native (view d f)) fields))
                (live (clock 0) db key))
        × ((py_hexists clock db key field).1
            ≡ by_hash
                (flag_reply false)
                (λ d. flag_reply (is_some (view d field)))
                (live (clock 0) db key))
        × ((py_hlen clock db key).1
            ≡ by_hash (count_reply 0) (λ d. count_reply (dict_size d)) (live (clock 0) db key))
  unfolding py_hget py_hmget py_hexists py_hlen dict_fetch_value
  hash_queries_lem clock key field fields native v hashes = (
    query_lem clock key _ _ _ v hashes
        (λ d valid. ap (λ o. item_reply (fetched_item native o)) (dict_find_lem field valid).1),
    query_lem clock key _ _ _ v hashes
        (λ d valid. ap list_reply (fetch_fields_lem native fields valid)),
    query_lem clock key _ _ _ v hashes
        (λ d valid. ap (λ o. flag_reply (is_some o)) (dict_find_lem field valid).1),
    query_lem clock key _ _ _ v hashes (λ d valid. refl),
  )

  -- HGET after an HSET on a key that was not live or was a hash answers what the pairs of the HSET
  -- leave for the field, when it reads the clock at a time at which the deadline that the key had
  -- before the HSET, if any, has not passed. The database is well formed and its hashes are valid.
  pub py_hget-hash_apply_fields :
      (clock later : Clock) (store : Store L Z) (key field : Bytes) (pairs : List (Bytes × Bytes))
      (native : Bool)
      → IsDb store.db
      → HashesAreValid store.db
      → allows_hash (live (clock 0) store.db key) ≡ true
      → past (later 0) (view store.db.expires key) ≡ false
      → (py_hget later (hash_apply_fields clock store key pairs).0.db key field native).1
        ≡ item_reply (
            fetched_item native
              (written pairs field (view (fields_of (live (clock 0) store.db key)) field)))
  unfolding by_hash live
  py_hget-hash_apply_fields clock later store key field pairs native v hashes typed fresh =
      let (a, hashes') = hash_apply_fields_lem clock store key pairs v hashes typed in
      let answer = (hash_queries_lem later key field [] native a.touches.valid hashes').0 in
      let alive : live (later 0) (hash_apply_fields clock store key pairs).0.db key
          ≡ some (obj_hash a.fields) =
        ground (arith, a.stored, a.deadline, fresh) in
      answer
      ∙ ap (by_hash _ _) alive
      ∙ ap (λ o. item_reply (fetched_item native o)) (a.writes field)
