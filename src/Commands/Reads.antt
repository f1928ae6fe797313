-- ===== src/Commands/Reads.antt =====
-- credish_module.c: the commands that read a key, against what a client sees at the time of the read.
use credish.Prelude.{◌≡◌, ap}
use credish.Sds.{Bytes}
use credish.Object.{CredishObject}
use credish.Db.{CredishDb}
use credish.Db.Refines.{IsDb, live}
use credish.Db.Lookup.{Purges, db_lookup_lem}
use credish.Commands.{
  name_reply, get_reply, encoding_reply, type_name, Clock, py_get, py_get_encoding, py_type,
}

module _ {L Z : Type 0} where
  -- GET, the encoding query and TYPE answer by the object that is live under the key when they read
  -- the clock, and remove the key exactly when its deadline has passed.
  -- The database is well formed.
  pub reads_lem :
      (clock : Clock) {db : CredishDb (CredishObject L Z)} (key : Bytes)
      → IsDb db
      → (Purges (clock 0) db key (py_get clock db key).0
          × ((py_get clock db key).1 ≡ get_reply (live (clock 0) db key)))
        × (Purges (clock 0) db key (py_get_encoding clock db key).0
            × ((py_get_encoding clock db key).1 ≡ encoding_reply (live (clock 0) db key)))
        × Purges (clock 0) db key (py_type clock db key).0
        × ((py_type clock db key).1 ≡ name_reply (type_name (live (clock 0) db key)))
  unfolding py_get py_get_encoding py_type
  reads_lem clock key v =
      let (p, e) = db_lookup_lem (clock 0) key v in
      ((p, ap get_reply e), (p, ap encoding_reply e), p, ap (λ o. name_reply (type_name o)) e)
