-- ===== src/Commands/Counts.antt =====
-- credish_module.c: the commands that go through a list of keys.
use credish.Prelude.{
  ℕ, ◌+◌, ◌≤◌, ◌≡◌, refl, ap, Bool, true, false, Option, none, some, List, [], ◌∷◌, arith,
  if◌then◌else◌, is_some, all_some,
}
use credish.Prelude.Int.{ℤ, pos}
use credish.Sds.{Bytes}
use credish.Keys.{sds_dict_type, dict_cmp_sds}
use credish.Dict.{dict_size}
use credish.Dict.Placed.{view}
use credish.Db.{CredishDb, past, db_lookup, db_del}
use credish.Db.Refines.{IsDb, live, db_del_lem, db_del-size}
use credish.Db.Lookup.{db_lookup_lem, db_lookup-live}
use credish.Commands.{int_reply, raised, Clock, delete_keys, py_delete, count_keys, py_exists}

-- Whether a list of decoded keys has the key.
pub among : Bytes → List (Option Bytes) → Bool
among q [] = false
among q (none ∷ keys) = among q keys
among q (some key ∷ keys) = if dict_cmp_sds key q then true else among q keys

-- A deadline that has passed stays passed at the later reads of the clock.
abbrev pub Forward : Clock → Type 0
Forward clock = (i j : ℕ) (t : Option ℤ) → i ≤ j → past (clock i) t ≡ true → past (clock j) t ≡ true

module _ {V : Type 0} where
  -- What the loop of DEL does.
  record Deletes (db : CredishDb V) (keys : List (Option Bytes)) (deleted : ℕ) (r : CredishDb V × ℕ)
      : Type 0 where
    valid : IsDb r.0
    objects : (q : Bytes) → view r.0.keys q ≡ (if among q keys then none else view db.keys q)
    deadlines :
        (q : Bytes) → view r.0.expires q ≡ (if among q keys then none else view db.expires q)
    count : r.1 + dict_size r.0.keys ≡ deleted + dict_size db.keys

  delete_keys-Deletes :
      (keys : List (Option Bytes)) {db : CredishDb V} (deleted : ℕ)
      → IsDb db
      → Deletes db keys deleted (delete_keys db keys deleted)
  unfolding delete_keys among
  delete_keys-Deletes [] deleted v = record {
    valid = v;
    objects = λ q. refl;
    deadlines = λ q. refl;
    count = refl;
  }
  delete_keys-Deletes (none ∷ keys) deleted v =
      let rest = delete_keys-Deletes keys deleted v in
      record {
        valid = rest.valid;
        objects = rest.objects;
        deadlines = rest.deadlines;
        count = rest.count;
      }
  delete_keys-Deletes (some key ∷ keys) {db} deleted v =
      let (e, w) = db_del_lem key v in
      let rest =
        delete_keys-Deletes keys (if (db_del db key).1 then deleted + 1 else deleted) w.valid in
      record {
        valid = rest.valid;
        objects = λ q. ground (arith, rest.objects q, w.objects q);
        deadlines = λ q. ground (arith, rest.deadlines q, w.deadlines q);
        count = ground (arith, rest.count, db_del-size key v);
      }

  -- DEL removes the keys of its list that decode with their deadlines and no others, whether or not
  -- they have expired. It answers by how many keys the database has shrunk, or raises, after it has
  -- removed them, if a key does not decode. The database is well formed.
  pub py_delete_lem :
      {db : CredishDb V} (keys : List (Option Bytes))
      → IsDb db
      → IsDb (py_delete db keys).0
        × ((q : Bytes)
            → (view (py_delete db keys).0.keys q ≡ (if among q keys then none else view db.keys q))
              × (view (py_delete db keys).0.expires q
                  ≡ (if among q keys then none else view db.expires q)))
        × ((n : ℕ) × ((py_delete db keys).1 ≡ (if all_some keys then int_reply (pos n) else raised))
            × (n + dict_size (py_delete db keys).0.keys ≡ dict_size db.keys))
  unfolding py_delete
  py_delete_lem {db} keys v =
      let d = delete_keys-Deletes keys 0 v in
      (
        d.valid,
        λ q. (d.objects q, d.deadlines q),
        ((delete_keys db keys 0).1, refl, omega (arith, d.count)),
      )

  -- How many of the keys are live, the i-th of them at the i-th clock read.
  pub live_count : Clock → CredishDb V → List (Option Bytes) → (i : ℕ) → ℕ
  live_count clock db [] i = 0
  live_count clock db (none ∷ keys) i = live_count clock db keys (i + 1)
  live_count clock db (some key ∷ keys) i =
      let rest = live_count clock db keys (i + 1) in
      if is_some (live (clock i) db key) then rest + 1 else rest

  -- The count of a database that shows the same at the reads to come.
  live_count-same :
      (clock : Clock) (keys : List (Option Bytes)) (a b : CredishDb V) (i : ℕ)
      → ((j : ℕ) (q : Bytes) → i ≤ j → live (clock j) a q ≡ live (clock j) b q)
      → live_count clock a keys i ≡ live_count clock b keys i
  unfolding live_count
  live_count-same clock [] a b i same = refl
  live_count-same clock (none ∷ keys) a b i same =
      live_count-same clock keys a b (i + 1) (λ j q h. same j q (omega arith))
  live_count-same clock (some key ∷ keys) a b i same = rw (
    same i key (omega arith),
    live_count-same clock keys a b (i + 1) (λ j q h. same j q (omega arith)),
  )

  count_keys_lem :
      (clock : Clock) (keys : List (Option Bytes)) {db : CredishDb V} (i count : ℕ)
      → IsDb db
      → Forward clock
      → IsDb (count_keys clock db keys i count).0
        × ((count_keys clock db keys i count).1 ≡ count + live_count clock db keys i)
  unfolding count_keys live_count
  count_keys_lem clock [] i count v forward = (v, omega arith)
  count_keys_lem clock (none ∷ keys) i count v forward =
      count_keys_lem clock keys (i + 1) count v forward
  count_keys_lem clock (some key ∷ keys) {db} i count v forward =
      let (p, e) = db_lookup_lem (clock i) key v in
      let count' = if is_some (db_lookup (clock i) db key).1 then count + 1 else count in
      let (valid, total) = count_keys_lem clock keys (i + 1) count' p.valid forward in
      let same =
        live_count-same clock keys (db_lookup (clock i) db key).0 db (i + 1)
          (λ j q h. db_lookup-live (clock i) (clock j) key q v (forward i j _ (omega arith))) in
      (valid, ground (arith, total, same, e))

  -- EXISTS, on a clock that does not run back past a deadline, answers how many of the keys are
  -- live, each at its own read of the clock, counting a key as often as it is given, or raises if a
  -- key does not decode.
  -- The database is well formed.
  pub py_exists_lem :
      (clock : Clock) (keys : List (Option Bytes)) {db : CredishDb V}
      → IsDb db
      → Forward clock
      → IsDb (py_exists clock db keys).0
        × ((py_exists clock db keys).1
            ≡ (if all_some keys then int_reply (pos (live_count clock db keys 0)) else raised))
  unfolding py_exists
  py_exists_lem clock keys {db} v forward =
      let (valid, total) = count_keys_lem clock keys 0 0 v forward in
      (valid, ap (λ n. if all_some keys then int_reply (pos n) else raised) (omega (arith, total)))
