-- ===== src/Db/Lookup.antt =====
-- db.c: the lookup with its lazy expiry, against what a client sees at a time.
use credish.Prelude.{
  ◌≡◌, refl, ◌∙◌, ap, true, false, none, some, arith, if◌then◌else◌, ◌&&◌, is_some, Bool-cases, inl,
  inr,
}
use credish.Prelude.Int.{ℤ}
use credish.Sds.{Bytes}
use credish.Keys.{sds_dict_type, dict_cmp_sds, dict_cmp_sds_iff}
use credish.Dict.{dict_find, dict_fetch_value}
use credish.Dict.Placed.{view}
use credish.Dict.Find.{dict_find_lem}
use credish.Dict.Insert.{dict_assign-Updates}
use credish.Dict.Delete.{dict_delete_lem}
use credish.Db.{
  CredishDb, past, remove_both, db_is_expired, lazy_expire, fetch, db_lookup, write_object,
}
use credish.Db.Refines.{
  IsDb, live, Writes, Same, keys-Same, keys-Writes, db_is_expired_lem, both-Writes,
}

module _ {V : Type 0} where
  -- `db'` is well formed, and is `db` without the key if the key's deadline has passed.
  pub record Purges (now : ℤ) (db : CredishDb V) (key : Bytes) (db' : CredishDb V) : Type 0 where
    pub valid : IsDb db'
    pub objects :
        (q : Bytes)
        → view db'.keys q
          ≡ (if dict_cmp_sds key q && past now (view db.expires key) then none else view db.keys q)
    pub deadlines :
        (q : Bytes)
        → view db'.expires q ≡ (
            if dict_cmp_sds key q && past now (view db.expires key)
            then none
            else view db.expires q)

  Same-Purges :
      {now : ℤ} {db db' : CredishDb V} {key : Bytes}
      → past now (view db.expires key) ≡ false
      → Same db db'
      → Purges now db key db'
  Same-Purges {key = key} fresh s = record {
    valid = s.valid;
    objects = λ q. ground (arith, s.objects q);
    deadlines = λ q. ground (arith, s.deadlines q);
  }

  Writes-Purges :
      {now : ℤ} {db mid db' : CredishDb V} {key : Bytes}
      → past now (view db.expires key) ≡ true
      → Same db mid
      → Writes mid key none none db'
      → Purges now db key db'
  Writes-Purges {key = key} stale s w = record {
    valid = w.valid;
    objects = λ q. ground (arith, w.objects q, s.objects q);
    deadlines = λ q. ground (arith, w.deadlines q, s.deadlines q);
  }

  lazy_expire_lem :
      (now : ℤ) {db : CredishDb V} (key : Bytes)
      → IsDb db
      → Purges now db key (lazy_expire now db key).0
        × ((lazy_expire now db key).1 ≡ past now (view db.expires key))
  unfolding lazy_expire remove_both
  lazy_expire_lem now {db} key v =
      let (s, e) = db_is_expired_lem now key v in
      elim (Bool-cases (past now (view db.expires key))) [
        | inl stale ↦
            let cut =
              both-Writes s.valid (dict_delete_lem key s.valid.keys).1
                (dict_delete_lem key s.valid.expires).1 (λ h. h) in
            rw (e, stale) (Writes-Purges stale s cut, refl)
        | inr fresh ↦ rw (e, fresh) (Same-Purges fresh s, refl)
      ]

  -- `db_lookup` returns the object that is live under the key at that time, and removes the key,
  -- its object and its deadline, exactly when its deadline has passed. The database is well formed.
  pub db_lookup_lem :
      (now : ℤ) {db : CredishDb V} (key : Bytes)
      → IsDb db
      → Purges now db key (db_lookup now db key).0 × ((db_lookup now db key).1 ≡ live now db key)
  unfolding db_lookup fetch dict_fetch_value live
  db_lookup_lem now {db} key v =
      let (p, e) = lazy_expire_lem now key v in
      elim (Bool-cases (past now (view db.expires key))) [
        | inl stale ↦ rw (e, stale) (p, refl)
        | inr fresh ↦
            let (k, hit) = dict_find_lem key p.valid.keys in
            rw (e, fresh) (fetched p (keys-Same p.valid k), hit ∙ p.objects key ∙ kept fresh)
      ]
    where
      kept :
          past now (view db.expires key) ≡ false
          → (if dict_cmp_sds key key && past now (view db.expires key)
              then none
              else view db.keys key)
            ≡ view db.keys key
      kept h = ground arith

      fetched :
          {mid db' : CredishDb V} → Purges now db key mid → Same mid db' → Purges now db key db'
      fetched p s = record {
        valid = s.valid;
        objects = λ q. s.objects q ∙ p.objects q;
        deadlines = λ q. s.deadlines q ∙ p.deadlines q;
      }

  -- A lookup that finds the key changes nothing, and the object is the key's.
  pub found-Same :
      (now : ℤ) {db : CredishDb V} (key : Bytes)
      → IsDb db
      → is_some (live now db key) ≡ true
      → Same db (db_lookup now db key).0 × (is_some (view db.keys key) ≡ true)
  unfolding live
  found-Same now {db} key v hit =
      let p = (db_lookup_lem now key v).0 in
      (
        record {
          valid = p.valid;
          objects = λ q. ground (arith, p.objects q, hit);
          deadlines = λ q. ground (arith, p.deadlines q, hit);
        },
        ground (arith, hit),
      )

  -- A lookup in a well-formed database does not change what a client sees under any key at a time
  -- `later` at which the deadline of the key looked up has passed if it had passed at the lookup.
  pub db_lookup-live :
      (now later : ℤ) {db : CredishDb V} (key q : Bytes)
      → IsDb db
      → (past now (view db.expires key) ≡ true → past later (view db.expires key) ≡ true)
      → live later (db_lookup now db key).0 q ≡ live later db q
  unfolding live
  db_lookup-live now later {db} key q v mono =
      let p = (db_lookup_lem now key v).0 in
      rw (p.objects q, p.deadlines q)
        (ground (arith, dict_cmp_sds_iff key q, ap (view db.expires), mono))

  -- A write through the pointer to the object of a key that is there.
  pub write_object-Writes :
      {db : CredishDb V} (key : Bytes) (o : V) {old : V}
      → IsDb db
      → view db.keys key ≡ some old
      → Writes db key (some o) (view db.expires key) (write_object db key o)
  unfolding write_object
  write_object-Writes key o v present = keys-Writes v (dict_assign-Updates key o v.keys present)

  -- A live object is the object under the key.
  pub live_object :
      (now : ℤ) (db : CredishDb V) (key : Bytes) {o : V}
      → live now db key ≡ some o
      → view db.keys key ≡ some o
  unfolding live
  live_object now db key h = ground (arith, h)

  -- Without a deadline the time does not matter.
  pub db_lookup-timeless :
      (now later : ℤ) {db : CredishDb V} (key : Bytes)
      → IsDb db
      → view db.expires key ≡ none
      → db_lookup now db key ≡ db_lookup later db key
  unfolding db_lookup lazy_expire db_is_expired
  db_lookup-timeless now later {db} key v e =
      let found : (dict_find db.expires key).1 ≡ none = (dict_find_lem key v.expires).1 ∙ e in
      rw found refl
