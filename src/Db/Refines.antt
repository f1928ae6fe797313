-- ===== src/Db/Refines.antt =====
-- db.c: every function against the two maps that a database stands for, and against what a client
-- sees of them at a time.
use credish.Prelude.{
  ◌≡◌, refl, sym, ◌∙◌, ap, true, Option, none, some, arith, if◌then◌else◌, is_some, ◌+◌,
}
use credish.Prelude.Int.{ℤ}
use credish.Sds.{Bytes}
use credish.Keys.{sds_dict_type, dict_cmp_sds, dict_cmp_sds_iff}
use credish.Dict.Rehash.{Keeps}
use credish.Dict.{Dict, dict_fetch_value, dict_size}
use credish.Dict.Placed
use credish.Dict.Placed.{view}
use credish.Dict.Write.{Updates, found}
use credish.Dict.Find.{dict_create_lem, dict_find_lem}
use credish.Dict.Insert.{dict_replace_lem}
use credish.Dict.Delete.{dict_delete_lem}
use credish.Db.{
  CredishDb, db_create, past, db_is_expired, db_set, db_del, db_set_expire, deadline_or,
  db_get_expire, db_remove_expire,
}

-- What is under a key that compares equal is under the key.
under {ℓ} :
    {A : Type ℓ} (f : Bytes → A) (key q : Bytes) → f q ≡ (if dict_cmp_sds key q then f key else f q)
under f key q = ground (arith, dict_cmp_sds_iff key q, ap f)

pub key_self : (key : Bytes) → dict_cmp_sds key key ≡ true
key_self key = (dict_cmp_sds_iff key key).1 refl

module _ {V : Type 0} where
  -- Both dictionaries are valid, and only keys that are there have a deadline.
  pub record IsDb (db : CredishDb V) : Type 0 where
    pub keys : Placed.IsValid db.keys
    pub expires : Placed.IsValid db.expires
    pub mirrors : (q : Bytes) → is_some (view db.expires q) ≡ true → is_some (view db.keys q) ≡ true

  -- What a client sees under a key at a time: the object, unless its deadline has passed.
  unfoldable pub live : ℤ → CredishDb V → Bytes → Option V
  live now db q = if past now (view db.expires q) then none else view db.keys q

  -- `db'` is well formed, and is `db` with `o` and `t` as object and deadline of `key`.
  pub record Writes (db : CredishDb V) (key : Bytes) (o : Option V) (t : Option ℤ)
      (db' : CredishDb V) : Type 0 where
    pub valid : IsDb db'
    pub objects : (q : Bytes) → view db'.keys q ≡ (if dict_cmp_sds key q then o else view db.keys q)
    pub deadlines :
        (q : Bytes) → view db'.expires q ≡ (if dict_cmp_sds key q then t else view db.expires q)

  -- `db'` is well formed and holds the same objects and deadlines.
  pub record Same (db db' : CredishDb V) : Type 0 where
    pub valid : IsDb db'
    pub objects : (q : Bytes) → view db'.keys q ≡ view db.keys q
    pub deadlines : (q : Bytes) → view db'.expires q ≡ view db.expires q

  -- A new database has no object and no deadline.
  pub db_create-empty :
      (q : Bytes)
      → (view {V = V} (CredishDb.keys db_create) q ≡ none)
        × (view (CredishDb.expires {V = V} db_create) q ≡ none)
  unfolding db_create
  db_create-empty q =
      ((dict_create_lem {K = Bytes} {V = V}).1 q, (dict_create_lem {K = Bytes} {V = ℤ}).1 q)

  -- A new database is well formed and holds nothing.
  pub db_create_lem : IsDb db_create × ((now : ℤ) (q : Bytes) → live now db_create q ≡ none)
  unfolding db_create live
  db_create_lem =
      let (valid, empty) = dict_create_lem {K = Bytes} {V = V} in
      let (valid', empty') = dict_create_lem {K = Bytes} {V = ℤ} in
      (
        record { keys = valid; expires = valid'; mirrors = λ q h. cc (h, ap is_some (empty' q)) },
        λ now q. rw (empty' q, empty q),
      )

  Same-refl : {db : CredishDb V} → IsDb db → Same db db
  Same-refl v = record { valid = v; objects = λ q. refl; deadlines = λ q. refl }

  pub Same-trans : {a b c : CredishDb V} → Same a b → Same b c → Same a c
  Same-trans s t = record {
    valid = t.valid;
    objects = λ q. t.objects q ∙ s.objects q;
    deadlines = λ q. t.deadlines q ∙ s.deadlines q;
  }

  -- The key's object and deadline after a write.
  pub Writes-at :
      {a b : CredishDb V} {key : Bytes} {o : Option V} {t : Option ℤ}
      → Writes a key o t b
      → (view b.keys key ≡ o) × (view b.expires key ≡ t)
  Writes-at {key = key} w =
      (ground (arith, w.objects key, key_self key), ground (arith, w.deadlines key, key_self key))

  -- A change that does not show before one that does.
  pub after-Same :
      {a b c : CredishDb V} {key : Bytes} {o : Option V} {t : Option ℤ}
      → Same a b
      → Writes b key o t c
      → Writes a key o t c
  after-Same s w = record {
    valid = w.valid;
    objects = λ q. rw (w.objects q, s.objects q);
    deadlines = λ q. rw (w.deadlines q, s.deadlines q);
  }

  -- A search steps a rehash, which does not show.
  pub keys-Same :
      {db : CredishDb V} {d : Dict Bytes V}
      → IsDb db
      → Keeps db.keys d
      → Same db (record db { keys = d })
  keys-Same v k = record {
    valid = record {
      keys = k.valid;
      expires = v.expires;
      mirrors = λ q h. ap is_some (k.same q) ∙ v.mirrors q h;
    };
    objects = k.same;
    deadlines = λ q. refl;
  }

  expires-Same :
      {db : CredishDb V} {d : Dict Bytes ℤ}
      → IsDb db
      → Keeps db.expires d
      → Same db (record db { expires = d })
  expires-Same v k = record {
    valid = record {
      keys = v.keys;
      expires = k.valid;
      mirrors = λ q h. v.mirrors q (sym (ap is_some (k.same q)) ∙ h);
    };
    objects = λ q. refl;
    deadlines = k.same;
  }

  -- `db_is_expired` answers whether the key has a deadline that has passed, and changes nothing a
  -- client can see.
  pub db_is_expired_lem :
      (now : ℤ) {db : CredishDb V} (key : Bytes)
      → IsDb db
      → Same db (db_is_expired now db key).0
        × ((db_is_expired now db key).1 ≡ past now (view db.expires key))
  unfolding db_is_expired
  db_is_expired_lem now {db} key v =
      let (k, e) = dict_find_lem key v.expires in (expires-Same v k, ap (past now) e)

  pub both-Writes :
      {db : CredishDb V} {k : Dict Bytes V} {e : Dict Bytes ℤ} {key : Bytes} {o : Option V}
      {t : Option ℤ}
      → IsDb db
      → Updates db.keys key o k
      → Updates db.expires key t e
      → (is_some t ≡ true → is_some o ≡ true)
      → Writes db key o t (record { keys = k; expires = e })
  both-Writes {key = key} v u w has = record {
    valid = record {
      keys = u.valid;
      expires = w.valid;
      mirrors = λ q h. ground (arith, u.same q, w.same q, v.mirrors q, has, h);
    };
    objects = u.same;
    deadlines = w.same;
  }

  -- An update of the objects only.
  pub keys-Writes :
      {db : CredishDb V} {k : Dict Bytes V} {key : Bytes} {val : V}
      → IsDb db
      → Updates db.keys key (some val) k
      → Writes db key (some val) (view db.expires key) (record db { keys = k })
  keys-Writes {db} {key = key} v u = record {
    valid = record {
      keys = u.valid;
      expires = v.expires;
      mirrors = λ q h. ground (arith, u.same q, v.mirrors q, h);
    };
    objects = u.same;
    deadlines = λ q. under (view db.expires) key q;
  }

  -- An update of the deadlines only.
  expires-Writes :
      {db : CredishDb V} {e : Dict Bytes ℤ} {key : Bytes} {t : Option ℤ}
      → IsDb db
      → Updates db.expires key t e
      → (is_some t ≡ true → is_some (view db.keys key) ≡ true)
      → Writes db key (view db.keys key) t (record db { expires = e })
  expires-Writes {db} {key = key} v w has = record {
    valid = record {
      keys = v.keys;
      expires = w.valid;
      mirrors = λ q h. ground (arith, w.same q, v.mirrors q, has, h, under (view db.keys) key q);
    };
    objects = λ q. under (view db.keys) key q;
    deadlines = w.same;
  }

  -- `db_set` puts the object under the key, and leaves the key's deadline as it was.
  -- The database is well formed.
  pub db_set_lem :
      {db : CredishDb V} (key : Bytes) (val : V)
      → IsDb db
      → Writes db key (some val) (view db.expires key) (db_set db key val)
  unfolding db_set
  db_set_lem key val v = keys-Writes v (dict_replace_lem key val v.keys).1

  -- `db_del` returns 1 exactly when the key is there, and removes the object and the deadline.
  -- The database is well formed.
  pub db_del_lem :
      {db : CredishDb V} (key : Bytes)
      → IsDb db
      → ((db_del db key).1 ≡ is_some (view db.keys key)) × Writes db key none none (db_del db key).0
  unfolding db_del
  db_del_lem key v =
      let (done, u) = dict_delete_lem key v.keys in
      (done, both-Writes v u (dict_delete_lem key v.expires).1 (λ h. h))

  -- What `db_del` takes off the number of keys.
  pub db_del-size :
      {db : CredishDb V} (key : Bytes)
      → IsDb db
      → dict_size (db_del db key).0.keys + found (view db.keys key) ≡ dict_size db.keys
  unfolding db_del
  db_del-size key v = omega (arith, (dict_delete_lem key v.keys).1.size)

  -- `db_set_expire` on a key that is there sets its deadline. The database is well formed.
  pub db_set_expire_lem :
      {db : CredishDb V} (key : Bytes) (deadline : ℤ)
      → IsDb db
      → is_some (view db.keys key) ≡ true
      → Writes db key (view db.keys key) (some deadline) (db_set_expire db key deadline)
  unfolding db_set_expire
  db_set_expire_lem key deadline v there =
      expires-Writes v (dict_replace_lem key deadline v.expires).1 (λ h. there)

  -- `db_get_expire` returns the deadline, or -1.
  pub db_get_expire_lem :
      {db : CredishDb V} (key : Bytes)
      → IsDb db
      → Same db (db_get_expire db key).0
        × ((db_get_expire db key).1 ≡ deadline_or (view db.expires key))
  unfolding db_get_expire dict_fetch_value
  db_get_expire_lem key v =
      let (k, e) = dict_find_lem key v.expires in (expires-Same v k, ap deadline_or e)

  -- `db_remove_expire` removes the deadline and keeps the object. The database is well formed.
  pub db_remove_expire_lem :
      {db : CredishDb V} (key : Bytes)
      → IsDb db
      → Writes db key (view db.keys key) none (db_remove_expire db key)
  unfolding db_remove_expire
  db_remove_expire_lem key v = expires-Writes v (dict_delete_lem key v.expires).1 (λ h. cc)
