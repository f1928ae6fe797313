-- ===== src/Commands/Set.antt =====
-- credish_module.c: SET with its conditions and its expiry.
use credish.Prelude.{
  ◌≡◌, refl, ◌∙◌, ap, Bool, true, false, not, ◌&&◌, Option, none, some, arith, if◌then◌else◌,
  is_some, Bool-cases, inl, inr,
}
use credish.Prelude.Int.{ℤ, pos, ltb_ℤ, mul_ℕ, ◌+ℤ◌}
use credish.Sds.{Bytes}
use credish.Keys.{sds_dict_type, dict_cmp_sds, dict_cmp_sds_iff}
use credish.Dict.Placed.{view}
use credish.Object.{CredishObject, obj_string, obj_steal_string_encoded}
use credish.Db.{past, CredishDb, db_lookup}
use credish.Db.Refines.{IsDb, live, Writes, db_set_lem, db_set_expire_lem, Writes-at, key_self}
use credish.Db.Lookup.{Purges, found-Same, db_lookup_lem, db_lookup-live}
use credish.Commands.Reads.{reads_lem}
use credish.Commands.{
  none_reply, bool_reply, bytes_reply, get_reply, py_get, Clock, Store, set_allowed, set_expire_if,
  py_set,
}

-- The deadline that SET leaves, given the one it found.
unfoldable pub set_deadline : Clock → (ex px : ℤ) → Option ℤ → Option ℤ
set_deadline clock ex px old =
    if ltb_ℤ (pos 0) px
    then some (clock 3 +ℤ px)
    else if ltb_ℤ (pos 0) ex
    then some (clock 2 +ℤ mul_ℕ ex 1000)
    else old

module _ {V : Type 0} where
  -- `db'` is well formed and differs from `db` under the key only.
  pub record Touches (db : CredishDb V) (key : Bytes) (db' : CredishDb V) : Type 0 where
    pub valid : IsDb db'
    pub objects : (q : Bytes) → dict_cmp_sds key q ≡ false → view db'.keys q ≡ view db.keys q
    pub deadlines :
        (q : Bytes) → dict_cmp_sds key q ≡ false → view db'.expires q ≡ view db.expires q

  pub Touches-refl : {db : CredishDb V} {key : Bytes} → IsDb db → Touches db key db
  Touches-refl v = record { valid = v; objects = λ q h. refl; deadlines = λ q h. refl }

  pub Touches-trans :
      {a b c : CredishDb V} {key : Bytes} → Touches a key b → Touches b key c → Touches a key c
  Touches-trans s t = record {
    valid = t.valid;
    objects = λ q h. t.objects q h ∙ s.objects q h;
    deadlines = λ q h. t.deadlines q h ∙ s.deadlines q h;
  }

  pub Purges-Touches :
      {now : ℤ} {a b : CredishDb V} {key : Bytes} → Purges now a key b → Touches a key b
  Purges-Touches p = record {
    valid = p.valid;
    objects = λ q h. ground (arith, p.objects q, h);
    deadlines = λ q h. ground (arith, p.deadlines q, h);
  }

  pub Writes-Touches :
      {a b : CredishDb V} {key : Bytes} {o : Option V} {t : Option ℤ}
      → Writes a key o t b
      → Touches a key b
  Writes-Touches w = record {
    valid = w.valid;
    objects = λ q h. ground (arith, w.objects q, h);
    deadlines = λ q h. ground (arith, w.deadlines q, h);
  }

  -- A live key's deadline has not passed.
  pub live_fresh :
      (now : ℤ) (db : CredishDb V) (key : Bytes)
      → is_some (live now db key) ≡ true
      → past now (view db.expires key) ≡ false
  unfolding live
  live_fresh now db key h = ground (arith, h)

  -- A key that is live later was live before.
  live_before :
      (now later : ℤ) (db : CredishDb V) (key : Bytes)
      → ((t : Option ℤ) → past now t ≡ true → past later t ≡ true)
      → is_some (live later db key) ≡ true
      → is_some (live now db key) ≡ true
  unfolding live
  live_before now later db key mono h = ground (arith, h, mono (view db.expires key))

  -- The deadline after a purge of a key that was not live is gone.
  pub purged_deadline :
      {now : ℤ} {db db' : CredishDb V} {key : Bytes}
      → IsDb db
      → Purges now db key db'
      → is_some (live now db key) ≡ false
      → view db'.expires key ≡ none
  unfolding live
  purged_deadline {db = db} {key = key} v p h =
      ground (arith, p.deadlines key, key_self key, v.mirrors key, h)

  -- Whether the conditions NX and XX hold for what is live at the first two reads of the clock.
  unfoldable pub holds : Clock → CredishDb V → Bytes → (nx xx : Bool) → Bool
  holds clock db key nx xx =
      not (nx && is_some (live (clock 0) db key))
      && not (xx && not (is_some (live (clock 1) db key)))

  unwritten :
      {db : CredishDb V} (key : Bytes)
      → IsDb db
      → Writes db key (view db.keys key) (view db.expires key) db
  unwritten {db} key v = record {
    valid = v;
    objects = λ q. ground (arith, dict_cmp_sds_iff key q, ap (view db.keys));
    deadlines = λ q. ground (arith, dict_cmp_sds_iff key q, ap (view db.expires));
  }

  -- A purge of a key that was not live leaves nothing under it.
  purged_object :
      {now : ℤ} {db db' : CredishDb V} {key : Bytes}
      → IsDb db
      → Purges now db key db'
      → is_some (live now db key) ≡ false
      → view db'.keys key ≡ none
  unfolding live
  purged_object {db = db} {key = key} v p h = ground (arith, p.objects key, key_self key, h)

  -- `db'` has under the key what `db` has if `kept`, and else nothing.
  pub Leaves : (kept : Bool) → (db : CredishDb V) → (key : Bytes) → (db' : CredishDb V) → Type 0
  Leaves kept db key db' =
      (view db'.keys key ≡ (if kept then view db.keys key else none))
      × (view db'.expires key ≡ (if kept then view db.expires key else none))

  kept-Leaves :
      (now : ℤ) {db : CredishDb V} (key : Bytes)
      → IsDb db
      → is_some (live now db key) ≡ true
      → Leaves true db key (db_lookup now db key).0
  unfolding Leaves
  kept-Leaves now key v h =
      let same = (found-Same now key v h).0 in (same.objects key, same.deadlines key)

  gone-Leaves :
      {now : ℤ} {db db' : CredishDb V} {key : Bytes}
      → IsDb db
      → Purges now db key db'
      → is_some (live now db key) ≡ false
      → Leaves false db key db'
  unfolding Leaves
  gone-Leaves v p h = (purged_object v p h, purged_deadline v p h)

  still-Leaves :
      {now : ℤ} (db : CredishDb V) {mid db' : CredishDb V} {key : Bytes}
      → Purges now mid key db'
      → Leaves false db key mid
      → Leaves false db key db'
  unfolding Leaves
  still-Leaves db {key = key} p (object, deadline) =
      (ground (arith, p.objects key, object), ground (arith, p.deadlines key, deadline))

module _ {L Z : Type 0} where
  -- What the two lookups leave: other keys as they were, the answer to the conditions, and if they
  -- hold the deadline, which under NX is gone; if they do not hold the key as it was where NX fails
  -- on it, and otherwise, where XX fails, nothing under it.
  record Allows (clock : Clock) (db : CredishDb (CredishObject L Z)) (key : Bytes) (nx xx : Bool)
      (r : CredishDb (CredishObject L Z) × Bool) : Type 0 where
    touches : Touches db key r.0
    answer : r.1 ≡ holds clock db key nx xx
    deadline :
        holds clock db key nx xx ≡ true
        → view r.0.expires key ≡ (if nx then none else view db.expires key)
    refused :
        holds clock db key nx xx ≡ false → Leaves (nx && is_some (live (clock 0) db key)) db key r.0

  set_allowed-Allows :
      (clock : Clock) {db : CredishDb (CredishObject L Z)} (key : Bytes) (nx xx : Bool)
      → IsDb db
      → ((t : Option ℤ) → past (clock 0) t ≡ true → past (clock 1) t ≡ true)
      → Allows clock db key nx xx (set_allowed clock db key nx xx)
  unfolding set_allowed holds
  set_allowed-Allows clock {db} key false false v mono = record {
    touches = Touches-refl v;
    answer = refl;
    deadline = λ h. refl;
    refused = λ h. cc;
  }
  set_allowed-Allows clock {db} key false true v mono =
      let (p, e) = db_lookup_lem (clock 1) key v in
      record {
        touches = Purges-Touches p;
        answer = ground (arith, e);
        deadline = λ h. ground (arith, p.deadlines key, h, live_fresh (clock 1) db key);
        refused = λ h. gone-Leaves v p (ground (arith, h));
      }
  set_allowed-Allows clock {db} key true false v mono =
      let (p, e) = db_lookup_lem (clock 0) key v in
      record {
        touches = ground (arith, Purges-Touches p);
        answer = ground (arith, e);
        deadline = λ h. ground (arith, e, purged_deadline v p, h);
        refused = λ h.
            let there : is_some (live (clock 0) db key) ≡ true = ground (arith, h) in
            rw (e, there) (kept-Leaves (clock 0) key v there);
      }
  set_allowed-Allows clock {db} key true true v mono =
      let (p, e) = db_lookup_lem (clock 0) key v in
      let (p', e') = db_lookup_lem (clock 1) key p.valid in
      let same = db_lookup-live (clock 0) (clock 1) key key v (mono _) in
      record {
        touches =
            ground (arith, Purges-Touches p, Touches-trans (Purges-Touches p) (Purges-Touches p'));
        answer = ground (arith, e, e', same);
        deadline = λ h. ground (arith, h, live_before (clock 0) (clock 1) db key mono);
        refused = λ h. elim (Bool-cases (is_some (live (clock 0) db key))) [
          | inl there ↦ rw (e, there) (kept-Leaves (clock 0) key v there)
          | inr gone ↦ rw (e, gone) (still-Leaves db p' (gone-Leaves v p gone))
        ];
      }

  set_expire_if-Writes :
      {db : CredishDb (CredishObject L Z)} (key : Bytes) (time deadline : ℤ)
      → IsDb db
      → is_some (view db.keys key) ≡ true
      → Writes db key
          (view db.keys key)
          (if ltb_ℤ (pos 0) time then some deadline else view db.expires key)
          (set_expire_if db key time deadline)
  unfolding set_expire_if
  set_expire_if-Writes key time deadline v there = elim (Bool-cases (ltb_ℤ (pos 0) time)) [
    | inl h ↦ rw h (db_set_expire_lem key deadline v there)
    | inr h ↦ rw h (unwritten key v)
  ]

  -- SET, on a clock whose second read does not see a deadline as still to come that the first saw
  -- as past, stores exactly when its conditions hold, and answers accordingly. It then leaves the
  -- object with the encoding, the deadline that `px`, else `ex`, gives, and otherwise the one that
  -- was there (none under NX). Where they do not hold it logs nothing and leaves the object and the
  -- deadline as they were if NX fails, and if XX fails nothing under the key. It changes no other
  -- key, whether it stores or not.
  -- The database is well formed.
  pub py_set_lem :
      (clock : Clock) {store : Store L Z} (key val : Bytes) (ex px : ℤ) (nx xx : Bool)
      (encoding : ℤ)
      → IsDb store.db
      → ((t : Option ℤ) → past (clock 0) t ≡ true → past (clock 1) t ≡ true)
      → Touches store.db key (py_set clock store key val ex px nx xx encoding).0.db
        × (holds clock store.db key nx xx ≡ false
            → ((py_set clock store key val ex px nx xx encoding).1 ≡ none_reply)
              × ((py_set clock store key val ex px nx xx encoding).0.aof_file ≡ store.aof_file)
              × Leaves
                  (nx && is_some (live (clock 0) store.db key))
                  store.db
                  key
                  (py_set clock store key val ex px nx xx encoding).0.db)
        × (holds clock store.db key nx xx ≡ true
            → ((py_set clock store key val ex px nx xx encoding).1 ≡ bool_reply true)
              × (view (py_set clock store key val ex px nx xx encoding).0.db.keys key
                  ≡ some (obj_string encoding val))
              × (view (py_set clock store key val ex px nx xx encoding).0.db.expires key
                  ≡ set_deadline clock ex px (if nx then none else view store.db.expires key)))
  unfolding py_set set_deadline obj_steal_string_encoded
  py_set_lem clock {store} key val ex px nx xx encoding v mono =
      let a = set_allowed-Allows clock key nx xx v mono in
      let w = db_set_lem key (obj_string encoding val) a.touches.valid in
      let f =
        set_expire_if-Writes key ex (clock 2 +ℤ mul_ℕ ex 1000) w.valid
          (ap is_some (Writes-at w).0) in
      let g =
        set_expire_if-Writes key px (clock 3 +ℤ px) f.valid
          (ap is_some (Writes-at f).0 ∙ ap is_some (Writes-at w).0) in
      let all =
        Touches-trans
          (Touches-trans (Touches-trans a.touches (Writes-Touches w)) (Writes-Touches f))
          (Writes-Touches g) in
      elim (Bool-cases (holds clock store.db key nx xx)) [
        | inl h ↦
            rw (a.answer, h)
              (
                all,
                λ c. cc,
                λ c. (
                  refl,
                  (Writes-at g).0 ∙ (Writes-at f).0 ∙ (Writes-at w).0,
                  (Writes-at g).1 ∙ ground (arith, (Writes-at f).1, (Writes-at w).1, a.deadline h),
                ),
              )
        | inr h ↦ rw (a.answer, h) (a.touches, λ c. (refl, refl, a.refused h), λ c. cc)
      ]

  pub py_get-py_set :
      (clock later : Clock) (store : Store L Z) (key val : Bytes) (ex px : ℤ) (nx xx : Bool)
      (encoding : ℤ)
      → IsDb store.db
      → ((t : Option ℤ) → past (clock 0) t ≡ true → past (clock 1) t ≡ true)
      → holds clock store.db key nx xx ≡ true
      → (py_get later (py_set clock store key val ex px nx xx encoding).0.db key).1 ≡ (
          if past
            (later 0)
            (set_deadline clock ex px (if nx then none else view store.db.expires key))
          then none_reply
          else bytes_reply val)
  unfolding live
  py_get-py_set clock later store key val ex px nx xx encoding v mono h =
      let r = py_set_lem clock {store = store} key val ex px nx xx encoding v mono in
      let (reply, object, deadline) = r.2 h in
      (reads_lem later key r.0.valid).0.1 ∙ shown _ _ _ object deadline
    where
      shown :
          (o : Option (CredishObject L Z)) (t t' : Option ℤ)
          → o ≡ some (obj_string encoding val)
          → t ≡ t'
          → get_reply (if past (later 0) t then none else o)
            ≡ (if past (later 0) t' then none_reply else bytes_reply val)
      shown o t t' e e' = ground (arith, e, e')
