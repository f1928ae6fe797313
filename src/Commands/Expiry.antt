-- ===== src/Commands/Expiry.antt =====
-- credish_module.c: the commands that set, remove and report deadlines.
use credish.Prelude.{
  ◌≡◌, refl, ◌∙◌, ap, true, false, not, ◌&&◌, Option, none, some, if◌then◌else◌, is_some,
  Bool-cases, inl, inr,
}
use credish.Prelude.Int.{is_long, ℤ, negsuc, mul_ℕ, div_ℕ, ◌+ℤ◌, ◌-ℤ◌, is_nonneg}
use credish.Sds.{Bytes}
use credish.Keys.{sds_dict_type}
use credish.Dict.Placed.{view}
use credish.Db.{CredishDb, db_lookup, db_set_expire, deadline_or}
use credish.Db.Refines.{
  IsDb, live, Writes, Same, after-Same, db_set_expire_lem, db_get_expire_lem, db_remove_expire_lem,
}
use credish.Db.Lookup.{Purges, db_lookup_lem, found-Same}
use credish.Commands.{
  Reply, bool_reply, int_reply, Clock, expire_found, py_expire, py_pexpire, py_persist, py_ttl,
  py_pttl,
}

-- What TTL and PTTL report at the time `now` of a key with the deadline `t`, by `left`.
abbrev pub remaining : (ℤ → ℤ) → Option ℤ → ℤ
remaining left none = negsuc 0
remaining left (some deadline) = if is_nonneg deadline then left deadline else negsuc 0

module _ {V : Type 0} where
  -- `db'` is `db` with `deadline` for the key if it was live at `now`, and without the key if its
  -- deadline had passed.
  pub record Expires (now : ℤ) (db : CredishDb V) (key : Bytes) (deadline : ℤ) (db' : CredishDb V)
      : Type 0 where
    pub hit :
        is_some (live now db key) ≡ true → Writes db key (view db.keys key) (some deadline) db'
    pub miss : is_some (live now db key) ≡ false → Purges now db key db'

  set_found-Writes :
      (now deadline : ℤ) {db : CredishDb V} (key : Bytes)
      → IsDb db
      → is_some (live now db key) ≡ true
      → Writes db key
          (view db.keys key)
          (some deadline)
          (db_set_expire (db_lookup now db key).0 key deadline)
  set_found-Writes now deadline {db} key v hit =
      let (s, there) = found-Same now key v hit in
      let w = db_set_expire_lem key deadline s.valid (ap is_some (s.objects key) ∙ there) in
      subst_object (s.objects key) (after-Same s w)
    where
      subst_object :
          {o o' : Option V} {db' : CredishDb V}
          → o ≡ o'
          → Writes db key o (some deadline) db'
          → Writes db key o' (some deadline) db'
      subst_object e w = rw e at w

  -- What EXPIRE and PEXPIRE make of a deadline: a fault exactly if the key is live and the deadline is
  -- out of range.
  pub Sets :
      (now : ℤ)
      → (db : CredishDb V) → (key : Bytes) → (deadline : ℤ) → Option (CredishDb V × Reply)
      → Type 0
  Sets now db key deadline none = (is_some (live now db key) ≡ true) × (is_long deadline ≡ false)
  Sets now db key deadline (some r) =
      (is_some (live now db key) && not (is_long deadline) ≡ false)
      × Expires now db key deadline r.0
      × (r.1 ≡ bool_reply (is_some (live now db key)))

  expire_found-Sets :
      (now deadline : ℤ) {db : CredishDb V} (key : Bytes)
      → IsDb db
      → Sets now db key deadline
          (expire_found (db_lookup now db key).0 key (is_some (db_lookup now db key).1) deadline)
  unfolding expire_found Sets
  expire_found-Sets now deadline {db} key v =
      let (p, e) = db_lookup_lem now key v in
      elim (Bool-cases (is_some (live now db key))) [
        | inl h ↦ elim (Bool-cases (is_long deadline)) [
          | inl l ↦
              rw (e, h, l)
                (
                  rw (h, l) refl,
                  record {
                    hit = λ _. set_found-Writes now deadline key v h;
                    miss = λ m. cc (h, m);
                  },
                  rw h refl,
                )
          | inr l ↦ rw (e, h, l) (h, l)
        ]
        | inr h ↦ rw (e, h) (rw h refl, record { hit = λ m. cc (h, m); miss = λ _. p }, rw h refl)
      ]

  -- EXPIRE and PEXPIRE answer whether the key is live, and if so its deadline becomes the time read
  -- plus the seconds or milliseconds given; otherwise they set nothing. They fault, by overflow, only
  -- under a live key whose deadline would be out of the range of a `long long`.
  -- The database is well formed.
  pub py_expire_lem :
      (clock : Clock) {db : CredishDb V} (key : Bytes) (time : ℤ)
      → IsDb db
      → Sets (clock 0) db key (clock 1 +ℤ mul_ℕ time 1000) (py_expire clock db key time)
        × Sets (clock 0) db key (clock 1 +ℤ time) (py_pexpire clock db key time)
  unfolding py_expire py_pexpire
  py_expire_lem clock {db} key time v = (
    expire_found-Sets (clock 0) (clock 1 +ℤ mul_ℕ time 1000) key v,
    expire_found-Sets (clock 0) (clock 1 +ℤ time) key v,
  )

  -- PERSIST answers whether the key has a deadline that is at least 0, removes it then, and keeps
  -- the object, without looking at the clock. The database is well formed.
  pub py_persist_lem :
      {db : CredishDb V} (key : Bytes)
      → IsDb db
      → ((py_persist db key).1 ≡ bool_reply (is_nonneg (deadline_or (view db.expires key))))
        × (is_nonneg (deadline_or (view db.expires key)) ≡ true
            → Writes db key (view db.keys key) none (py_persist db key).0)
        × (is_nonneg (deadline_or (view db.expires key)) ≡ false → Same db (py_persist db key).0)
  unfolding py_persist
  py_persist_lem {db} key v =
      let (s, e) = db_get_expire_lem key v in
      (
        rw e,
        λ h.
            rw (e, h)
              (subst_object (s.objects key) (after-Same s (db_remove_expire_lem key s.valid))),
        λ h. rw (e, h) s,
      )
    where
      subst_object :
          {o o' : Option V} {db' : CredishDb V}
          → o ≡ o'
          → Writes db key o none db'
          → Writes db key o' none db'
      subst_object e w = rw e at w

  -- TTL and PTTL answer -2 for a key that is not live, -1 for one without a deadline (or with one
  -- below 0), and otherwise the seconds or milliseconds from the second clock read to the deadline,
  -- which is a negative number if the deadline passes between the two reads; seconds are cut towards
  -- zero. The database is well formed.
  pub py_ttl_lem :
      (clock : Clock) {db : CredishDb V} (key : Bytes)
      → IsDb db
      → (Purges (clock 0) db key (py_ttl clock db key).0
          × ((py_ttl clock db key).1
              ≡ int_reply (
                  if is_some (live (clock 0) db key)
                  then remaining (λ t. div_ℕ (t -ℤ clock 1) 1000) (view db.expires key)
                  else negsuc 1)))
        × Purges (clock 0) db key (py_pttl clock db key).0
        × ((py_pttl clock db key).1
            ≡ int_reply (
                if is_some (live (clock 0) db key)
                then remaining (λ t. t -ℤ clock 1) (view db.expires key)
                else negsuc 1))
  unfolding py_ttl py_pttl
  py_ttl_lem clock {db} key v =
      let (p, e) = db_lookup_lem (clock 0) key v in
      let (s, d) = db_get_expire_lem key p.valid in
      elim (Bool-cases (is_some (live (clock 0) db key))) [
        | inl h ↦
            let d' = d ∙ ap deadline_or ((found-Same (clock 0) key v h).0.deadlines key) in
            rw (e, h, d')
              (
                (after p s, ap int_reply (shown (view db.expires key) _)),
                after p s,
                ap int_reply (shown (view db.expires key) _),
              )
        | inr h ↦ rw (e, h) ((p, refl), p, refl)
      ]
    where
      after :
          {mid db' : CredishDb V}
          → Purges (clock 0) db key mid
          → Same mid db'
          → Purges (clock 0) db key db'
      after p s = record {
        valid = s.valid;
        objects = λ q. s.objects q ∙ p.objects q;
        deadlines = λ q. s.deadlines q ∙ p.deadlines q;
      }

      shown :
          (t : Option ℤ) (left : ℤ → ℤ)
          → (if is_nonneg (deadline_or t) then left (deadline_or t) else negsuc 0)
            ≡ remaining left t
      shown none left = refl
      shown (some t) left = refl
