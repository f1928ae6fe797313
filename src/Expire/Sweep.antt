-- ===== src/Expire/Sweep.antt =====
-- expire.c: a sweep removes expired keys only.
use credish.Prelude.{
  ℕ, zero, suc, ◌+◌, ◌≤◌, ◌<◌, ◌%◌, ◌≡◌, refl, sym, ◌∙◌, ap, subst, fun_ext, true, false, Option,
  none, some, List, [], ◌∷◌, arith, length, ◌==◌, Bool-cases, Option-cases, inl, inr,
}
use credish.Prelude.Int.{ℤ}
use credish.Sds.{Bytes}
use credish.Keys.{sds_dict_type, dict_cmp_sds_iff}
use credish.Dict.{Dict, dict_size}
use credish.Dict.Placed.{IsValid, view}
use credish.Dict.Delete.{dict_delete_lem}
use credish.Dict.Iterator.{DictIterator, dict_iter_new, dict_iter_next, dict_iter_free, pending}
use credish.Dict.Iterator.Entries.{opened-IsValid, opened-length}
use credish.Dict.Iterator.Accurate.{
  Accurate, opened-Accurate, dict_iter_next-Accurate, dict_iter_next-none, dict_iter_next-length,
}
use credish.Db.{CredishDb, past}
use credish.Db.Refines.{IsDb, live, Writes, both-Writes}
use credish.Commands.{Clock}
use credish.Expire.{
  take_sample, skip_entries, sample_entries, delete_all, sweep_db_sample, sweep_loop, sweep_db,
  sweep_sample_size, sweep_max_loops,
}

-- Each key of the list has a deadline that has passed at `later`.
unfoldable AllPast : ℤ → (Bytes → Option ℤ) → List Bytes → Type 0
AllPast later f [] = Unit
AllPast later f (key ∷ keys) = (past later (f key) ≡ true) × AllPast later f keys

-- A deadline that has passed at a time of the clock has passed at `later`.
abbrev pub Before : Clock → ℤ → Type 0
Before clock later = (i : ℕ) (t : Option ℤ) → past (clock i) t ≡ true → past later t ≡ true

take_sample-AllPast :
    (now later : ℤ) (f : Bytes → Option ℤ) (o : Option (Bytes × ℤ)) (rest : List Bytes × ℕ)
    → ((t : Option ℤ) → past now t ≡ true → past later t ≡ true)
    → ((e : Bytes × ℤ) → o ≡ some e → (f e.0 ≡ some e.1) × AllPast later f rest.0)
    → AllPast later f (take_sample now o rest).0
unfolding take_sample AllPast
take_sample-AllPast now later f none rest before all = tt
take_sample-AllPast now later f (some e) rest before all =
    let (found, tail) = all e refl in
    elim (Bool-cases (past now (some e.1))) [
      | inl stale ↦ rw stale (ap (past later) found ∙ before (some e.1) stale, tail)
      | inr fresh ↦ rw fresh tail
    ]

sample_entries-AllPast :
    (clock : Clock) (later : ℤ) (i room : ℕ) {d : Dict Bytes ℤ} (it : DictIterator Bytes ℤ)
    (f : Bytes → Option ℤ)
    → IsValid d
    → Before clock later
    → Accurate f (pending d it)
    → AllPast later f (sample_entries clock i room d it).0
unfolding sample_entries AllPast
sample_entries-AllPast clock later i zero it f v before all = tt
sample_entries-AllPast clock later i (suc room) {d} it f v before all =
    take_sample-AllPast (clock i) later f _ _ (before i) (λ e h.
      let (found, rest) = dict_iter_next-Accurate it f v all h in
      (found, sample_entries-AllPast clock later (i + 1) room _ f v before rest))

skip_entries-Accurate :
    (offset : ℕ) {d : Dict Bytes ℤ} (it : DictIterator Bytes ℤ) (f : Bytes → Option ℤ)
    → IsValid d
    → offset ≤ length (pending d it)
    → Accurate f (pending d it)
    → Accurate f (pending d (skip_entries offset d it))
unfolding skip_entries
skip_entries-Accurate zero it f v h all = all
skip_entries-Accurate (suc offset) {d} it f v h all = elim (Option-cases (dict_iter_next d it).1) [
  | inl end ↦
      let empty : length (pending d it) ≡ 0 = ap length (dict_iter_next-none it v end) in
      absurd (omega (arith, h, empty))
  | inr (e, hit) ↦ rw hit (
      skip_entries-Accurate offset _ f v (omega (arith, h, dict_iter_next-length it v hit))
        (dict_iter_next-Accurate it f v all hit).1)
]

within_length : (random total : ℕ) {n : ℕ} → n ≡ total → (total == 0) ≡ false → random % total ≤ n
within_length random total e h = omega (arith, e, positive total h)
  where
    positive : (k : ℕ) → (k == 0) ≡ false → 0 < k
    positive k c = ground arith

module _ {V : Type 0} where
  -- `db'` is well formed, and shows at `later` what `db` shows.
  pub record Shows (later : ℤ) (db db' : CredishDb V) : Type 0 where
    pub valid : IsDb db'
    pub same : (q : Bytes) → live later db' q ≡ live later db q

  -- No key of the list is live.
  unfoldable AllGone : (Bytes → Option V) → List Bytes → Type 0
  AllGone f [] = Unit
  AllGone f (key ∷ keys) = (f key ≡ none) × AllGone f keys

  AllPast-AllGone :
      (later : ℤ) (db : CredishDb V) (keys : List Bytes)
      → AllPast later (view db.expires) keys
      → AllGone (live later db) keys
  unfolding AllPast AllGone live
  AllPast-AllGone later db [] all = tt
  AllPast-AllGone later db (key ∷ keys) all =
      (ground (arith, all.0), AllPast-AllGone later db keys all.1)

  -- Removing a key that is not live does not show.
  unseen :
      (later : ℤ) {db db' : CredishDb V} (key : Bytes)
      → Writes db key none none db'
      → live later db key ≡ none
      → (q : Bytes) → live later db' q ≡ live later db q
  unfolding live
  unseen later {db} key w gone q =
      ground (arith, w.objects q, w.deadlines q, dict_cmp_sds_iff key q, gone, ap (live later db))

  delete_all-Shows :
      (later : ℤ) (keys : List Bytes) {db : CredishDb V}
      → IsDb db
      → AllGone (live later db) keys
      → Shows later db (delete_all db keys)
  unfolding delete_all AllGone
  delete_all-Shows later [] v all = record { valid = v; same = λ q. refl }
  delete_all-Shows later (key ∷ keys) {db} v all =
      let w =
        both-Writes v (dict_delete_lem key v.keys).1 (dict_delete_lem key v.expires).1 (λ h. h) in
      let same = unseen later key w all.0 in
      let rest =
        delete_all-Shows later keys w.valid
          (subst (λ f. AllGone f keys) (sym (fun_ext same)) all.1) in
      record { valid = rest.valid; same = λ q. rest.same q ∙ same q }

  opened-IsDb :
      {db : CredishDb V}
      → IsDb db
      → IsDb (record db { expires = dict_iter_free (dict_iter_new db.expires).0 })
  unfolding dict_iter_free dict_iter_new view
  opened-IsDb v = record {
    keys = v.keys;
    expires = record {
      first = v.expires.first;
      second = v.expires.second;
      once = v.expires.once;
      idle = v.expires.idle;
      busy = v.expires.busy;
    };
    mirrors = v.mirrors;
  }

  sweep_db_sample-Shows :
      (clock : Clock) (random : ℕ) (later : ℤ) {db : CredishDb V}
      → IsDb db
      → Before clock later
      → Shows later db (sweep_db_sample clock random db).0
  unfolding sweep_db_sample dict_iter_free dict_iter_new view live
  sweep_db_sample-Shows clock random later {db} v before =
      elim (Bool-cases (dict_size db.expires == 0)) [
        | inl empty ↦ rw empty (record { valid = v; same = λ q. refl })
        | inr some_left ↦
            let total = dict_size db.expires in
            let opened = dict_iter_new db.expires in
            let it = skip_entries (random % total) opened.0 opened.1 in
            let ahead =
              skip_entries-Accurate (random % total) opened.1 (view db.expires)
                (opened-IsValid v.expires)
                (within_length random total (opened-length v.expires) some_left)
                (opened-Accurate v.expires) in
            let stale =
              sample_entries-AllPast clock later 0 sweep_sample_size it (view db.expires)
                (opened-IsValid v.expires) before ahead in
            let shows =
              delete_all-Shows later _ (opened-IsDb v) (AllPast-AllGone later db _ stale) in
            rw some_left (record { valid = shows.valid; same = shows.same })
      ]

  sweep_loop-Shows :
      (clocks : ℕ → Clock) (randoms : ℕ → ℕ) (n : ℕ) (later : ℤ) {db : CredishDb V}
      → IsDb db
      → ((k : ℕ) → Before (clocks k) later)
      → Shows later db (sweep_loop clocks randoms n db)
  unfolding sweep_loop
  sweep_loop-Shows clocks randoms zero later v before = record { valid = v; same = λ q. refl }
  sweep_loop-Shows clocks randoms (suc n) later {db} v before =
      let one = sweep_db_sample-Shows (clocks n) (randoms n) later v (before n) in
      let rest = sweep_loop-Shows clocks randoms n later one.valid before in
      let both : Shows later db
          (sweep_loop clocks randoms n (sweep_db_sample (clocks n) (randoms n) db).0) =
        record { valid = rest.valid; same = λ q. rest.same q ∙ one.same q } in
      ground (arith, one, both)

  -- A sweep keeps a database well formed, and does not change what a client sees under any key at
  -- any time at which the deadlines that had passed during the sweep have passed.
  pub sweep_db_lem :
      (clocks : ℕ → Clock) (randoms : ℕ → ℕ) (later : ℤ) {db : CredishDb V}
      → IsDb db
      → ((k : ℕ) → Before (clocks k) later)
      → Shows later db (sweep_db clocks randoms db)
  unfolding sweep_db
  sweep_db_lem clocks randoms later v before =
      sweep_loop-Shows clocks randoms sweep_max_loops later v before
