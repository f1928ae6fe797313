-- ===== src/Dict/Insert.antt =====
-- dict.c: `dict_add` and `dict_replace`, against the finite map that a dictionary stands for.
use credish.Prelude.{
  ◌+◌, ◌<◌, ◌≡◌, refl, ◌∙◌, ap, true, false, Option, none, some, arith, Bool-cases, Option-cases,
  inl, inr,
}
use credish.Dict.{
  Dict, DictTable, link, link_new, is_rehashing, dict_size, dict_add, dict_replace, dict_assign,
  assign_in,
}
use credish.Dict.Entry.{
  DictType, DictEntry, find_entry, count, assign, find_entry_absent, count_absent,
  find_entry-assign, count-assign, length-assign,
}
use credish.Dict.Placed.{IsValid, view, chain_of, link-IsTable, find_entry-link, count-link}
use credish.Dict.Rehash.{Keeps, Keeps-trans}
use credish.Dict.Grow.{dict_maybe_expand-Grown, not_busy, not_idle, second-room}
use credish.Dict.Write.{found, Updates, Rewrites, first-Updates, second-Updates}
use credish.Dict.Find.{step_if_rehashing-Keeps, dict_find_raw_lem, dict_find_lem}

module _ {K V : Type 0} ⦃type : DictType K⦄ where
  absent_twice :
      (d : Dict K V) (key : K)
      → view d key ≡ none
      → (count key (chain_of key d.ht0) ≡ 0) × (count key (chain_of key d.ht1) ≡ 0)
  unfolding view
  absent_twice d key e =
      ground (arith, count_absent key (chain_of key d.ht0), count_absent key (chain_of key d.ht1))

  link-size : (t : DictTable K V) (e : DictEntry K V) → (link t e).size ≡ t.size
  unfolding link
  link-size t e = refl

  link-used : (t : DictTable K V) (e : DictEntry K V) → (link t e).used ≡ t.used + 1
  unfolding link
  link-used t e = refl

  -- A key that is absent gets an entry in the table that new entries go to.
  link_first-Updates :
      {d : Dict K V} (key : K) (val : V)
      → IsValid d
      → 0 < d.ht0.size
      → is_rehashing d ≡ false
      → view d key ≡ none
      → Updates d key (some val) (record d { ht0 = link d.ht0 (key, val) })
  unfolding view dict_size
  link_first-Updates {d} key val v room idle absent = record {
    valid = record {
      first = link-IsTable v.first room (key, val);
      second = v.second;
      once = λ q. ground (
        arith,
        count-link v.first room (key, val) q,
        v.once q,
        absent_twice d key absent,
        type.key_cmp_iff key q,
        ap (λ k. count k (chain_of k d.ht0)),
        ap (λ k. count k (chain_of k d.ht1)),
      );
      idle = v.idle;
      busy = λ j h. absurd (not_busy d idle j h);
    };
    same = λ q. rw (find_entry-link v.first room (key, val) q) (ground arith);
    size = rw absent (omega (arith, link-used d.ht0 (key, val)));
    iterators = refl;
  }

  link_second-Updates :
      {d : Dict K V} (key : K) (val : V)
      → IsValid d
      → is_rehashing d ≡ true
      → view d key ≡ none
      → Updates d key (some val) (record d { ht1 = link d.ht1 (key, val) })
  unfolding view dict_size
  link_second-Updates {d} key val v busy absent =
      let room = second-room v busy in
      record {
        valid = record {
          first = v.first;
          second = link-IsTable v.second room (key, val);
          once = λ q. ground (
            arith,
            count-link v.second room (key, val) q,
            v.once q,
            absent_twice d key absent,
            type.key_cmp_iff key q,
            ap (λ k. count k (chain_of k d.ht0)),
            ap (λ k. count k (chain_of k d.ht1)),
          );
          idle = λ e. absurd (not_idle d busy e);
          busy = λ j h. (
            (v.busy j h).0,
            omega (arith, (v.busy j h).1, link-size d.ht1 (key, val)),
            (v.busy j h).2,
          );
        };
        same = λ q. rw (find_entry-link v.second room (key, val) q) (
            ground (
              arith,
              find_entry_absent key (chain_of key d.ht0),
              absent_twice d key absent,
              type.key_cmp_iff key q,
              ap (λ k. find_entry k (chain_of k d.ht0)),
            ));
        size = rw absent (omega (arith, link-used d.ht1 (key, val)));
        iterators = refl;
      }

  link_new-Updates :
      {d : Dict K V} (key : K) (val : V)
      → IsValid d
      → 0 < d.ht0.size
      → view d key ≡ none
      → Updates d key (some val) (link_new d (key, val))
  unfolding link_new
  link_new-Updates {d} key val v room absent = elim (Bool-cases (is_rehashing d)) [
    | inl busy ↦ rw busy (link_second-Updates key val v busy absent)
    | inr idle ↦ rw idle (link_first-Updates key val v room idle absent)
  ]

  -- A change of layout before an update does not show.
  pub after-Keeps :
      {d e f : Dict K V} {key : K} {o : Option V}
      → Keeps d e
      → Updates e key o f
      → Updates d key o f
  after-Keeps {d} {key} k u = record {
    valid = u.valid;
    same = λ q. rw (u.same q, k.same q);
    size = omega (arith, u.size, k.size, ap found (k.same key));
    iterators = u.iterators ∙ k.iterators;
  }

  -- `dict_add` under a key that is absent returns 0, and puts the value under the key.
  -- The dictionary is valid.
  pub dict_add-absent :
      {d : Dict K V} (key : K) (val : V)
      → IsValid d
      → view d key ≡ none
      → ((dict_add d key val).1 ≡ true) × Updates d key (some val) (dict_add d key val).0
  unfolding dict_add
  dict_add-absent {d} key val v absent =
      let g = dict_maybe_expand-Grown v in
      let k = step_if_rehashing-Keeps g.keeps.valid in
      let (f, e) = dict_find_lem key k.valid in
      let all = Keeps-trans (Keeps-trans g.keeps k) f in
      let miss = e ∙ k.same key ∙ g.keeps.same key ∙ absent in
      let u =
        link_new-Updates key val all.valid (f.ready (k.ready g.room)) (all.same key ∙ absent) in
      rw miss (refl, after-Keeps all u)

  -- `dict_add` under a key that is there returns -1, and keeps the map. The dictionary is valid.
  pub dict_add-present :
      {d : Dict K V} (key : K) (val : V) {old : V}
      → IsValid d
      → view d key ≡ some old
      → ((dict_add d key val).1 ≡ false) × Keeps d (dict_add d key val).0
  unfolding dict_add
  dict_add-present {d} key val v present =
      let g = dict_maybe_expand-Grown v in
      let k = step_if_rehashing-Keeps g.keeps.valid in
      let (f, e) = dict_find_lem key k.valid in
      let hit = e ∙ k.same key ∙ g.keeps.same key ∙ present in
      rw hit (refl, Keeps-trans (Keeps-trans g.keeps k) f)

  assign-Rewrites :
      (t : DictTable K V) (key : K) (val : V) {old : V}
      → find_entry key (chain_of key t) ≡ some old
      → Rewrites t key (some val) (assign key val (chain_of key t)) t.used
  assign-Rewrites t key val hit = record {
    balance = omega (arith, length-assign key val (chain_of key t));
    few = λ q. omega (arith, count-assign key q val (chain_of key t));
    reads = λ q. find_entry-assign key q val (chain_of key t) hit;
    tally = refl;
  }

  pub dict_assign-Updates :
      {d : Dict K V} (key : K) (val : V) {old : V}
      → IsValid d
      → view d key ≡ some old
      → Updates d key (some val) (dict_assign d key val)
  unfolding dict_assign assign_in view
  dict_assign-Updates {d} key val {old} v present =
      elim (Option-cases (find_entry key (chain_of key d.ht0))) [
        | inr (a, hit) ↦
            rw (dict_find_raw_lem d.ht0 key v.first, hit)
              (first-Updates v key (some val) _ _ hit (assign-Rewrites d.ht0 key val hit))
        | inl miss ↦
            let hit : find_entry key (chain_of key d.ht1) ≡ some old = rw miss at present in
            rw (dict_find_raw_lem d.ht0 key v.first, miss)
              (second-Updates v key (some val) _ _ miss hit (assign-Rewrites d.ht1 key val hit))
      ]

  -- `dict_replace` returns 0 and puts the value under the key, whether or not it was there.
  -- The dictionary is valid.
  pub dict_replace_lem :
      {d : Dict K V} (key : K) (val : V)
      → IsValid d
      → ((dict_replace d key val).1 ≡ true) × Updates d key (some val) (dict_replace d key val).0
  unfolding dict_replace
  dict_replace_lem {d} key val v =
      let (f, e) = dict_find_lem key v in
      elim (Option-cases (view d key)) [
        | inr (old, hit) ↦
            rw (e ∙ hit)
              (refl, after-Keeps f (dict_assign-Updates key val f.valid (f.same key ∙ hit)))
        | inl miss ↦
            let (done, u) = dict_add-absent key val f.valid (f.same key ∙ miss) in
            rw (e ∙ miss) (done, after-Keeps f u)
      ]
