-- ===== src/Dict/Delete.antt =====
-- dict.c: `dict_delete`, against the finite map that a dictionary stands for.
use credish.Prelude.{
  ◌-◌, ◌≤◌, ◌≡◌, refl, ap, Bool, true, false, Option, none, some, arith, if◌then◌else◌, ◌==◌,
  ==_iff, is_some, length-get_or-le, ◌⊎◌, Bool-cases, Option-cases, inl, inr, ◌||◌,
}
use credish.Dict.{Dict, DictTable, bucket_idx, is_rehashing, dict_delete, unlink_in}
use credish.Dict.Entry.{
  DictType, Chain, find_entry, count, unlink, find_entry-unlink, count-unlink-le, length-unlink,
  unlink-find_entry,
}
use credish.Dict.Placed.{IsTable, IsValid, view, chain_of, chain_of-empty, with_bucket}
use credish.Dict.Write.{Updates, Rewrites, first-Updates, second-Updates}
use credish.Dict.Find.{idle-find_entry}

module _ {K V : Type 0} ⦃type : DictType K⦄ where
  -- What one round of the loop of `dict_delete` finds out about its table.
  unlink_in-cases :
      (t : DictTable K V) (key : K)
      → IsTable t
      → ((unlink_in t key ≡ none) × (find_entry key (chain_of key t) ≡ none))
        ⊎ ((c : Chain K V) × (unlink key (chain_of key t) ≡ some c)
            × (unlink_in t key ≡ some (with_bucket t (bucket_idx key t) c (t.used - 1))))
  unfolding unlink_in find_entry
  unlink_in-cases t key valid = elim (Bool-cases (t.size == 0)) [
    | inl e ↦ inl (rw e, rw (chain_of-empty key valid ((==_iff t.size 0).0 e)))
    | inr e ↦ elim (Option-cases (unlink key (chain_of key t))) [
      | inl miss ↦
          inl (rw (e, miss), not_found _ (rw miss at (unlink-find_entry key (chain_of key t))))
      | inr (c, hit) ↦ inr (c, hit, rw (e, hit))
    ]
  ]
    where
      not_found : (o : Option V) → false ≡ is_some o → o ≡ none
      not_found none h = refl
      not_found (some a) h = cc

  found_of_unlink :
      (key : K) (c c' : Chain K V)
      → unlink key c ≡ some c'
      → (old : V) × (find_entry key c ≡ some old)
  found_of_unlink key c c' hit = elim (Option-cases (find_entry key c)) [
    | inr old ↦ old
    | inl miss ↦ cc (rw (hit, miss) at (unlink-find_entry key c))
  ]

  unlink-Rewrites :
      (t : DictTable K V) (key : K) (c : Chain K V)
      → IsTable t
      → ((q : K) → count q (chain_of key t) ≤ 1)
      → unlink key (chain_of key t) ≡ some c
      → Rewrites t key none c (t.used - 1)
  unlink-Rewrites t key c valid once hit =
      let shorter = length-unlink key (chain_of key t) c hit in
      let fits = length-get_or-le t.buckets (bucket_idx key t) in
      record {
        balance = omega (arith, shorter, fits, valid.counted);
        few = λ q. count-unlink-le key q (chain_of key t) c hit;
        reads = λ q. find_entry-unlink key q (chain_of key t) c hit (once q);
        tally = omega (arith, shorter, fits, valid.counted);
      }

  chain_once :
      {t : DictTable K V} (key : K)
      → IsTable t
      → ((q : K) → count q (chain_of q t) ≤ 1)
      → (q : K) → count q (chain_of key t) ≤ 1
  chain_once {t} key valid once q = elim (Bool-cases (bucket_idx key t == bucket_idx q t)) [
    | inl e ↦ rw ((==_iff _ _).0 e) (once q)
    | inr e ↦ omega (arith, valid.placed q (bucket_idx key t) (ground arith))
  ]

  missing-Updates : {d : Dict K V} (key : K) → IsValid d → view d key ≡ none → Updates d key none d
  missing-Updates {d} key v absent = record {
    valid = v;
    same = λ q. ground (arith, type.key_cmp_iff key q, ap (view d));
    size = rw absent;
    iterators = refl;
  }

  -- An entry in the second table means that a rehash is going on.
  in_second :
      {d : Dict K V} (key : K) {old : V}
      → IsValid d
      → find_entry key (chain_of key d.ht1) ≡ some old
      → (is_rehashing d || d.ht0.size == 0) ≡ true
  in_second {d} key v hit = elim (Bool-cases (is_rehashing d)) [
    | inl busy ↦ rw busy
    | inr idle ↦ cc (hit, idle-find_entry key v idle)
  ]

  -- `dict_delete` returns 0 exactly when the key is there, and leaves the map without it.
  -- The dictionary is valid.
  pub dict_delete_lem :
      {d : Dict K V} (key : K)
      → IsValid d
      → ((dict_delete d key).1 ≡ is_some (view d key)) × Updates d key none (dict_delete d key).0
  unfolding dict_delete view
  dict_delete_lem {d} key v = elim (unlink_in-cases d.ht0 key v.first) [
    | inr (c, cut, step) ↦
        let (old, hit) = found_of_unlink key (chain_of key d.ht0) c cut in
        let w =
          unlink-Rewrites d.ht0 key c v.first
            (chain_once key v.first (λ q. omega (arith, v.once q))) cut in
        rw step (rw hit, first-Updates v key none c _ hit w)
    | inl (pass, miss) ↦ elim (unlink_in-cases d.ht1 key v.second) [
      | inr (c, cut, step) ↦
          let (old, hit) = found_of_unlink key (chain_of key d.ht1) c cut in
          let w =
            unlink-Rewrites d.ht1 key c v.second
              (chain_once key v.second (λ q. omega (arith, v.once q))) cut in
          rw (pass, in_second key v hit, step, miss)
            (rw hit, second-Updates v key none c _ miss hit w)
      | inl (pass', miss') ↦
          let gone : view d key ≡ none = rw (miss, miss') in
          rw (pass, pass', if_same, miss, miss') (refl, missing-Updates key v gone)
    ]
  ]
    where
      if_same :
          (b : Bool) → ◌≡◌ {A = Dict K V × Bool} (if b then (d, false) else (d, false)) (d, false)
      if_same true = refl
      if_same false = refl
