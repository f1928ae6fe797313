-- ===== src/Dict/Rehash.antt =====
-- dict.c: the parts of a step of the incremental rehash, and what they keep of a dictionary.
pub mod Ends
pub mod Step
use credish.Prelude.{
  ℕ, zero, suc, ◌+◌, ◌-◌, ◌≤◌, ◌<◌, ◌≡◌, refl, ◌∙◌, true, none, some, [], ◌∷◌, flatten, arith, ◌==◌,
  ltb, ◌&&◌, ==_iff, Bool, or_else, length, get_or, Bool-cases, inl, inr,
}
use credish.Dict.{
  DictTable, Dict, table_reset, bucket_idx, link, move_entries, finish_rehash, skip_empty, is_empty,
  dict_size,
}
use credish.Dict.Entry.{DictType, Chain, find_entry, count, find_entry_absent}
use credish.Dict.Placed.{
  IsTable, IsValid, chain_of, view, chain_of-unused, link-IsTable, find_entry-link, count-link,
}

module _ {K V : Type 0} ⦃type : DictType K⦄ where
  -- What the loop over the entries of one bucket does to the two tables.
  record Moved (c : Chain K V) (src dst : DictTable K V) (r : DictTable K V × DictTable K V)
      : Type 0 where
    source : r.0 ≡ record src { used = src.used - length c }
    target : IsTable r.1
    wide : r.1.size ≡ dst.size
    filled : r.1.used ≡ dst.used + length c
    counts : (q : K) → count q (chain_of q r.1) ≡ count q c + count q (chain_of q dst)
    finds :
        (q : K)
        → count q c + count q (chain_of q dst) ≤ 1
        → find_entry q (chain_of q r.1) ≡ or_else (find_entry q c) (find_entry q (chain_of q dst))

  move_entries-Moved :
      (c : Chain K V) (src dst : DictTable K V)
      → IsTable dst
      → 0 < dst.size
      → Moved c src dst (move_entries c src dst)
  unfolding move_entries count find_entry
  move_entries-Moved [] src dst valid pos = record {
    source = λ i. record src { used = n-0 i };
    target = valid;
    wide = refl;
    filled = omega arith;
    counts = λ q. omega arith;
    finds = λ q h. refl;
  }
    where
      n-0 : src.used ≡ src.used - 0
      n-0 = omega arith
  move_entries-Moved (e ∷ c) src dst valid pos =
      let rest =
        move_entries-Moved c (record src { used = src.used - 1 }) (link dst e)
          (link-IsTable valid pos e) (pos_link) in
      record {
        source = rest.source ∙ λ i. record src { used = steps i };
        target = rest.target;
        wide = rest.wide ∙ link_size;
        filled = omega (arith, rest.filled, link_used);
        counts = λ q. omega (arith, rest.counts q, count-link valid pos e q);
        finds = λ q h. rw (rest.finds q (omega (arith, count-link valid pos e q))) (
            ground (
              arith,
              find_entry-link valid pos e q,
              find_entry_absent q c,
              find_entry_absent q (chain_of q dst),
            ));
      }
    where
      link_size : (link dst e).size ≡ dst.size
      link_size = unfold link in refl

      link_used : (link dst e).used ≡ dst.used + 1
      link_used = unfold link in refl

      pos_link : 0 < (link dst e).size
      pos_link = omega (arith, link_size)

      steps : src.used - 1 - length c ≡ src.used - suc (length c)
      steps = omega arith

  pub table_reset-IsTable : IsTable {K = K} {V = V} table_reset
  unfolding flatten count
  table_reset-IsTable = record {
    sized = refl;
    masked = refl;
    counted = refl;
    placed = λ q i h. refl;
  }

  -- What a step that changes only the layout leaves as it was.
  pub record Keeps (d d' : Dict K V) : Type 0 where
    pub valid : IsValid d'
    pub same : (q : K) → view d' q ≡ view d q
    pub size : dict_size d' ≡ dict_size d
    pub ready : 0 < d.ht0.size → 0 < d'.ht0.size
    pub iterators : d'.iterators ≡ d.iterators

  pub Keeps-refl : {d : Dict K V} → IsValid d → Keeps d d
  Keeps-refl v = record {
    valid = v;
    same = λ q. refl;
    size = refl;
    ready = λ h. h;
    iterators = refl;
  }

  pub Keeps-trans : {d e f : Dict K V} → Keeps d e → Keeps e f → Keeps d f
  Keeps-trans k l = record {
    valid = l.valid;
    same = λ q. l.same q ∙ k.same q;
    size = l.size ∙ k.size;
    ready = λ h. l.ready (k.ready h);
    iterators = l.iterators ∙ k.iterators;
  }

  -- With the first table used up the second takes its place.
  take_over-Keeps :
      {d : Dict K V} {j : ℕ}
      → IsValid d
      → d.rehash_idx ≡ some j
      → d.ht0.used ≡ 0
      → Keeps d (record d { ht0 = d.ht1; ht1 = table_reset; rehash_idx = none })
  unfolding view count find_entry dict_size
  take_over-Keeps {d} {j} v busy e = record {
    valid = record {
      first = v.second;
      second = table_reset-IsTable;
      once = λ q. omega (arith, v.once q);
      idle = λ _. refl;
      busy = λ i h. cc;
    };
    same = λ q. rw (chain_of-unused v.first e (bucket_idx q d.ht0)) (ground arith);
    size = omega arith;
    ready = λ _. (v.busy j busy).1;
    iterators = refl;
  }

  finish_rehash-Keeps :
      {d : Dict K V} {j : ℕ} → IsValid d → d.rehash_idx ≡ some j → Keeps d (finish_rehash d)
  unfolding finish_rehash
  finish_rehash-Keeps {d} v busy = elim (Bool-cases (d.ht0.used == 0)) [
    | inl e ↦ rw e (take_over-Keeps v busy ((==_iff d.ht0.used 0).0 e))
    | inr e ↦ rw e (Keeps-refl v)
  ]

  -- The skipping loop goes forward over empty buckets only.
  skip_empty-ge : (rounds : ℕ) (t : DictTable K V) (j : ℕ) → j ≤ skip_empty rounds t j
  unfolding skip_empty
  skip_empty-ge zero t j = omega arith
  skip_empty-ge (suc n) t j = ground (arith, skip_empty-ge n t (j + 1))

  skip_empty-clear :
      (rounds : ℕ) (t : DictTable K V) (j i : ℕ)
      → ((k : ℕ) → k < j → get_or t.buckets k [] ≡ [])
      → i < skip_empty rounds t j
      → get_or t.buckets i [] ≡ []
  unfolding skip_empty
  skip_empty-clear zero t j i clear h = clear i h
  skip_empty-clear (suc n) t j i clear h =
      elim (Bool-cases (ltb j t.size && is_empty (get_or t.buckets j []))) [
        | inr stop ↦ clear i (rw stop at h)
        | inl go ↦
            skip_empty-clear n t (j + 1) i
              (λ k below. elim (Bool-cases (k == j)) [
                | inl e ↦ rw ((==_iff k j).0 e) (is_empty-nil _ (and_right _ _ go))
                | inr e ↦ clear k (ground arith)
              ])
              (rw go at h)
      ]
    where
      is_empty-nil : (c : Chain K V) → is_empty c ≡ true → c ≡ []
      is_empty-nil [] e = refl
      is_empty-nil (x ∷ c) e = unfold is_empty in cc

      and_right : (a b : Bool) → (a && b) ≡ true → b ≡ true
      and_right a b e = ground arith
