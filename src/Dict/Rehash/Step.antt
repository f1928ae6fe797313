-- ===== src/Dict/Rehash/Step.antt =====
-- dict.c: `dict_rehash_step` as a whole, and that a rehash comes to an end.
use credish.Prelude.{
  ℕ, ◌+◌, ◌-◌, ◌≤◌, ◌<◌, ◌≡◌, refl, sym, subst, ap, Option, none, some, [], arith, ◌==◌, ltb, leb,
  ==_iff, or_else, length, get_or, get_or-set, length-get_or-le, Bool-cases, inl, inr,
}
use credish.Dict.{
  DictTable, Dict, bucket_idx, move_entries, skip_empty, rehash_from, rehash_at, dict_size,
  dict_rehash_step,
}
use credish.Dict.Entry.{DictType, Chain, find_entry, count, find_entry_absent}
use credish.Dict.Placed.{
  IsTable, IsValid, chain_of, view, with_bucket, with_bucket-IsTable, chain_of-with_bucket,
}
use credish.Dict.Rehash.{
  Moved, move_entries-Moved, Keeps, Keeps-refl, Keeps-trans, finish_rehash-Keeps, skip_empty-clear,
}

module _ {K V : Type 0} ⦃type : DictType K⦄ where
  module _ {d : Dict K V} {j : ℕ} (v : IsValid d) (busy : d.rehash_idx ≡ some j) (idx : ℕ)
      (clear : (i : ℕ) → i < idx → get_or d.ht0.buckets i [] ≡ []) where
    pub skipped-Keeps : Keeps d (record d { rehash_idx = some idx })
    unfolding view dict_size
    skipped-Keeps = record {
      valid = record {
        first = v.first;
        second = v.second;
        once = v.once;
        idle = λ h. cc;
        busy = λ i h. ((v.busy j busy).0, (v.busy j busy).1, λ k below. clear k (ground arith));
      };
      same = λ q. refl;
      size = refl;
      ready = λ h. h;
      iterators = refl;
    }

    module _ (inside : idx < d.ht0.size) where
      abbrev pub bucket : Chain K V
      bucket = get_or d.ht0.buckets idx []

      abbrev pub emptied : DictTable K V
      emptied = with_bucket d.ht0 idx [] d.ht0.used

      abbrev pub moved : DictTable K V × DictTable K V
      moved = move_entries bucket emptied d.ht1

      moves : Moved bucket emptied d.ht1 moved
      moves = move_entries-Moved bucket emptied d.ht1 v.second (v.busy j busy).1

      pub moved-size : moved.0.size ≡ d.ht0.size
      moved-size = ap (λ t. t.size) moves.source

      abbrev left : DictTable K V
      left = with_bucket d.ht0 idx [] (d.ht0.used - length bucket)

      left-IsTable : IsTable left
      unfolding count
      left-IsTable =
          with_bucket-IsTable v.first inside [] _
            (omega (arith, length-get_or-le d.ht0.buckets idx, v.first.counted)) (λ q h. refl)

      -- Under each key the entries of the two tables together are what they were.
      once_moved : (q : K) → count q (chain_of q left) + count q (chain_of q moved.1) ≤ 1
      unfolding count
      once_moved q =
          rw (chain_of-with_bucket v.first inside [] _ q, moves.counts q)
            (ground (arith, v.once q, v.first.placed q idx))

      bucket_once : (q : K) → count q bucket + count q (chain_of q d.ht1) ≤ 1
      bucket_once q = elim (Bool-cases (idx == bucket_idx q d.ht0)) [
        | inl e ↦ rw ((==_iff idx _).0 e) (v.once q)
        | inr e ↦ omega (arith, v.once q, v.first.placed q idx (ground arith))
      ]

      same_moved :
          (q : K)
          → or_else (find_entry q (chain_of q left)) (find_entry q (chain_of q moved.1)) ≡ view d q
      unfolding view find_entry
      same_moved q =
          rw (chain_of-with_bucket v.first inside [] _ q, moves.finds q (bucket_once q))
            (elim (Bool-cases (idx == bucket_idx q d.ht0)) [
              | inl e ↦ rw (e, (==_iff idx _).0 e)
              | inr e ↦ rw (e, find_entry_absent q bucket (v.first.placed q idx (ground arith)))
            ])

      bucket_fits : length bucket ≤ d.ht0.used
      bucket_fits = omega (arith, length-get_or-le d.ht0.buckets idx, v.first.counted)

      left_clear : (i : ℕ) → i < idx + 1 → get_or left.buckets i [] ≡ []
      left_clear i below =
          rw (get_or-set d.ht0.buckets idx i [] [] (omega (arith, v.first.sized)))
            (ground (arith, clear i))

      left-Keeps : Keeps d (record d { ht0 = left; ht1 = moved.1; rehash_idx = some (idx + 1) })
      unfolding view dict_size
      left-Keeps = record {
        valid = record {
          first = left-IsTable;
          second = moves.target;
          once = once_moved;
          idle = λ h. cc;
          busy = λ i h. (
            (v.busy j busy).0,
            omega (arith, (v.busy j busy).1, moves.wide),
            λ k below. left_clear k (ground arith),
          );
        };
        same = same_moved;
        size = omega (arith, moves.filled, bucket_fits);
        ready = λ h. h;
        iterators = refl;
      }

      moved-Keeps : Keeps d (record d { ht0 = moved.0; ht1 = moved.1; rehash_idx = some (idx + 1) })
      moved-Keeps =
          subst (λ t. Keeps d (record d { ht0 = t; ht1 = moved.1; rehash_idx = some (idx + 1) }))
            (sym moves.source) left-Keeps

    rehash_from-Keeps : Keeps d (rehash_from d idx)
    unfolding rehash_from
    rehash_from-Keeps = elim (Bool-cases (leb d.ht0.size idx)) [
      | inl past ↦
          rw past
            (Keeps-trans skipped-Keeps (finish_rehash-Keeps {j = idx} skipped-Keeps.valid refl))
      | inr inside ↦
          let kept = moved-Keeps (ground arith) in
          rw inside (Keeps-trans kept (finish_rehash-Keeps {j = idx + 1} kept.valid refl))
    ]

  rehash_at-Keeps :
      {d : Dict K V} → IsValid d → (o : Option ℕ) → d.rehash_idx ≡ o → Keeps d (rehash_at d o)
  unfolding rehash_at
  rehash_at-Keeps v none at = Keeps-refl v
  rehash_at-Keeps {d} v (some j) at =
      rehash_from-Keeps v at (skip_empty d.ht0.size d.ht0 j)
        λ i below. skip_empty-clear d.ht0.size d.ht0 j i (v.busy j at).2 below

  -- A rehash step keeps a valid dictionary valid, and keeps the map that it stands for, the number
  -- of entries and the count of iterators, whether or not it moves a bucket or ends the rehash.
  pub dict_rehash_step-Keeps : {d : Dict K V} → IsValid d → Keeps d (dict_rehash_step d)
  unfolding dict_rehash_step
  dict_rehash_step-Keeps {d} v = elim (Bool-cases (ltb 0 d.iterators)) [
    | inl locked ↦ rw locked (Keeps-refl v)
    | inr free ↦ rw free (rehash_at-Keeps v d.rehash_idx refl)
  ]
