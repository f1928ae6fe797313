-- ===== src/Dict/Iterator/Entries.antt =====
-- dict.c: what the loop over all the entries of a dictionary sees.
use credish.Prelude.{
  ℕ, zero, suc, ◌≤◌, ◌≡◌, ◌≢◌, refl, ◌∙◌, ap, List, [], ◌∷◌, ◌++◌, flatten, arith, length, get_or,
  is_some, length-append, length-eq-zero, Bool-cases, inl, inr,
}
use credish.Dict.{Dict, is_rehashing, dict_size, bucket_idx}
use credish.Dict.Entry.{
  DictType, Chain, find_entry, count, find_entry-append, count-append, find_entry_absent,
}
use credish.Dict.Placed.{IsValid, view}
use credish.Dict.Grow.{idle-size}
use credish.Dict.Iterator.{dict_iter_new, dict_entries, pending, table_at}
use credish.Dict.Iterator.Visits.{dict_iter_visit-pending}

module _ {K V : Type 0} ⦃type : DictType K⦄ where
  -- A key that no bucket has.
  flatten_without :
      (q : K) (buckets : List (Chain K V))
      → ((i : ℕ) → count q (get_or buckets i []) ≡ 0)
      → count q (flatten buckets) ≡ 0
  unfolding flatten count
  flatten_without q [] h = refl
  flatten_without q (c ∷ buckets) h =
      omega
        (arith, count-append q c (flatten buckets), h 0, flatten_without q buckets (λ i. h (suc i)))

  -- A key that occurs in bucket `home` only is found in the table as it is found there.
  flatten_home :
      (q : K) (bs : List (Chain K V)) (home : ℕ)
      → ((i : ℕ) → home ≢ i → count q (get_or bs i []) ≡ 0)
      → (count q (flatten bs) ≡ count q (get_or bs home []))
        × (find_entry q (flatten bs) ≡ find_entry q (get_or bs home []))
  unfolding flatten
  flatten_home q [] home h = (refl, refl)
  flatten_home q (c ∷ bs) zero h =
      let none_left = flatten_without q bs (λ i. h (suc i) (omega arith)) in
      (
        omega (arith, count-append q c (flatten bs), none_left),
        ground
            (arith, find_entry-append q c (flatten bs), find_entry_absent q (flatten bs) none_left),
      )
  flatten_home q (c ∷ bs) (suc home) h =
      let none_here = h 0 (omega arith) in
      let rest = flatten_home q bs home (λ i ne. h (suc i) (omega arith)) in
      (
        omega (arith, count-append q c (flatten bs), none_here, rest.0),
        ground (arith, find_entry-append q c (flatten bs), find_entry_absent q c none_here, rest.1),
      )

  -- The entries of both tables.
  pub all_entries : Dict K V → Chain K V
  all_entries d = flatten d.ht0.buckets ++ flatten d.ht1.buckets

  pub all_entries-view :
      {d : Dict K V}
      → IsValid d
      → (q : K) → (count q (all_entries d) ≤ 1) × (find_entry q (all_entries d) ≡ view d q)
  unfolding all_entries view
  all_entries-view {d} v q =
      let first = flatten_home q d.ht0.buckets (bucket_idx q d.ht0) (v.first.placed q) in
      let second = flatten_home q d.ht1.buckets (bucket_idx q d.ht1) (v.second.placed q) in
      (
        omega (
          arith,
          count-append q (flatten d.ht0.buckets) (flatten d.ht1.buckets),
          first.0,
          second.0,
          v.once q,
        ),
        rw (find_entry-append q (flatten d.ht0.buckets) (flatten d.ht1.buckets), first.1, second.1),
      )

  all_entries-size : {d : Dict K V} → IsValid d → length (all_entries d) ≡ dict_size d
  unfolding all_entries dict_size
  all_entries-size {d} v = omega (
    arith,
    length-append (flatten d.ht0.buckets) (flatten d.ht1.buckets),
    v.first.counted,
    v.second.counted,
  )

  pub opened-IsValid : {d : Dict K V} → IsValid d → IsValid (dict_iter_new d).0
  unfolding dict_iter_new
  opened-IsValid v = record {
    first = v.first;
    second = v.second;
    once = v.once;
    idle = v.idle;
    busy = v.busy;
  }

  pub pending-new :
      {d : Dict K V} → IsValid d → pending (dict_iter_new d).0 (dict_iter_new d).1 ≡ all_entries d
  unfolding pending dict_iter_new table_at all_entries is_rehashing flatten
  pending-new {d} v = elim (Bool-cases (is_some d.rehash_idx)) [
    | inl busy ↦ rw busy
    | inr idle ↦
        let gone =
          length-eq-zero d.ht1.buckets (omega (arith, v.second.sized, idle-size d v idle)) in
        rw (idle, gone)
  ]

  pub opened-length :
      {d : Dict K V}
      → IsValid d
      → length (pending (dict_iter_new d).0 (dict_iter_new d).1) ≡ dict_size d
  opened-length v = ap length (pending-new v) ∙ all_entries-size v

  -- The loop over a new iterator sees every entry of the dictionary: as many as its size, each key
  -- once, and each with the value that it has in the map. The dictionary is valid.
  pub dict_entries_lem :
      {d : Dict K V}
      → IsValid d
      → (length (dict_entries d) ≡ dict_size d)
        × ((q : K) → (count q (dict_entries d) ≤ 1) × (find_entry q (dict_entries d) ≡ view d q))
  unfolding dict_entries
  dict_entries_lem {d} v =
      let e =
        dict_iter_visit-pending (dict_size d) (dict_iter_new d).1 (opened-IsValid v)
          (omega (arith, ap length (pending-new v), all_entries-size v))
        ∙ pending-new v in
      rw e (all_entries-size v, all_entries-view v)
