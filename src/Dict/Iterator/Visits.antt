-- ===== src/Dict/Iterator/Visits.antt =====
-- dict.c: the iterator returns every entry once, in the order of the buckets.
use credish.Prelude.{
  ℕ, zero, suc, ◌+◌, ◌-◌, ◌≤◌, ◌<◌, ◌≡◌, refl, sym, ◌∙◌, ap, ◌&&◌, Option, none, some, List, [],
  ◌∷◌, ◌++◌, flatten, append-nil, append_assoc, arith, if◌then◌else◌, ltb, ◌==◌, length,
  length-eq-zero, get_or, drop, is_some, Bool-cases, Option-cases, inl, inr,
}
use credish.Dict.{Dict, is_rehashing}
use credish.Dict.Entry.{DictType, DictEntry, Chain}
use credish.Dict.Placed.{IsTable, IsValid}
use credish.Dict.Grow.{second-room}
use credish.Dict.Iterator.{
  DictIterator, dict_iter_next, iter_round, iter_loop, table_at, pending, dict_iter_visit,
}

drop_step {ℓ} :
    {A : Type ℓ} (xss : List (List A)) (i j : ℕ)
    → i < length xss
    → j ≡ suc i
    → flatten (drop i xss) ≡ get_or xss i [] ++ flatten (drop j xss)
unfolding flatten
drop_step [] i j h e = absurd (omega arith)
drop_step (xs ∷ xss) zero j h e = rw e
drop_step (xs ∷ xss) (suc i) j h e = rw e (drop_step xss i (suc i) (omega arith) refl)

drop_end {ℓ} : {A : Type ℓ} (xs : List A) (i : ℕ) → length xs ≤ i → drop i xs ≡ []
drop_end [] zero h = refl
drop_end [] (suc i) h = refl
drop_end (x ∷ xs) zero h = absurd (omega arith)
drop_end (x ∷ xs) (suc i) h = drop_end xs i (omega arith)

flatten_end {ℓ} :
    {A : Type ℓ} (xss : List (List A)) (i : ℕ) → length xss ≤ i → flatten (drop i xss) ≡ []
unfolding flatten
flatten_end xss i h = rw (drop_end xss i h)

module _ {K V : Type 0} ⦃type : DictType K⦄ where
  -- The iterator between two buckets.
  abbrev between : ℕ → ℕ → Chain K V → DictIterator K V
  between table next_idx c = record {
    table = table;
    next_idx = next_idx;
    entry = none;
    next_entry = c;
  }

  table_at-one : (d : Dict K V) → table_at d 1 ≡ d.ht1
  unfolding table_at
  table_at-one d = refl

  table_at-IsTable : {d : Dict K V} (table : ℕ) → IsValid d → IsTable (table_at d table)
  unfolding table_at
  table_at-IsTable table v = elim (Bool-cases (table == 0)) [
    | inl e ↦ rw e v.first
    | inr e ↦ rw e v.second
  ]

  -- The rounds that an iterator has left, at most.
  rounds : Dict K V → DictIterator K V → ℕ
  rounds d it =
      (if is_some it.entry then 1 else 0)
      + ((table_at d it.table).size - it.next_idx)
      + (if it.table == 0 && is_rehashing d then d.ht1.size + 1 else 0)

  -- What a round that goes on finds is the front of what was pending.
  record Advances (d : Dict K V) (it : DictIterator K V) (r : ℕ × ℕ × Chain K V) : Type 0 where
    front : (c : Chain K V) → pending d it ≡ r.2 ++ pending d (between r.0 r.1 c)
    fewer : (c : Chain K V) → rounds d (between r.0 r.1 c) < rounds d it

  iter_round-Advances :
      {d : Dict K V}
      → IsValid d
      → (it : DictIterator K V) {r : ℕ × ℕ × Chain K V} → iter_round d it ≡ some r
      → Advances d it r
  unfolding iter_round pending rounds
  iter_round-Advances {d} v it {r} e = elim (Bool-cases (is_some it.entry)) [
    | inl inside ↦ record { front = λ c. ground arith; fewer = λ c. ground arith }
    | inr outside ↦
        let t = table_at d it.table in
        let rest : Chain K V =
          if it.table == 0 && is_rehashing d then flatten d.ht1.buckets else [] in
        elim (Bool-cases (ltb it.next_idx t.size)) [
          | inl more ↦ record {
            front = λ c. ground (
              arith,
              drop_step t.buckets it.next_idx (it.next_idx + 1),
              (table_at-IsTable it.table v).sized,
              append_assoc (get_or t.buckets it.next_idx [])
                  (flatten (drop (it.next_idx + 1) t.buckets)) rest,
            );
            fewer = λ c. ground arith;
          }
          | inr past ↦ record {
            front = λ c. ground (
              arith,
              flatten_end t.buckets it.next_idx,
              (table_at-IsTable it.table v).sized,
              drop_step d.ht1.buckets 0 1,
              second-room v,
              v.second.sized,
              table_at-one d,
              append-nil (flatten (drop 1 d.ht1.buckets)),
            );
            fewer = λ c. ground (arith, table_at-one d, second-room v);
          }
        ]
  ]

  iter_round-ends :
      {d : Dict K V}
      → IsValid d
      → (it : DictIterator K V) → iter_round d it ≡ none
      → pending d it ≡ []
  unfolding iter_round pending table_at flatten
  iter_round-ends {d} v it e =
      ground (arith, drop_end d.ht0.buckets it.next_idx, drop_end d.ht1.buckets it.next_idx)

  -- What a call returned, in front of what is pending after it.
  abbrev pub returned : Option (DictEntry K V) → Chain K V → Chain K V
  returned none rest = []
  returned (some e) rest = e ∷ rest

  inside_bucket :
      (d : Dict K V) (table next_idx : ℕ) (e : DictEntry K V) (c : Chain K V)
      → c ++ pending d (between table next_idx [])
        ≡ pending d (record { table = table; next_idx = next_idx; entry = some e; next_entry = c })
  unfolding pending
  inside_bucket d table next_idx e c = refl

  iter_loop_lem :
      (fuel : ℕ) {d : Dict K V}
      → IsValid d
      → (it : DictIterator K V) → rounds d it < fuel
      → pending d it ≡ returned (iter_loop fuel d it).1 (pending d (iter_loop fuel d it).0)
  unfolding iter_loop
  iter_loop_lem zero v it h = absurd (omega arith)
  iter_loop_lem (suc fuel) {d} v it h = elim (Option-cases (iter_round d it)) [
    | inl over ↦ rw (over, iter_loop) (iter_round-ends v it over)
    | inr ((table, next_idx, []), e) ↦
        let a = iter_round-Advances v it e in
        let rest =
          iter_loop_lem fuel v (between table next_idx it.next_entry)
            (omega (arith, a.fewer it.next_entry)) in
        rw (e, iter_loop) (a.front it.next_entry ∙ rest)
    | inr ((table, next_idx, x ∷ c), e) ↦
        let a = iter_round-Advances v it e in
        rw (e, iter_loop) (a.front [] ∙ ap (λ l. x ∷ l) (inside_bucket d table next_idx x c))
  ]

  rounds-lt : (d : Dict K V) (it : DictIterator K V) → rounds d it < d.ht0.size + d.ht1.size + 3
  unfolding rounds table_at
  rounds-lt d it = ground arith

  -- `dict_iter_next` returns the first of the pending entries and leaves the others, and returns
  -- NULL exactly when none is pending. The dictionary is valid.
  pub dict_iter_next_lem :
      {d : Dict K V} (it : DictIterator K V)
      → IsValid d
      → pending d it ≡ returned (dict_iter_next d it).1 (pending d (dict_iter_next d it).0)
  unfolding dict_iter_next
  dict_iter_next_lem {d} it v = iter_loop_lem (d.ht0.size + d.ht1.size + 3) v it (rounds-lt d it)

  pub dict_iter_visit-pending :
      (fuel : ℕ) {d : Dict K V} (it : DictIterator K V)
      → IsValid d
      → length (pending d it) ≤ fuel
      → dict_iter_visit fuel d it ≡ pending d it
  unfolding dict_iter_visit
  dict_iter_visit-pending zero {d} it v h = sym (length-eq-zero (pending d it) (omega arith))
  dict_iter_visit-pending (suc fuel) {d} it v h =
      let next = dict_iter_next_lem it v in
      elim (Option-cases (dict_iter_next d it).1) [
        | inl over ↦
            let empty : pending d it ≡ [] = rw over at next in rw (empty, over, dict_iter_visit)
        | inr (e, more) ↦
            let step : pending d it ≡ e ∷ pending d (dict_iter_next d it).0 = rw more at next in
            rw (step, more, dict_iter_visit)
              (ap (λ l. e ∷ l)
                (dict_iter_visit-pending fuel (dict_iter_next d it).0 v
                  (omega (arith, ap length step))))
      ]
