-- ===== src/Dict/Iterator.antt =====
-- dict.c: the iterator over the entries of a dictionary.
pub mod Visits
pub mod Entries
pub mod Accurate
use credish.Prelude.{
  ℕ, zero, suc, ◌+◌, ◌-◌, ◌≤◌, ◌<◌, ◌≡◌, ◌≢◌, refl, sym, ◌∙◌, ap, Bool, true, false, ◌&&◌, Option,
  none, some, List, [], ◌∷◌, ◌++◌, flatten, append-nil, append_assoc, arith, if◌then◌else◌, ltb,
  ◌==◌, or_else, length, get_or, drop, is_some, Bool-cases, inl, inr,
}
use credish.Dict.{Dict, DictTable, is_rehashing, dict_size}
use credish.Dict.Entry.{DictType, DictEntry, Chain, find_entry, count}
use credish.Dict.Placed.{IsTable, IsValid, view, chain_of}

-- `dictIterator`. `next_idx` is one more than the source's `idx`, which starts at -1; `next_entry`
-- is the list that the pointer leads through.
pub record DictIterator (K V : Type 0) : Type 0 where
  pub table : ℕ
  pub next_idx : ℕ
  pub entry : Option (DictEntry K V)
  pub next_entry : Chain K V

module _ {K V : Type 0} where
  -- The dictionary with one more active iterator, and the iterator.
  unfoldable pub dict_iter_new : Dict K V → Dict K V × DictIterator K V
  dict_iter_new d = (
    record d { iterators = d.iterators + 1 },
    record { table = 0; next_idx = 0; entry = none; next_entry = [] },
  )

  unfoldable pub dict_iter_free : Dict K V → Dict K V
  dict_iter_free d = record d { iterators = d.iterators - 1 }

  table_at : Dict K V → ℕ → DictTable K V
  table_at d table = if table == 0 then d.ht0 else d.ht1

  -- One round of the loop of `dict_iter_next` up to the assignment of `it->entry`: the list that
  -- starts there and where it is, or `none` where the source returns NULL.
  iter_round : Dict K V → DictIterator K V → Option (ℕ × ℕ × Chain K V)
  iter_round d it =
      if is_some it.entry
      then some (it.table, it.next_idx, it.next_entry)
      else if ltb it.next_idx (table_at d it.table).size
      then some (it.table, it.next_idx + 1, get_or (table_at d it.table).buckets it.next_idx [])
      else if it.table == 0 && is_rehashing d
      then some (1, 1, get_or d.ht1.buckets 0 [])
      else none

  -- The loop, on fuel.
  iter_loop : ℕ → Dict K V → DictIterator K V → DictIterator K V × Option (DictEntry K V)
  unfolding iter_round table_at
  iter_loop zero d it = (it, none)
  iter_loop (suc fuel) d it = elim (iter_round d it) [
    | none ↦ (record it { next_idx = it.next_idx + 1 }, none)
    | some (table, next_idx, []) ↦
        iter_loop fuel d
          (record { table = table; next_idx = next_idx; entry = none; next_entry = it.next_entry })
    | some (table, next_idx, e ∷ c) ↦
        (record { table = table; next_idx = next_idx; entry = some e; next_entry = c }, some e)
  ]

  -- Each round but the first goes to another bucket.
  pub dict_iter_next : Dict K V → DictIterator K V → DictIterator K V × Option (DictEntry K V)
  unfolding iter_loop
  dict_iter_next d it = iter_loop (d.ht0.size + d.ht1.size + 3) d it

  -- `while ((e = dict_iter_next(it)))`, on fuel: the entries that the loop sees.
  pub dict_iter_visit : ℕ → Dict K V → DictIterator K V → Chain K V
  dict_iter_visit zero d it = []
  dict_iter_visit (suc fuel) d it =
      let next = dict_iter_next d it in
      let rest = dict_iter_visit fuel d next.0 in elim next.1 [ none ↦ [] | some e ↦ e ∷ rest ]

  -- The entries that the loop sees from a new iterator on.
  pub dict_entries : Dict K V → Chain K V
  dict_entries d = let opened = dict_iter_new d in dict_iter_visit (dict_size d) opened.0 opened.1

  -- The entries that are still to come.
  pub pending : Dict K V → DictIterator K V → Chain K V
  pending d it =
      (if is_some it.entry then it.next_entry else [])
      ++ (flatten (drop it.next_idx (table_at d it.table).buckets)
          ++ (if it.table == 0 && is_rehashing d then flatten d.ht1.buckets else []))
