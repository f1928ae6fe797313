-- ===== src/Dict.antt =====
-- dict.c and dict.h: the chained hash table that grows by incremental rehashing, as a pair of
-- tables. A bucket is the list of its entries, an update in place returns the new dictionary.
pub mod Entry
pub mod Placed
pub mod Rehash
pub mod Grow
pub mod Write
pub mod Find
pub mod Insert
pub mod Delete
pub mod Iterator
mod Tests
use credish.Prelude.{
  ℕ, zero, suc, ◌+◌, ◌-◌, ◌*◌, ◌%◌, ◌^◌, Bool, true, false, ◌&&◌, ◌||◌, Option, none, some, List,
  [], ◌∷◌, if◌then◌else◌, ltb, leb, ◌==◌, bit_and, is_some, or_else, get_or, set, replicate,
}
use credish.Dict.Entry.{DictType, DictEntry, Chain, find_entry, assign, unlink}

abbrev pub dict_initial_size : ℕ
dict_initial_size = 4

abbrev pub dict_load_factor : ℕ
dict_load_factor = 1

-- `dictTable`. `buckets` is `[]` where the source has NULL.
pub record DictTable (K V : Type 0) : Type 0 where
  pub buckets : List (Chain K V)
  pub size : ℕ
  pub used : ℕ
  pub size_mask : ℕ

-- `dict`. `rehash_idx` is `none` where the source has -1; it is an `int` there, which has room for the
-- index of a bucket while a table has at most 2^31 of them. `iterators` counts the safe iterators.
pub record Dict (K V : Type 0) : Type 0 where
  pub ht0 : DictTable K V
  pub ht1 : DictTable K V
  pub rehash_idx : Option ℕ
  pub iterators : ℕ

-- `while (p < n) p <<= 1`, on fuel.
double_until : ℕ → ℕ → ℕ → ℕ
double_until zero n p = p
double_until (suc fuel) n p = let more = double_until fuel n (p * 2) in if ltb p n then more else p

-- Each round doubles `p`, so `n` rounds are enough.
pub next_power : ℕ → ℕ
unfolding double_until
next_power n = double_until n n 1

module _ {K V : Type 0} where
  -- A table after `memset(…, 0, …)`.
  abbrev pub table_reset : DictTable K V
  table_reset = record { buckets = []; size = 0; used = 0; size_mask = 0 }

  abbrev pub table_new : ℕ → DictTable K V
  table_new real = record {
    buckets = replicate real [];
    size = real;
    used = 0;
    size_mask = real - 1;
  }

  unfoldable pub dict_create : Dict K V
  dict_create = record { ht0 = table_reset; ht1 = table_reset; rehash_idx = none; iterators = 0 }

  unfoldable pub dict_size : Dict K V → ℕ
  dict_size d = d.ht0.used + d.ht1.used

  unfoldable pub is_rehashing : Dict K V → Bool
  is_rehashing d = is_some d.rehash_idx

  is_empty : Chain K V → Bool
  is_empty [] = true
  is_empty (e ∷ c) = false

  -- `buckets == NULL`
  is_null : List (Chain K V) → Bool
  is_null [] = true
  is_null (c ∷ cs) = false

  pub dict_expand : Dict K V → ℕ → Dict K V
  unfolding is_rehashing is_null next_power
  dict_expand d size =
      let real = next_power (if ltb size dict_initial_size then dict_initial_size else size) in
      if is_rehashing d
      then d
      else if is_null d.ht0.buckets
      then record d { ht0 = table_new real }
      else record d { ht1 = table_new real; rehash_idx = some 0 }

  -- The loop that skips empty buckets; `rounds` is at least the number of buckets left.
  skip_empty : ℕ → DictTable K V → ℕ → ℕ
  unfolding is_empty
  skip_empty zero src idx = idx
  skip_empty (suc rounds) src idx =
      let next = skip_empty rounds src (idx + 1) in
      if ltb idx src.size && is_empty (get_or src.buckets idx []) then next else idx

  -- From `done:` on.
  finish_rehash : Dict K V → Dict K V
  finish_rehash d =
      if d.ht0.used == 0 then record d { ht0 = d.ht1; ht1 = table_reset; rehash_idx = none } else d

module _ {K V : Type 0} ⦃type : DictType K⦄ where
  -- `dictionary->type->hash(key) & bucket_table->size_mask`
  pub bucket_idx : K → DictTable K V → ℕ
  bucket_idx key t = bit_and (type.hash key) t.size_mask

  -- `entry->next = buckets[idx]; buckets[idx] = entry; used++`
  pub link : DictTable K V → DictEntry K V → DictTable K V
  unfolding bucket_idx
  link t e =
      let idx = bucket_idx e.0 t in
      record t { buckets = set t.buckets idx (e ∷ get_or t.buckets idx []); used = t.used + 1 }

  -- The loop of `dict_rehash_step` over the entries of one bucket; the pair is `src` and `dst`.
  pub move_entries : Chain K V → DictTable K V → DictTable K V → DictTable K V × DictTable K V
  unfolding link
  move_entries [] src dst = (src, dst)
  move_entries (e ∷ c) src dst = move_entries c (record src { used = src.used - 1 }) (link dst e)

  rehash_from : Dict K V → ℕ → Dict K V
  unfolding move_entries finish_rehash
  rehash_from d idx =
      if leb d.ht0.size idx
      then finish_rehash (record d { rehash_idx = some idx })
      else let moved =
          move_entries (get_or d.ht0.buckets idx [])
            (record d.ht0 { buckets = set d.ht0.buckets idx [] }) d.ht1 in
        finish_rehash (record d { ht0 = moved.0; ht1 = moved.1; rehash_idx = some (idx + 1) })

  -- The step at `rehash_idx`.
  rehash_at : Dict K V → Option ℕ → Dict K V
  unfolding rehash_from skip_empty
  rehash_at d none = d
  rehash_at d (some idx) = rehash_from d (skip_empty d.ht0.size d.ht0 idx)

  pub dict_rehash_step : Dict K V → Dict K V
  unfolding rehash_at
  dict_rehash_step d = if ltb 0 d.iterators then d else rehash_at d d.rehash_idx

  pub dict_maybe_expand : Dict K V → Dict K V
  dict_maybe_expand d =
      if is_rehashing d
      then d
      else if is_null d.ht0.buckets
      then dict_expand d dict_initial_size
      else if leb (d.ht0.size * dict_load_factor) d.ht0.used
      then dict_expand d (d.ht0.used * 2)
      else d

  -- The value of the entry that the source returns.
  pub dict_find_raw : DictTable K V → K → Option V
  unfolding bucket_idx
  dict_find_raw t key =
      if t.size == 0 then none else find_entry key (get_or t.buckets (bucket_idx key t) [])

  pub step_if_rehashing : Dict K V → Dict K V
  step_if_rehashing d = if is_rehashing d then dict_rehash_step d else d

  -- The dictionary after the step that a search makes first, and what the search finds.
  pub dict_find : Dict K V → K → Dict K V × Option V
  dict_find d key =
      let d' = step_if_rehashing d in
      (
        d',
        or_else (dict_find_raw d'.ht0 key)
            (if is_rehashing d' then dict_find_raw d'.ht1 key else none),
      )

  -- `entry ? entry->v.val : NULL`
  unfoldable pub dict_fetch_value : Dict K V → K → Dict K V × Option V
  unfolding dict_find
  dict_fetch_value d key = dict_find d key

  -- The table that new entries go to.
  link_new : Dict K V → DictEntry K V → Dict K V
  link_new d e =
      if is_rehashing d then record d { ht1 = link d.ht1 e } else record d { ht0 = link d.ht0 e }

  -- The Boolean is whether the source returns 0.
  pub dict_add : Dict K V → K → V → Dict K V × Bool
  dict_add d key val =
      let found = dict_find (step_if_rehashing (dict_maybe_expand d)) key in
      if is_some found.1 then (found.0, false) else (link_new found.0 (key, val), true)

  -- `entry->v.val = val` for the entry that the search found.
  assign_in : DictTable K V → K → V → DictTable K V
  unfolding bucket_idx
  assign_in t key val =
      let idx = bucket_idx key t in
      record t { buckets = set t.buckets idx (assign key val (get_or t.buckets idx [])) }

  pub dict_assign : Dict K V → K → V → Dict K V
  dict_assign d key val =
      if is_some (dict_find_raw d.ht0 key)
      then record d { ht0 = assign_in d.ht0 key val }
      else record d { ht1 = assign_in d.ht1 key val }

  -- The Boolean is whether the source returns 0, which it does on an update and on an insertion.
  pub dict_replace : Dict K V → K → V → Dict K V × Bool
  dict_replace d key val =
      let found = dict_find d key in
      if is_some found.1 then (dict_assign found.0 key val, true) else dict_add found.0 key val

  -- One round of the loop of `dict_delete`: `none` goes on to the next table.
  unlink_in : DictTable K V → K → Option (DictTable K V)
  unfolding bucket_idx
  unlink_in t key =
      let idx = bucket_idx key t in
      if t.size == 0 then none else elim (unlink key (get_or t.buckets idx [])) [
        | none ↦ none
        | some c ↦ some (record t { buckets = set t.buckets idx c; used = t.used - 1 })
      ]

  -- The second round of the loop, by what it finds.
  delete_second : Dict K V → Option (DictTable K V) → Dict K V × Bool
  delete_second d none = (d, false)
  delete_second d (some t) = (record d { ht1 = t }, true)

  -- The first round: the loop goes on after an empty table, and while rehashing.
  delete_first : Dict K V → K → Option (DictTable K V) → Dict K V × Bool
  delete_first d key none =
      if is_rehashing d || d.ht0.size == 0
      then delete_second d (unlink_in d.ht1 key)
      else (d, false)
  delete_first d key (some t) = (record d { ht0 = t }, true)

  -- The Boolean is whether the source returns 0.
  pub dict_delete : Dict K V → K → Dict K V × Bool
  unfolding delete_first delete_second
  dict_delete d key = delete_first d key (unlink_in d.ht0 key)
