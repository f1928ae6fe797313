-- ===== src/Dict/Find.antt =====
-- dict.c: a new dictionary, and the search, against the finite map that a dictionary stands for.
use credish.Prelude.{
  ◌≡◌, refl, ◌∙◌, false, none, arith, if◌then◌else◌, ◌==◌, ==_iff, or_else, Bool-cases, inl, inr,
}
use credish.Dict.{
  Dict, DictTable, is_rehashing, step_if_rehashing, dict_find_raw, dict_find, dict_create,
}
use credish.Dict.Entry.{DictType, find_entry, count}
use credish.Dict.Placed.{IsTable, IsValid, view, chain_of, chain_of-empty}
use credish.Dict.Rehash.{Keeps, Keeps-refl, table_reset-IsTable}
use credish.Dict.Rehash.Step.{dict_rehash_step-Keeps}
use credish.Dict.Grow.{idle-size}

module _ {K V : Type 0} ⦃type : DictType K⦄ where
  -- A new dictionary is valid and stands for the empty map.
  pub dict_create_lem :
      IsValid {K = K} {V = V} dict_create × ((q : K) → view {V = V} dict_create q ≡ none)
  unfolding dict_create view find_entry count
  dict_create_lem = (
    record {
      first = table_reset-IsTable;
      second = table_reset-IsTable;
      once = λ q. omega arith;
      idle = λ e. refl;
      busy = λ j e. cc;
    },
    λ q. refl,
  )

  pub step_if_rehashing-Keeps : {d : Dict K V} → IsValid d → Keeps d (step_if_rehashing d)
  unfolding step_if_rehashing
  step_if_rehashing-Keeps {d} v = elim (Bool-cases (is_rehashing d)) [
    | inl busy ↦ rw busy (dict_rehash_step-Keeps v)
    | inr idle ↦ rw idle (Keeps-refl v)
  ]

  pub dict_find_raw_lem :
      (t : DictTable K V) (key : K)
      → IsTable t
      → dict_find_raw t key ≡ find_entry key (chain_of key t)
  unfolding dict_find_raw find_entry
  dict_find_raw_lem t key valid = elim (Bool-cases (t.size == 0)) [
    | inl e ↦ rw (e, chain_of-empty key valid ((==_iff t.size 0).0 e))
    | inr e ↦ rw e
  ]

  -- While no rehash is going on, the second table is not searched.
  pub idle-find_entry :
      {d : Dict K V} (key : K)
      → IsValid d
      → is_rehashing d ≡ false
      → find_entry key (chain_of key d.ht1) ≡ none
  unfolding find_entry
  idle-find_entry {d} key v idle = rw (chain_of-empty key v.second (idle-size d v idle))

  found_in :
      {d : Dict K V} (key : K)
      → IsValid d
      → or_else (dict_find_raw d.ht0 key) (if is_rehashing d then dict_find_raw d.ht1 key else none)
        ≡ view d key
  unfolding view
  found_in {d} key v =
      rw (dict_find_raw_lem d.ht0 key v.first, dict_find_raw_lem d.ht1 key v.second)
        (elim (Bool-cases (is_rehashing d)) [
          | inl busy ↦ rw busy
          | inr idle ↦ rw (idle, idle-find_entry key v idle)
        ])

  -- `dict_find` returns the value under the key, and keeps the map although it may rehash.
  -- The dictionary is valid.
  pub dict_find_lem :
      {d : Dict K V} (key : K)
      → IsValid d
      → Keeps d (dict_find d key).0 × ((dict_find d key).1 ≡ view d key)
  unfolding dict_find
  dict_find_lem {d} key v =
      let kept = step_if_rehashing-Keeps v in (kept, found_in key kept.valid ∙ kept.same key)
