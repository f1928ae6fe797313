-- ===== src/Dict/Iterator/Accurate.antt =====
-- dict.c: what the iterator returns is in the map.
use credish.Prelude.{◌+◌, ◌≤◌, ◌<◌, ◌≡◌, ◌∙◌, ap, subst, Option, none, some, [], ◌∷◌, length, arith}
use credish.Dict.{Dict}
use credish.Dict.Entry.{DictType, DictEntry, Chain, find_entry, count}
use credish.Dict.Placed.{IsValid, view}
use credish.Dict.Iterator.{DictIterator, dict_iter_new, dict_iter_next, pending}
use credish.Dict.Iterator.Visits.{returned, dict_iter_next_lem}
use credish.Dict.Iterator.Entries.{pending-new, all_entries-view}

-- Each entry of the list is what `f` has for its key.
unfoldable pub Accurate : {K V : Type 0} → (K → Option V) → Chain K V → Type 0
Accurate f [] = Unit
Accurate f (e ∷ c) = (f e.0 ≡ some e.1) × Accurate f c

module _ {K V : Type 0} ⦃type : DictType K⦄ where
  once-Accurate :
      (f : K → Option V) (c : Chain K V)
      → ((q : K) → count q c ≤ 1)
      → ((q : K) → 0 < count q c → find_entry q c ≡ f q)
      → Accurate f c
  unfolding Accurate count find_entry
  once-Accurate f [] once finds = tt
  once-Accurate f (e ∷ c) once finds = (
    ground (arith, finds e.0, type.key_cmp_iff e.0 e.0),
    once-Accurate f c (λ q. ground (arith, once q)) (λ q h. ground (arith, once q, finds q, h)),
  )

  pub opened-Accurate :
      {d : Dict K V}
      → IsValid d
      → Accurate (view d) (pending (dict_iter_new d).0 (dict_iter_new d).1)
  opened-Accurate {d} v =
      rw (pending-new v)
        (once-Accurate (view d) _ (λ q. (all_entries-view v q).0) (λ q h. (all_entries-view v q).1))

  -- An entry that is returned is in the map, and so are those after it.
  pub dict_iter_next-Accurate :
      {d : Dict K V} (it : DictIterator K V) (f : K → Option V) {e : DictEntry K V}
      → IsValid d
      → Accurate f (pending d it)
      → (dict_iter_next d it).1 ≡ some e
      → (f e.0 ≡ some e.1) × Accurate f (pending d (dict_iter_next d it).0)
  unfolding Accurate
  dict_iter_next-Accurate {d} it f {e} v all h =
      subst (λ o. Accurate f (returned o (pending d (dict_iter_next d it).0))) h
        (subst (Accurate f) (dict_iter_next_lem it v) all)

  -- NULL is returned only when nothing is pending.
  pub dict_iter_next-none :
      {d : Dict K V} (it : DictIterator K V)
      → IsValid d
      → (dict_iter_next d it).1 ≡ none
      → pending d it ≡ []
  dict_iter_next-none {d} it v h =
      dict_iter_next_lem it v ∙ ap (λ o. returned o (pending d (dict_iter_next d it).0)) h

  pub dict_iter_next-length :
      {d : Dict K V} (it : DictIterator K V) {e : DictEntry K V}
      → IsValid d
      → (dict_iter_next d it).1 ≡ some e
      → length (pending d it) ≡ length (pending d (dict_iter_next d it).0) + 1
  dict_iter_next-length {d} it v h =
      ap length
        (dict_iter_next_lem it v ∙ ap (λ o. returned o (pending d (dict_iter_next d it).0)) h)
      ∙ omega arith
