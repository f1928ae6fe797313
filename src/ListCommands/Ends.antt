-- ===== src/ListCommands/Ends.antt =====
-- credish_module.c: LPUSH and RPUSH as commands, with the invariant of the lists.
use credish.Prelude.{
  ◌≡◌, refl, sym, ◌∙◌, ap, subst, Option, some, List, [], ◌∷◌, ◌++◌, append_assoc, append-nil,
  Bool-cases, inl, inr,
}
use credish.Sds.{Bytes}
use credish.Keys.{sds_dict_type, dict_cmp_sds, dict_cmp_sds_iff}
use credish.Dict.Placed.{view}
use credish.Adlist.{Adlist, adlist_create}
use credish.Adlist.Linked.{Holds}
use credish.Object.{obj_list}
use credish.Db.{CredishDb, db_lookup_write}
use credish.Db.Refines.{IsDb, live}
use credish.Db.Lookup.{db_lookup_lem}
use credish.Commands.{Clock, Store}
use credish.Commands.Set.{Touches}
use credish.ListCommands.{ListReply, Value, converted, py_lpush, py_rpush}
use credish.ListCommands.Push.{
  added, to_front, to_back, adlist_push_head-Adds, adlist_push_tail-Adds, ListsAreValid, Sequence,
  Pushed, push_to-Pushed,
}

-- The values one after the other in front of the sequence: the last one is the first.
unfoldable pub reverse_onto : List Bytes → List Bytes → List Bytes
reverse_onto [] xs = xs
reverse_onto (val ∷ vals) xs = reverse_onto vals (val ∷ xs)

added-to_front : (vals xs : List Bytes) → added to_front vals xs ≡ reverse_onto vals xs
unfolding added reverse_onto
added-to_front [] xs = refl
added-to_front (val ∷ vals) xs = added-to_front vals (val ∷ xs)

added-to_back : (vals xs : List Bytes) → added to_back vals xs ≡ xs ++ vals
unfolding added
added-to_back [] xs = sym (append-nil xs)
added-to_back (val ∷ vals) xs =
    added-to_back vals (xs ++ val ∷ []) ∙ append_assoc xs (val ∷ []) vals

module _ {Z : Type 0} where
  abbrev list_or : Option (Value Z) → Adlist Bytes
  list_or (some (obj_list l)) = l
  list_or _ = adlist_create

  pub touched-ListsAreValid :
      {db db' : CredishDb (Value Z)} (key : Bytes) {list : Adlist Bytes} (xs : List Bytes)
      → ListsAreValid db
      → Touches db key db'
      → view db'.keys key ≡ some (obj_list list)
      → Holds list xs
      → ListsAreValid db'
  unfolding ListsAreValid
  touched-ListsAreValid {db} {db'} key {list} xs lists t stored holds q l h =
      elim (Bool-cases (dict_cmp_sds key q)) [
        | inl e ↦
            let same : key ≡ q = (dict_cmp_sds_iff key q).0 e in
            (
              xs,
              subst (λ k. Holds k xs) (ap list_or (sym stored ∙ ap (view db'.keys) same ∙ h)) holds,
            )
        | inr ne ↦ lists q l (sym (t.objects q ne) ∙ h)
      ]

  with_lists :
      (store : Store (Adlist Bytes) Z) (cmd key : Bytes) (vals : List (Option Bytes))
      (xs : List Bytes) (o : Option (Value Z)) (m : Option (Store (Adlist Bytes) Z × ListReply))
      → ListsAreValid store.db
      → ((r : Store (Adlist Bytes) Z × ListReply) × (m ≡ some r) × Pushed store cmd key vals xs o r)
      → (r : Store (Adlist Bytes) Z × ListReply) × (m ≡ some r)
        × Pushed store cmd key vals xs o r
        × ListsAreValid r.0.db
  with_lists store cmd key vals xs o m lists (r, e, p) =
      (r, e, p, touched-ListsAreValid key xs lists p.touches p.stored p.holds)

  -- LPUSH and RPUSH, under a key that is not live or is a list, do not fault: they put the values
  -- that convert one by one in front of the list's sequence, and behind it in order. They log these
  -- values, keep the key's deadline unless it has passed and change no other key. They answer the new
  -- length, or raise, after all this, if a value does not convert. The database is well formed and
  -- its lists stand for sequences.
  pub py_lpush-py_rpush :
      (clock : Clock) (store : Store (Adlist Bytes) Z) (key : Bytes) (vals : List (Option Bytes))
      (xs : List Bytes)
      → IsDb store.db
      → ListsAreValid store.db
      → Sequence (live (clock 0) store.db key) xs
      → ((r : Store (Adlist Bytes) Z × ListReply) × (py_lpush clock store key vals ≡ some r)
          × Pushed store
              (76 ∷ 80 ∷ 85 ∷ 83 ∷ 72 ∷ [])
              key
              vals
              (reverse_onto (converted vals) xs)
              (live (clock 0) store.db key)
              r
          × ListsAreValid r.0.db)
        × ((r : Store (Adlist Bytes) Z × ListReply) × (py_rpush clock store key vals ≡ some r)
            × Pushed store
                (82 ∷ 80 ∷ 85 ∷ 83 ∷ 72 ∷ [])
                key
                vals
                (xs ++ converted vals)
                (live (clock 0) store.db key)
                r
            × ListsAreValid r.0.db)
  unfolding py_lpush py_rpush db_lookup_write
  py_lpush-py_rpush clock store key vals xs v lists s =
      let e = (db_lookup_lem (clock 0) key v).1 in
      (
        rw (e, sym (added-to_front (converted vals) xs))
            (with_lists store _ key _ _ _ _ lists
              (push_to-Pushed to_front adlist_push_head-Adds _ clock store key vals _ xs v refl s)),
        rw (e, sym (added-to_back (converted vals) xs))
            (with_lists store _ key _ _ _ _ lists
              (push_to-Pushed to_back adlist_push_tail-Adds _ clock store key vals _ xs v refl s)),
      )
