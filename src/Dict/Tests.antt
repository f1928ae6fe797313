-- ===== src/Dict/Tests.antt =====
-- Runs of the dictionary over string keys, and its theorems at a dictionary that is rehashing.
use credish.Prelude.{
  map, ℕ, suc, zero, ◌+◌, ◌≡◌, refl, true, false, none, some, [], ◌∷◌, is_some, replicate,
}
use credish.Sds.{Bytes, sds_cmp}
use credish.Keys.{sds_dict_type, dict_hash_sds, dict_cmp_sds}
use credish.Dict.{
  Dict, dict_create, dict_size, is_rehashing, dict_find, dict_add, dict_replace, dict_delete,
  dict_rehash_step, dict_maybe_expand, dict_expand, step_if_rehashing, link_new, link, dict_assign,
  assign_in, dict_find_raw, unlink_in, bucket_idx,
}
use credish.Dict.Entry.{find_entry, assign, unlink, count}
use credish.Dict.Placed.{IsValid, view}
use credish.Dict.Rehash.{Keeps}
use credish.Dict.Rehash.Step.{dict_rehash_step-Keeps}
use credish.Dict.Rehash.Ends.{rehash_steps, rehash_ends}
use credish.Dict.Find.{dict_create_lem, dict_find_lem}
use credish.Dict.Write.{Updates}
use credish.Dict.Insert.{dict_replace_lem}
use credish.Dict.Iterator.{DictIterator}
use credish.Dict.Delete.{dict_delete_lem}

program : Unit {0}
unfolding replicate sds_cmp dict_hash_sds dict_cmp_sds dict_create dict_size is_rehashing dict_find
    dict_add dict_replace dict_delete dict_rehash_step dict_maybe_expand dict_expand
    step_if_rehashing link_new link dict_assign assign_in dict_find_raw unlink_in bucket_idx
    find_entry assign unlink count view
program = tt

abbrev key : ℕ → Bytes
key n = n ∷ []

abbrev Numbers : Type 0
Numbers = Dict Bytes ℕ

abbrev filled : ℕ → Numbers
filled zero = dict_create
filled (suc n) = (dict_replace (filled n) (key n) (n + 100)).0

filled-IsValid : (n : ℕ) → IsValid (filled n)
filled-IsValid zero = dict_create_lem.0
filled-IsValid (suc n) = (dict_replace_lem (key n) (n + 100) (filled-IsValid n)).1.valid

-- The fifth key starts a rehash.
abbrev rehashing : Numbers
rehashing = filled 5

rehashing_runs : is_rehashing rehashing ≡ true
unfolding program
rehashing_runs = refl

size_runs : dict_size rehashing ≡ 5
unfolding program
size_runs = refl

-- Five inserted keys, one deleted and one replaced while the rehash goes on.
mixed_run :
    map
      (λ n. (dict_find (dict_replace (dict_delete rehashing (key 3)).0 (key 1) 7).0 (key n)).1)
      (0 ∷ 1 ∷ 3 ∷ 4 ∷ [])
    ≡ some 100 ∷ some 7 ∷ none ∷ some 104 ∷ []
unfolding program
mixed_run = refl

dict_find_lem_example :
    Keeps rehashing (dict_find rehashing (key 2)).0
    × ((dict_find rehashing (key 2)).1 ≡ view rehashing (key 2))
dict_find_lem_example = dict_find_lem (key 2) (filled-IsValid 5)

absent : view rehashing (key 9) ≡ none
unfolding program
absent = refl

present : view rehashing (key 2) ≡ some 102
unfolding program
present = refl

dict_replace_lem_example :
    ((dict_replace rehashing (key 2) 1).1 ≡ true)
    × Updates rehashing (key 2) (some 1) (dict_replace rehashing (key 2) 1).0
dict_replace_lem_example = dict_replace_lem (key 2) 1 (filled-IsValid 5)

dict_delete_lem_example :
    ((dict_delete rehashing (key 2)).1 ≡ is_some (view rehashing (key 2)))
    × Updates rehashing (key 2) none (dict_delete rehashing (key 2)).0
dict_delete_lem_example = dict_delete_lem (key 2) (filled-IsValid 5)

dict_rehash_step-Keeps_example : Keeps rehashing (dict_rehash_step rehashing)
dict_rehash_step-Keeps_example = dict_rehash_step-Keeps (filled-IsValid 5)

unlocked : rehashing.iterators ≡ 0
unfolding program
unlocked = refl

rehash_ends_example : is_rehashing (rehash_steps (rehashing.ht0.size + 1) rehashing) ≡ false
rehash_ends_example = rehash_ends rehashing (filled-IsValid 5) unlocked

abbrev empty_dict : Numbers
empty_dict = dict_create

abbrev started : DictIterator Bytes ℕ
started = record { table = 0; next_idx = 0; entry = none; next_entry = [] }

dict_create_lem_example : IsValid {V = ℕ} empty_dict × ((q : Bytes) → view empty_dict q ≡ none)
dict_create_lem_example = dict_create_lem {K = Bytes} {V = ℕ}
