-- ===== src/Rdb/Tests.antt =====
-- The theorems on snapshots, at a list of two strings and a hash of one field.
use credish.Prelude.{
  ◌≡◌, refl, sym, ap, true, none, some, List, [], ◌∷◌, ◌++◌, length, arith, if◌then◌else◌, ◌==◌,
  Bool-cases, inl, inr, ◌∙◌, if_true, if_false,
}
use credish.Sds.{Bytes}
use credish.Keys.{sds_dict_type, dict_cmp_sds, dict_cmp_sds_iff}
use credish.Dict.{Dict, dict_create, dict_size, dict_replace}
use credish.Dict.Entry.{find_entry}
use credish.Dict.Placed.{IsValid, view}
use credish.Dict.Find.{dict_create_lem}
use credish.Dict.Insert.{dict_replace_lem}
use credish.Dict.Write.{found}
use credish.Dict.Iterator.{dict_entries}
use credish.Dict.Iterator.Entries.{dict_entries_lem}
use credish.Adlist.{Nodes, Adlist}
use credish.Adlist.Linked.{Linked, Holds, values}
use credish.Rdb.{Out, save_list, load_list, save_hash, load_hash}
use credish.Rdb.Values.{fit_u32, load_list-save_list}
use credish.Rdb.Hashes.{fit_entries, load_hash-save_hash}

abbrev nodes : Nodes Bytes
nodes a =
    if a == 5
    then some (record { prev = none; next = some 3; value = 97 ∷ [] })
    else if a == 3
    then some (record { prev = some 5; next = none; value = [] })
    else none

abbrev two : Adlist Bytes
two = record { head = some 5; tail = some 3; len = 2; nodes = nodes; fresh = 6 }

two-Holds : Holds two ((97 ∷ []) ∷ [] ∷ [])
unfolding Holds Linked values
two-Holds = (
  (5, 97 ∷ []) ∷ (3, []) ∷ [],
  record {
    head = refl;
    tail = refl;
    len = refl;
    linked = (refl, (refl, tt));
    apart = refl;
    old = λ a h. ground (arith, h);
  },
  refl,
)

abbrev begun : Out
begun = record { file = 254 ∷ []; g_crc = 7 }

load_list-save_list_example :
    (bytes : Bytes) × (out' : Out) × (l' : Adlist Bytes) × (save_list begun two ≡ some out')
    × (out'.file ≡ (254 ∷ []) ++ bytes)
    × (load_list (bytes ++ 255 ∷ []) ≡ some (l', 255 ∷ []))
    × Holds l' ((97 ∷ []) ∷ [] ∷ [])
unfolding fit_u32
load_list-save_list_example =
    load_list-save_list begun two ((97 ∷ []) ∷ [] ∷ []) (255 ∷ []) two-Holds (omega arith) refl

abbrev field : Bytes
field = 102 ∷ []

abbrev val : Bytes
val = 2 ∷ 97 ∷ []

abbrev hash : Dict Bytes Bytes
hash = (dict_replace dict_create field val).0

hash-IsValid : IsValid hash
hash-IsValid = (dict_replace_lem field val (dict_create_lem {K = Bytes} {V = Bytes}).0).1.valid

dict_create_size : dict_size {K = Bytes} {V = Bytes} dict_create ≡ 0
unfolding dict_create dict_size
dict_create_size = refl

hash_size : dict_size hash ≡ 1
hash_size =
    let u = (dict_replace_lem field val (dict_create_lem {K = Bytes} {V = Bytes}).0).1 in
    let before : found (view {V = Bytes} dict_create field) ≡ 0 =
      ap found ((dict_create_lem {K = Bytes} {V = Bytes}).1 field) in
    omega (arith, u.size, before, dict_create_size)

hash_view : view hash field ≡ some val
hash_view =
    let u = (dict_replace_lem field val (dict_create_lem {K = Bytes} {V = Bytes}).0).1 in
    u.same field ∙ if_true _ _ ((dict_cmp_sds_iff field field).1 refl)

-- The only entry is that of the field.
one_entry :
    (es : List (Bytes × Bytes))
    → length es ≡ 1
    → find_entry field es ≡ some val
    → fit_entries es ≡ true
unfolding find_entry fit_entries
one_entry [] h e = absurd (omega (arith, h))
one_entry ((k, v) ∷ []) h e = elim (Bool-cases (dict_cmp_sds k field)) [
  | inl hit ↦
      let same_key : k ≡ field = (dict_cmp_sds_iff k field).0 hit in
      let same_val : some v ≡ some val = sym (if_true _ _ hit) ∙ e in
      one_pair k v same_key (cc same_val)
  | inr miss ↦ cc (sym (if_false _ _ miss) ∙ e)
]
  where
    one_pair : (k v : Bytes) → k ≡ field → v ≡ val → fit_entries ((k, v) ∷ []) ≡ true
    one_pair k v e f = rw (e, f) refl
one_entry (_ ∷ _ ∷ es) h e = absurd (omega (arith, h))

load_hash-save_hash_example :
    (bytes : Bytes) × (d' : Dict Bytes Bytes) × ((save_hash begun hash).file ≡ (254 ∷ []) ++ bytes)
    × (load_hash (bytes ++ 255 ∷ []) ≡ some (d', 255 ∷ []))
    × IsValid d'
    × ((q : Bytes) → view d' q ≡ view hash q)
load_hash-save_hash_example =
    load_hash-save_hash begun hash (255 ∷ []) hash-IsValid (omega (arith, hash_size)) (
      one_entry (dict_entries hash) ((dict_entries_lem hash-IsValid).0 ∙ hash_size)
        (((dict_entries_lem hash-IsValid).1 field).1 ∙ hash_view))
