-- ===== src/Dict/Entry.antt =====
-- dict.c: the function table of a dictionary, and the chain of entries that hangs off one bucket.
use credish.Prelude.{
  ℕ, ◌+◌, ◌≤◌, ◌≡◌, refl, ◌↔◌, Bool, true, Option, none, some, List, [], ◌∷◌, ◌++◌, arith,
  if◌then◌else◌, or_else, is_some, length, Option-cases, inl, inr,
}

-- `dictType`: the hash, and whether `key_cmp` returns 0. The copies that `key_dup` and `val_dup`
-- make are the values themselves, and what `key_free` and `val_free` release is not modelled.
pub record DictType (K : Type 0) : Type 0 where
  pub hash : K → ℕ
  pub key_cmp : K → K → Bool
  pub key_cmp_iff : (a b : K) → (key_cmp a b ≡ true) ↔ (a ≡ b)

-- `dictEntry` without its `next` pointer, and the list that the `next` pointers make.
abbrev pub DictEntry : Type 0 → Type 0 → Type 0
DictEntry K V = K × V

abbrev pub Chain : Type 0 → Type 0 → Type 0
Chain K V = List (DictEntry K V)

module _ {K V : Type 0} ⦃type : DictType K⦄ where
  -- The walk of `dict_find_raw`: the value of the first entry under the key.
  unfoldable pub find_entry : K → Chain K V → Option V
  find_entry key [] = none
  find_entry key (e ∷ c) = if type.key_cmp e.0 key then some e.1 else find_entry key c

  -- `entry->v.val = val` at the entry that `find_entry` finds.
  unfoldable pub assign : K → V → Chain K V → Chain K V
  assign key val [] = []
  assign key val (e ∷ c) = if type.key_cmp e.0 key then (e.0, val) ∷ c else e ∷ assign key val c

  -- The walk of `dict_delete`: the chain without the first entry under the key, if there is one.
  unfoldable pub unlink : K → Chain K V → Option (Chain K V)
  unlink key [] = none
  unlink key (e ∷ c) =
      if type.key_cmp e.0 key
      then some c
      else elim (unlink key c) [ none ↦ none | some c' ↦ some (e ∷ c') ]

  -- How many entries of a chain have the key.
  unfoldable pub count : K → Chain K V → ℕ
  count q [] = 0
  count q (e ∷ c) = (if type.key_cmp e.0 q then 1 else 0) + count q c

  -- A key with no entry is not found, and a key that is not found has none.
  pub find_entry_absent : (q : K) (c : Chain K V) → count q c ≡ 0 → find_entry q c ≡ none
  unfolding count find_entry
  find_entry_absent q [] h = refl
  find_entry_absent q (e ∷ c) h = ground (arith, find_entry_absent q c)

  pub count_absent : (q : K) (c : Chain K V) → find_entry q c ≡ none → count q c ≡ 0
  unfolding count find_entry
  count_absent q [] h = refl
  count_absent q (e ∷ c) h = ground (arith, count_absent q c)

  pub find_entry-append :
      (q : K) (a b : Chain K V) → find_entry q (a ++ b) ≡ or_else (find_entry q a) (find_entry q b)
  unfolding find_entry
  find_entry-append q [] b = refl
  find_entry-append q (e ∷ a) b = ground (arith, find_entry-append q a b)

  -- The entries that hit a key in two chains together.
  pub count-append :
      (q : K) (front back : Chain K V) → count q (front ++ back) ≡ count q front + count q back
  unfolding count
  count-append q [] back = omega arith
  count-append q (e ∷ front) back = omega (arith, count-append q front back)

  module _ (key q : K) where
    -- A key equal to `key` hits exactly the entries that `key` hits.
    pub find_entry-assign :
        (val : V) (c : Chain K V) {old : V}
        → find_entry key c ≡ some old
        → find_entry q (assign key val c)
          ≡ (if type.key_cmp key q then some val else find_entry q c)
    unfolding find_entry assign
    find_entry-assign val [] h = ground arith
    find_entry-assign val (e ∷ c) {old} h = ground (
      arith,
      find_entry-assign val c {old = old},
      type.key_cmp_iff key q,
      type.key_cmp_iff e.0 q,
      type.key_cmp_iff e.0 key,
    )

    pub count-assign : (val : V) (c : Chain K V) → count q (assign key val c) ≡ count q c
    unfolding count assign
    count-assign val [] = refl
    count-assign val (e ∷ c) = ground (arith, count-assign val c)

    -- What is left under each key when `key` is unlinked from a chain that holds no key twice.
    pub find_entry-unlink :
        (c c' : Chain K V)
        → unlink key c ≡ some c'
        → count q c ≤ 1
        → find_entry q c' ≡ (if type.key_cmp key q then none else find_entry q c)
    unfolding find_entry unlink count
    find_entry-unlink [] c' h once = cc
    find_entry-unlink (e ∷ c) c' h once = elim (Option-cases (unlink key c)) [
      | inl missing ↦ ground (
        arith,
        find_entry_absent q c,
        type.key_cmp_iff key q,
        type.key_cmp_iff e.0 q,
        type.key_cmp_iff e.0 key,
      )
      | inr (rest, hit) ↦ ground (
        arith,
        find_entry-unlink c rest hit,
        find_entry_absent q c,
        type.key_cmp_iff key q,
        type.key_cmp_iff e.0 q,
        type.key_cmp_iff e.0 key,
      )
    ]

    pub count-unlink-le : (c c' : Chain K V) → unlink key c ≡ some c' → count q c' ≤ count q c
    unfolding unlink count
    count-unlink-le [] c' h = cc
    count-unlink-le (e ∷ c) c' h = elim (Option-cases (unlink key c)) [
      | inl missing ↦ ground arith
      | inr (rest, hit) ↦ ground (arith, count-unlink-le c rest hit)
    ]

  pub length-unlink :
      (key : K) (c c' : Chain K V) → unlink key c ≡ some c' → length c' + 1 ≡ length c
  unfolding unlink
  length-unlink key [] c' h = cc
  length-unlink key (e ∷ c) c' h = elim (Option-cases (unlink key c)) [
    | inl missing ↦ ground arith
    | inr (rest, hit) ↦ ground (arith, length-unlink key c rest hit)
  ]

  pub length-assign : (key : K) (val : V) (c : Chain K V) → length (assign key val c) ≡ length c
  unfolding assign
  length-assign key val [] = refl
  length-assign key val (e ∷ c) = ground (arith, length-assign key val c)

  -- `unlink` fails exactly where `find_entry` does.
  pub unlink-find_entry :
      (key : K) (c : Chain K V) → is_some (unlink key c) ≡ is_some (find_entry key c)
  unfolding unlink find_entry
  unlink-find_entry key [] = refl
  unlink-find_entry key (e ∷ c) = ground (arith, unlink-find_entry key c)
