-- ===== src/SortedSet/Items.antt =====
-- sorted_set.c: lists of members with their scores, as a sorted set shows them.
use Prim.Native.Nat.{Ordering}
use mathlib.Core.Path.{ap₂}
use credish.Prelude.{
  ◌+◌, ◌≤◌, ◌≡◌, ◌≢◌, refl, sym, ◌∙◌, ap, subst, true, false, Option, none, some, List, [], ◌∷◌,
  arith, if◌then◌else◌, length, Bool-cases, inl, inr,
}
use credish.Sds.{Bytes}
use credish.Sds.Order.{flip, sds_cmp_eq}
use credish.Keys.{dict_cmp_sds, dict_cmp_sds_iff}
use credish.Skiplist.{Doubles, is_lt, is_eq, node_cmp}
use credish.Skiplist.Valid.{
  All, All-map, item_cmp, Ascending, IsOrder, node_cmp_refl, node_cmp-flip, node_cmp_trans,
}
use credish.Skiplist.Order.{remove_item, has_item, put_item, Ordering-cases}

some_eq : {A : Type 0} {a b : A} → some a ≡ some b → a ≡ b
some_eq e = cc

not_eq : (o : Ordering) → o ≢ Ordering.eq → is_eq o ≡ false
not_eq Ordering.lt n = refl
not_eq Ordering.eq n = absurd (n refl)
not_eq Ordering.gt n = refl

module _ {D : Type 0} where
  -- The score of a member.
  unfoldable pub score_of : Bytes → List (Bytes × D) → Option D
  score_of m [] = none
  score_of m ((n, score) ∷ l) = if dict_cmp_sds n m then some score else score_of m l

  -- The list without a member.
  unfoldable pub without : Bytes → List (Bytes × D) → List (Bytes × D)
  without m [] = []
  without m (a ∷ l) = if dict_cmp_sds a.0 m then l else a ∷ without m l

  -- No member twice.
  abbrev pub Unique : List (Bytes × D) → Type 0
  Unique [] = Unit {0}
  Unique (a ∷ l) = All (λ b. b.0 ≢ a.0) l × Unique l

  pub score_of-none :
      (m : Bytes) (l : List (Bytes × D)) → score_of m l ≡ none → All (λ a. a.0 ≢ m) l
  unfolding score_of
  score_of-none m [] e = tt
  score_of-none m ((n, score) ∷ l) e = elim (Bool-cases (dict_cmp_sds n m)) [
    | inl t ↦ cc (rw t at e)
    | inr f ↦ (λ h. cc (f, (dict_cmp_sds_iff n m).1 h), score_of-none m l (rw f at e))
  ]

  pub score_of_absent :
      (m : Bytes) (l : List (Bytes × D)) → All (λ a. a.0 ≢ m) l → score_of m l ≡ none
  unfolding score_of
  score_of_absent m [] all = refl
  score_of_absent m ((n, score) ∷ l) all =
      ground (arith, dict_cmp_sds_iff n m, all.0, score_of_absent m l all.1)

  pub without-All :
      (P : Bytes × D → Type 0) (m : Bytes) (l : List (Bytes × D)) → All P l → All P (without m l)
  unfolding without
  without-All P m [] all = tt
  without-All P m (a ∷ l) all = elim (Bool-cases (dict_cmp_sds a.0 m)) [
    | inl t ↦ rw t all.1
    | inr f ↦ rw f (all.0, without-All P m l all.1)
  ]

  pub without-Unique : (m : Bytes) (l : List (Bytes × D)) → Unique l → Unique (without m l)
  unfolding without
  without-Unique m [] u = tt
  without-Unique m (a ∷ l) u = elim (Bool-cases (dict_cmp_sds a.0 m)) [
    | inl t ↦ rw t u.1
    | inr f ↦ rw f (without-All (λ b. b.0 ≢ a.0) m l u.0, without-Unique m l u.1)
  ]

  pub without-apart :
      (m : Bytes) (l : List (Bytes × D)) → Unique l → All (λ a. a.0 ≢ m) (without m l)
  unfolding without
  without-apart m [] u = tt
  without-apart m (a ∷ l) u = elim (Bool-cases (dict_cmp_sds a.0 m)) [
    | inl t ↦ rw t (subst (λ n. All (λ b. b.0 ≢ n) l) ((dict_cmp_sds_iff a.0 m).0 t) u.0)
    | inr f ↦ rw f ((λ h. cc (f, (dict_cmp_sds_iff a.0 m).1 h)), without-apart m l u.1)
  ]

  pub score_of-without :
      (m : Bytes) (l : List (Bytes × D))
      → Unique l
      → (q : Bytes) → score_of q (without m l) ≡ (if dict_cmp_sds m q then none else score_of q l)
  unfolding score_of without
  score_of-without m [] u q = ground arith
  score_of-without m ((n, score) ∷ l) u q = elim (Bool-cases (dict_cmp_sds n m)) [
    | inl t ↦ rw t (
        ground (
          arith,
          (dict_cmp_sds_iff n m).0 t,
          dict_cmp_sds_iff n q,
          dict_cmp_sds_iff m q,
          λ (e : n ≡ q). score_of_absent q l (subst (λ k. All (λ b. b.0 ≢ k) l) e u.0),
        ))
    | inr f ↦ rw f (
        ground (
          arith,
          f,
          dict_cmp_sds_iff n m,
          dict_cmp_sds_iff n q,
          dict_cmp_sds_iff m q,
          score_of-without m l u.1 q,
        ))
  ]

  pub without_absent : (m : Bytes) (l : List (Bytes × D)) → All (λ a. a.0 ≢ m) l → without m l ≡ l
  unfolding without
  without_absent m [] all = refl
  without_absent m (a ∷ l) all =
      ground (arith, dict_cmp_sds_iff a.0 m, all.0, without_absent m l all.1)

  pub length-without : (m : Bytes) (l : List (Bytes × D)) → length (without m l) ≤ length l
  unfolding without
  length-without m [] = omega arith
  length-without m (a ∷ l) = ground (arith, length-without m l)

module _ {D : Type 0} (doubles : Doubles D) where
  pub item_cmp-ne : (a b : Bytes × D) → a.0 ≢ b.0 → item_cmp doubles a b ≢ Ordering.eq
  unfolding node_cmp
  item_cmp-ne a b n = ground (arith, sds_cmp_eq a.0 b.0)

  pub without-Ascending :
      (m : Bytes) (l : List (Bytes × D)) → Ascending doubles l → Ascending doubles (without m l)
  unfolding without
  without-Ascending m [] asc = tt
  without-Ascending m (a ∷ l) asc = elim (Bool-cases (dict_cmp_sds a.0 m)) [
    | inl t ↦ rw t asc.1
    | inr f ↦ rw f (without-All _ m l asc.0, without-Ascending m l asc.1)
  ]

  -- `zsl_delete` takes the member out, if it is given the score that the member has.
  pub remove_item-without :
      IsOrder doubles
      → (m : Bytes) (l : List (Bytes × D)) {old : D} → score_of m l ≡ some old
      → (remove_item doubles (m, old) l ≡ without m l) × (has_item doubles (m, old) l ≡ true)
  unfolding score_of remove_item has_item without
  remove_item-without order m [] e = cc
  remove_item-without order m ((n, score) ∷ l) {old} e = elim (Bool-cases (dict_cmp_sds n m)) [
    | inl t ↦
        let own : some score ≡ some old = rw t at e in
        let here : item_cmp doubles (n, score) (m, old) ≡ Ordering.eq =
          ap₂ (λ k (s : D). item_cmp doubles (k, s) (m, old)) ((dict_cmp_sds_iff n m).0 t)
            (some_eq own)
          ∙ node_cmp_refl order old m in
        rw (here, t) (refl, refl)
    | inr f ↦
        let rest = remove_item-without order m l (rw f at e) in
        let other : is_eq (item_cmp doubles (n, score) (m, old)) ≡ false =
          not_eq (item_cmp doubles (n, score) (m, old))
            (item_cmp-ne (n, score) (m, old) (λ h. cc (f, (dict_cmp_sds_iff n m).1 h))) in
        rw (other, f) (ap (λ l. (n, score) ∷ l) rest.0, rest.1)
  ]

  module _ (m : Bytes) (s : D) where
    pub put_item-All :
        (P : Bytes × D → Type 0) (l : List (Bytes × D))
        → P (m, s)
        → All P l
        → All P (put_item doubles (m, s) l)
    unfolding put_item
    put_item-All P [] p all = (p, tt)
    put_item-All P (x ∷ l) p all = elim (Bool-cases (is_lt (item_cmp doubles x (m, s)))) [
      | inl t ↦ rw t (all.0, put_item-All P l p all.1)
      | inr f ↦ rw f (p, all)
    ]

    pub put_item-Unique :
        (l : List (Bytes × D))
        → All (λ a. a.0 ≢ m) l
        → Unique l
        → Unique (put_item doubles (m, s) l)
    unfolding put_item
    put_item-Unique [] apart u = (tt, tt)
    put_item-Unique (x ∷ l) apart u = elim (Bool-cases (is_lt (item_cmp doubles x (m, s)))) [
      | inl t ↦ rw t (
        put_item-All (λ b. b.0 ≢ x.0) l (λ h. apart.0 (sym h)) u.0,
        put_item-Unique l apart.1 u.1,
      )
      | inr f ↦ rw f (apart, u)
    ]

    pub score_of-put_item :
        (l : List (Bytes × D))
        → All (λ a. a.0 ≢ m) l
        → (q : Bytes)
        → score_of q (put_item doubles (m, s) l)
          ≡ (if dict_cmp_sds m q then some s else score_of q l)
    unfolding score_of put_item
    score_of-put_item [] apart q = refl
    score_of-put_item ((n, score) ∷ l) apart q =
        elim (Bool-cases (is_lt (item_cmp doubles (n, score) (m, s)))) [
          | inl t ↦ rw t (
              ground (
                arith,
                dict_cmp_sds_iff n q,
                dict_cmp_sds_iff m q,
                apart.0,
                score_of-put_item l apart.1 q,
              ))
          | inr f ↦ rw f refl
        ]

    pub put_item-Ascending :
        IsOrder doubles
        → (l : List (Bytes × D)) → All (λ a. item_cmp doubles a (m, s) ≢ Ordering.eq) l
        → Ascending doubles l
        → Ascending doubles (put_item doubles (m, s) l)
    unfolding put_item
    put_item-Ascending order [] apart asc = (tt, tt)
    put_item-Ascending order (x ∷ l) apart asc = elim (Ordering-cases (item_cmp doubles x (m, s))) [
      | inl lt ↦ rw lt (
        put_item-All (λ b. item_cmp doubles x b ≡ Ordering.lt) l lt asc.0,
        put_item-Ascending order l apart.1 asc.1,
      )
      | inr (inl eq) ↦ absurd (apart.0 eq)
      | inr (inr gt) ↦
          let first = node_cmp-flip order x.1 x.0 s m ∙ ap flip gt in
          rw gt (
            (first, All-map _ _ l (λ y h. node_cmp_trans order s m x.1 x.0 y.1 y.0 first h) asc.0),
            asc,
          )
    ]

    pub length-put_item : (l : List (Bytes × D)) → length (put_item doubles (m, s) l) ≡ length l + 1
    unfolding put_item
    length-put_item [] = omega arith
    length-put_item (x ∷ l) = ground (arith, length-put_item l)
