-- ===== src/Skiplist/Order.antt =====
-- skiplist.c: the members and scores that a skip list holds, in order, and what the code promises to
-- do with them.
use Prim.Native.Nat.{Ordering}
use mathlib.Core.Path.{ap₂}
use credish.Prelude.{
  ℕ, suc, length, ◌≡◌, ◌≢◌, ◌⊎◌, inl, inr, refl, ◌∙◌, ap, Bool, false, ◌||◌, List, [], ◌∷◌, ◌++◌,
  if◌then◌else◌,
}
use credish.Sds.{Bytes}
use credish.Sds.Order.{flip}
use credish.Skiplist.{Nodes, Zskiplist, Doubles, is_lt, is_eq}
use credish.Skiplist.Valid.{
  All, All-map, All-append, item, items, item_cmp, Ascending, IsSkiplist, IsOrder, node_cmp-flip,
  node_cmp_trans,
}

pub Ordering-cases : (o : Ordering) → (o ≡ Ordering.lt) ⊎ ((o ≡ Ordering.eq) ⊎ (o ≡ Ordering.gt))
Ordering-cases Ordering.lt = inl refl
Ordering-cases Ordering.eq = inr (inl refl)
Ordering-cases Ordering.gt = inr (inr refl)

head_eq : {A : Type 0} {a b : A} {l m : List A} → a ∷ l ≡ b ∷ m → a ≡ b
head_eq e = cc

tail_eq : {A : Type 0} {a b : A} {l m : List A} → a ∷ l ≡ b ∷ m → l ≡ m
tail_eq e = cc

module _ {D : Type 0} where
  -- The skip list is well formed, and its nodes hold the items of `l`, in this order.
  pub record Holds (zsl : Zskiplist D) (l : List (Bytes × D)) : Type 0 where
    pub places : List ℕ
    pub valid : IsSkiplist zsl places
    pub shows : items zsl.nodes places ≡ l

  pub All-items :
      (P : Bytes × D → Type 0) (nodes : Nodes D) (xs : List ℕ)
      → All P (items nodes xs)
      → All (λ x. P (item nodes x)) xs
  All-items P nodes [] all = tt
  All-items P nodes (x ∷ xs) all = (all.0, All-items P nodes xs all.1)

  -- The nodes that hold the two parts of a list.
  pub split_items :
      (nodes : Nodes D) (xs : List ℕ) (p q : List (Bytes × D))
      → items nodes xs ≡ p ++ q
      → (b : List ℕ) × (c : List ℕ) × (xs ≡ b ++ c) × (items nodes b ≡ p) × (items nodes c ≡ q)
  split_items nodes xs [] q e = ([], xs, refl, refl, e)
  split_items nodes [] (a ∷ p) q e = cc
  split_items nodes (x ∷ xs) (a ∷ p) q e =
      let rest = split_items nodes xs p q (tail_eq e) in
      (x ∷ rest.0, rest.1, ap (λ l. x ∷ l) rest.2, ap₂ (λ a l. a ∷ l) (head_eq e) rest.3, rest.4)

  -- The node that holds an item, and those around it.
  pub record Spot (nodes : Nodes D) (xs : List ℕ) (p : List (Bytes × D)) (a : Bytes × D)
      (q : List (Bytes × D)) : Type 0 where
    pub before : List ℕ
    pub node : ℕ
    pub after : List ℕ
    pub whole : xs ≡ before ++ node ∷ after
    pub first : items nodes before ≡ p
    pub own : item nodes node ≡ a
    pub rest : items nodes after ≡ q

  pub find-Spot :
      (nodes : Nodes D) (xs : List ℕ) (p : List (Bytes × D)) (a : Bytes × D) (q : List (Bytes × D))
      → items nodes xs ≡ p ++ a ∷ q
      → Spot nodes xs p a q
  find-Spot nodes [] [] a q e = cc
  find-Spot nodes (x ∷ xs) [] a q e = record {
    before = [];
    node = x;
    after = xs;
    whole = refl;
    first = refl;
    own = head_eq e;
    rest = tail_eq e;
  }
  find-Spot nodes [] (b ∷ p) a q e = cc
  find-Spot nodes (x ∷ xs) (b ∷ p) a q e =
      let s = find-Spot nodes xs p a q (tail_eq e) in
      record {
        before = x ∷ s.before;
        node = s.node;
        after = s.after;
        whole = ap (λ l. x ∷ l) s.whole;
        first = ap₂ (λ a l. a ∷ l) (head_eq e) s.first;
        own = s.own;
        rest = s.rest;
      }

  pub length-items : (nodes : Nodes D) (xs : List ℕ) → length (items nodes xs) ≡ length xs
  length-items nodes [] = refl
  length-items nodes (x ∷ xs) = ap suc (length-items nodes xs)

module _ {D : Type 0} (doubles : Doubles D) where
  -- The item that compares equal is left out.
  unfoldable pub remove_item : Bytes × D → List (Bytes × D) → List (Bytes × D)
  remove_item a [] = []
  remove_item a (x ∷ l) = if is_eq (item_cmp doubles x a) then l else x ∷ remove_item a l

  -- Whether an item compares equal.
  unfoldable pub has_item : Bytes × D → List (Bytes × D) → Bool
  has_item a [] = false
  has_item a (x ∷ l) = is_eq (item_cmp doubles x a) || has_item a l

  -- The item is put before the first that does not stand before it.
  unfoldable pub put_item : Bytes × D → List (Bytes × D) → List (Bytes × D)
  put_item a [] = a ∷ []
  put_item a (x ∷ l) = if is_lt (item_cmp doubles x a) then x ∷ put_item a l else a ∷ x ∷ l

  pub Ascending-before :
      (p : List (Bytes × D)) (a : Bytes × D) (q : List (Bytes × D))
      → Ascending doubles (p ++ a ∷ q)
      → All (λ x. item_cmp doubles x a ≡ Ordering.lt) p
  Ascending-before [] a q asc = tt
  Ascending-before (x ∷ p) a q asc =
      ((All-append _ p (a ∷ q) asc.0).1.0, Ascending-before p a q asc.1)

  pub Ascending-after : (p q : List (Bytes × D)) → Ascending doubles (p ++ q) → Ascending doubles q
  Ascending-after [] q asc = asc
  Ascending-after (x ∷ p) q asc = Ascending-after p q asc.1

module _ {D : Type 0} {doubles : Doubles D} where
  -- Where an item is put in an ascending list of items that all compare unequal to it.
  pub put_item-split :
      (order : IsOrder doubles) (a : Bytes × D) (l : List (Bytes × D))
      → Ascending doubles l
      → All (λ x. item_cmp doubles x a ≢ Ordering.eq) l
      → (p : List (Bytes × D)) × (q : List (Bytes × D)) × (l ≡ p ++ q)
        × (put_item doubles a l ≡ p ++ a ∷ q)
        × All (λ x. item_cmp doubles x a ≡ Ordering.lt) p
        × All (λ x. item_cmp doubles x a ≡ Ordering.gt) q
  unfolding put_item
  put_item-split order a [] asc apart = ([], [], refl, refl, tt, tt)
  put_item-split order a (x ∷ l) asc apart = elim (Ordering-cases (item_cmp doubles x a)) [
    | inl lt ↦
        let rest = put_item-split order a l asc.1 apart.1 in
        (
          x ∷ rest.0,
          rest.1,
          ap (λ l. x ∷ l) rest.2,
          rw lt (ap (λ l. x ∷ l) rest.3),
          (lt, rest.4),
          rest.5,
        )
    | inr (inl eq) ↦ absurd (apart.0 eq)
    | inr (inr gt) ↦
        let before = node_cmp-flip order x.1 x.0 a.1 a.0 ∙ ap flip gt in
        (
          [],
          x ∷ l,
          refl,
          rw gt refl,
          tt,
          (
            gt,
            All-map _ _ l
                (λ y h.
                  node_cmp-flip order a.1 a.0 y.1 y.0
                  ∙ ap flip (node_cmp_trans order a.1 a.0 x.1 x.0 y.1 y.0 before h))
                asc.0,
          ),
        )
  ]
