-- ===== src/SortedSet/ByScore.antt =====
-- sorted_set.c: ZRANGEBYSCORE, against the items of the sorted set in order.
use Prim.Native.Nat.{Ordering}
use credish.Prelude.{
  ℕ, zero, suc, ◌≤◌, ◌≡◌, ◌⊎◌, refl, sym, ◌∙◌, ap, subst, Bool, true, false, not, ◌&&◌, some, List,
  [], ◌∷◌, arith, if◌then◌else◌, length, Bool-cases, inl, inr, if_true, if_false,
}
use credish.Sds.{Bytes}
use credish.Skiplist.{Doubles, Nodes, Zskiplist, is_lt, is_gt, node_cmp}
use credish.Skiplist.Valid.{All, All-map, item, items, item_cmp, Ascending, IsOrder}
use credish.Skiplist.Heights.{first_ptr}
use credish.Skiplist.Order.{Holds, Ordering-cases}
use credish.SortedSet.Queries.{zset_py_member_score, skip_below, items_upto, by_score}
use credish.SortedSet.Reads.{Forward, all-Forward, first-Forward, show_all, shown}

module _ {D : Type 0} (doubles : Doubles D) where
  -- The items whose scores are in the closed interval.
  unfoldable pub between : (min_score max_score : D) → List (Bytes × D) → List (Bytes × D)
  between min_score max_score [] = []
  between min_score max_score (a ∷ l) =
      if not (is_lt (doubles.cmp a.1 min_score)) && not (is_gt (doubles.cmp a.1 max_score))
      then a ∷ between min_score max_score l
      else between min_score max_score l

  between-none :
      (min_score max_score : D) (l : List (Bytes × D))
      → All (λ a. is_gt (doubles.cmp a.1 max_score) ≡ true) l
      → between min_score max_score l ≡ []
  unfolding between
  between-none min_score max_score [] all = refl
  between-none min_score max_score (a ∷ l) all =
      elim (Bool-cases (is_lt (doubles.cmp a.1 min_score))) [
        | inl t ↦ rw t (between-none min_score max_score l all.1)
        | inr f ↦ rw (f, all.0) (between-none min_score max_score l all.1)
      ]

  between_in :
      (min_score max_score : D) (a : Bytes × D) (l : List (Bytes × D))
      → is_lt (doubles.cmp a.1 min_score) ≡ false
      → is_gt (doubles.cmp a.1 max_score) ≡ false
      → between min_score max_score (a ∷ l) ≡ a ∷ between min_score max_score l
  unfolding between
  between_in min_score max_score a l h k = rw (h, k) refl

  between_below :
      (min_score max_score : D) (a : Bytes × D) (l : List (Bytes × D))
      → is_lt (doubles.cmp a.1 min_score) ≡ true
      → between min_score max_score (a ∷ l) ≡ between min_score max_score l
  unfolding between
  between_below min_score max_score a l h = rw h refl

  upto_past :
      (withscores : Bool) (fuel : ℕ) (nodes : Nodes D) (x : ℕ) (max_score : D)
      → is_gt (doubles.cmp (nodes x).score max_score) ≡ true
      → items_upto doubles (suc fuel) nodes max_score withscores (some x) ≡ []
  unfolding items_upto
  upto_past withscores fuel nodes x max_score h = rw (h, items_upto) refl

  upto_in :
      (withscores : Bool) (fuel : ℕ) (nodes : Nodes D) (x : ℕ) (max_score : D)
      → is_gt (doubles.cmp (nodes x).score max_score) ≡ false
      → items_upto doubles (suc fuel) nodes max_score withscores (some x)
        ≡ shown withscores (item nodes x)
          ∷ items_upto doubles fuel nodes max_score withscores ((nodes x).level 0).forward
  unfolding items_upto zset_py_member_score
  upto_in withscores fuel nodes x max_score h = rw (h, items_upto) refl

  skip_step :
      (fuel : ℕ) (nodes : Nodes D) (x : ℕ) (min_score : D)
      → is_lt (doubles.cmp (nodes x).score min_score) ≡ true
      → skip_below doubles (suc fuel) nodes min_score (some x)
        ≡ skip_below doubles fuel nodes min_score ((nodes x).level 0).forward
  unfolding skip_below
  skip_step fuel nodes x min_score h = rw (h, skip_below) refl

module _ {D : Type 0} {doubles : Doubles D} (order : IsOrder doubles) where
  -- The score of a later item is not lower.
  later :
      (a b : Bytes × D)
      → item_cmp doubles a b ≡ Ordering.lt
      → (doubles.cmp a.1 b.1 ≡ Ordering.lt) ⊎ (doubles.cmp a.1 b.1 ≡ Ordering.eq)
  unfolding node_cmp
  later a b h = ground arith

  stays_above :
      (a b : Bytes × D) (bound : D)
      → item_cmp doubles a b ≡ Ordering.lt
      → is_lt (doubles.cmp a.1 bound) ≡ false
      → is_lt (doubles.cmp b.1 bound) ≡ false
  stays_above a b bound h k = elim (later a b h) [
    | inl e ↦ ground (arith, order.cmp_trans a.1 b.1 bound e, k)
    | inr e ↦ ap is_lt (sym (order.cmp_eq a.1 b.1 bound e)) ∙ k
  ]

  stays_beyond :
      (a b : Bytes × D) (bound : D)
      → item_cmp doubles a b ≡ Ordering.lt
      → is_gt (doubles.cmp a.1 bound) ≡ true
      → is_gt (doubles.cmp b.1 bound) ≡ true
  stays_beyond a b bound h k = elim (later a b h) [
    | inl e ↦ ground (
      arith,
      order.cmp_trans bound a.1 b.1,
      order.cmp_flip bound a.1,
      order.cmp_flip bound b.1,
      e,
      k,
    )
    | inr e ↦ ap is_gt (sym (order.cmp_eq a.1 b.1 bound e)) ∙ k
  ]

  outside :
      (score min_score max_score : D)
      → is_lt (doubles.cmp score min_score) ≡ false
      → is_gt (doubles.cmp min_score max_score) ≡ true
      → is_gt (doubles.cmp score max_score) ≡ true
  outside score min_score max_score from t = elim (Ordering-cases (doubles.cmp score min_score)) [
    | inl e ↦ ground (arith, from, e)
    | inr (inl e) ↦ ap is_gt (order.cmp_eq score min_score max_score e) ∙ t
    | inr (inr e) ↦ ground (
      arith,
      order.cmp_trans max_score min_score score,
      order.cmp_flip max_score min_score,
      order.cmp_flip min_score score,
      order.cmp_flip score min_score,
      order.cmp_flip max_score score,
      order.cmp_flip min_score max_score,
      order.cmp_flip score max_score,
      e,
      t,
    )
  ]

  -- An empty interval.
  between-empty :
      (min_score max_score : D) (l : List (Bytes × D))
      → is_gt (doubles.cmp min_score max_score) ≡ true
      → between doubles min_score max_score l ≡ []
  unfolding between
  between-empty min_score max_score [] t = refl
  between-empty min_score max_score (a ∷ l) t =
      elim (Bool-cases (is_lt (doubles.cmp a.1 min_score))) [
        | inl below ↦ rw below (between-empty min_score max_score l t)
        | inr from ↦
            rw (from, outside a.1 min_score max_score from t)
              (between-empty min_score max_score l t)
      ]

  upto_lem :
      (withscores : Bool) (fuel : ℕ) (nodes : Nodes D) (xs : List ℕ) (min_score max_score : D)
      → Forward nodes xs
      → Ascending doubles (items nodes xs)
      → All (λ a. is_lt (doubles.cmp a.1 min_score) ≡ false) (items nodes xs)
      → length xs ≤ fuel
      → items_upto doubles fuel nodes max_score withscores (first_ptr xs)
        ≡ show_all withscores (between doubles min_score max_score (items nodes xs))
  unfolding items_upto Forward show_all between
  upto_lem withscores zero nodes [] min_score max_score c asc above enough = refl
  upto_lem withscores zero nodes (x ∷ xs) min_score max_score c asc above enough =
      absurd (omega arith)
  upto_lem withscores (suc fuel) nodes [] min_score max_score c asc above enough = refl
  upto_lem withscores (suc fuel) nodes (x ∷ xs) min_score max_score c asc above enough =
      elim (Bool-cases (is_gt (doubles.cmp (nodes x).score max_score))) [
        | inl t ↦
            let beyond =
              All-map _ _ (items nodes xs) (λ b h. stays_beyond (item nodes x) b max_score h t)
                asc.0 in
            upto_past doubles withscores fuel nodes x max_score t
            ∙ ap (show_all withscores)
                (sym (between-none doubles min_score max_score (items nodes (x ∷ xs)) (t, beyond)))
        | inr f ↦
            upto_in doubles withscores fuel nodes x max_score f
            ∙ ap (λ l. shown withscores (item nodes x) ∷ l)
                (ap (items_upto doubles fuel nodes max_score withscores) c.0
                  ∙ upto_lem withscores fuel nodes xs min_score max_score c.1 asc.1 above.1
                      (omega arith))
            ∙ ap (show_all withscores) (
                sym (
                  between_in doubles min_score max_score (item nodes x) (items nodes xs) above.0 f))
      ]

  below_lem :
      (withscores : Bool) (fuel more : ℕ) (nodes : Nodes D) (xs : List ℕ) (min_score max_score : D)
      → Forward nodes xs
      → Ascending doubles (items nodes xs)
      → length xs ≤ fuel
      → length xs ≤ more
      → items_upto doubles more nodes max_score withscores
          (skip_below doubles fuel nodes min_score (first_ptr xs))
        ≡ show_all withscores (between doubles min_score max_score (items nodes xs))
  unfolding skip_below Forward
  below_lem withscores zero more nodes [] min_score max_score c asc enough e =
      upto_lem withscores more nodes [] min_score max_score tt tt tt e
  below_lem withscores zero more nodes (x ∷ xs) min_score max_score c asc enough e =
      absurd (omega arith)
  below_lem withscores (suc fuel) more nodes [] min_score max_score c asc enough e =
      upto_lem withscores more nodes [] min_score max_score tt tt tt e
  below_lem withscores (suc fuel) more nodes (x ∷ xs) min_score max_score c asc enough e =
      elim (Bool-cases (is_lt (doubles.cmp (nodes x).score min_score))) [
        | inl t ↦
            ap (items_upto doubles more nodes max_score withscores) (
              skip_step doubles fuel nodes x min_score t
              ∙ ap (skip_below doubles fuel nodes min_score) c.0)
            ∙ below_lem withscores fuel more nodes xs min_score max_score c.1 asc.1 (omega arith)
                (omega arith)
            ∙ ap (show_all withscores)
                (sym (between_below doubles min_score max_score (item nodes x) (items nodes xs) t))
        | inr f ↦
            ap (items_upto doubles more nodes max_score withscores) (rw (f, skip_below) refl)
            ∙ upto_lem withscores more nodes (x ∷ xs) min_score max_score c asc
                (
                  f,
                  All-map _ _ (items nodes xs) (λ b h. stays_above (item nodes x) b min_score h f)
                      asc.0,
                )
                e
      ]

  -- ZRANGEBYSCORE lists the items of a skip list that holds ascending items whose scores are in the
  -- closed interval, in order; with their scores, if they are asked for.
  pub by_score_lem :
      (zsl : Zskiplist D) (l : List (Bytes × D)) (min_score max_score : D) (withscores : Bool)
      → Holds zsl l
      → Ascending doubles l
      → by_score doubles zsl min_score max_score withscores
        ≡ show_all withscores (between doubles min_score max_score l)
  unfolding by_score between show_all
  by_score_lem zsl l min_score max_score withscores h asc =
      elim (Bool-cases (is_gt (doubles.cmp min_score max_score))) [
        | inl t ↦
            if_true _ _ t ∙ ap (show_all withscores) (sym (between-empty min_score max_score l t))
        | inr f ↦
            if_false _ _ f
            ∙ ap
                (λ p.
                  items_upto doubles zsl.len zsl.nodes max_score withscores
                    (skip_below doubles zsl.len zsl.nodes min_score p))
                (first-Forward h.valid)
            ∙ below_lem withscores zsl.len zsl.len zsl.nodes h.places min_score max_score
                (all-Forward h.valid) (subst (Ascending doubles) (sym h.shows) asc)
                (omega (arith, h.valid.len)) (omega (arith, h.valid.len))
            ∙ ap (λ l. show_all withscores (between doubles min_score max_score l)) h.shows
      ]
