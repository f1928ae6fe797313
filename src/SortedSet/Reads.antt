-- ===== src/SortedSet/Reads.antt =====
-- sorted_set.c: the loops of the range queries, against the items of the sorted set in order.
use credish.Prelude.{
  ℕ, zero, suc, ◌+◌, ◌-◌, ◌^◌, ◌≤◌, ◌<◌, ◌≡◌, refl, sym, ◌∙◌, ap, subst, min, Bool, true, false,
  Option, none, some, List, [], ◌∷◌, ◌++◌, arith, if◌then◌else◌, ltb, length, take, drop,
  Bool-cases, inl, inr, if_true, if_false,
}
use credish.Prelude.Int.{ℤ, pos, negsuc, pos_part, ◌-ℤ◌, ltb_ℤ, is_int}
use credish.Sds.{Bytes}
use credish.Skiplist.{Nodes, Zskiplist, zsl_get_element_by_rank}
use credish.Skiplist.Lanes.{heights, LanesAt}
use credish.Skiplist.Valid.{All, All-map, item, items, IsSkiplist}
use credish.Skiplist.Order.{Holds, length-items}
use credish.Skiplist.Heights.{first_ptr, skip_first}
use credish.Skiplist.Element.{element_at}
use credish.ListCommands.{range_stop}
use credish.ListCommands.Range.{
  slice, from_position, to_position, range_start_lem, range_stop-cases, take-end, past_end, rounds,
}
use credish.SortedSet.Queries.{zset_py_member_score, range_items, range_of, zrange_of}

-- The node at a place, or none behind the last.
split_at :
    (n : ℕ) (xs : List ℕ)
    → n < length xs
    → (b : List ℕ) × (x : ℕ) × (c : List ℕ) × (xs ≡ b ++ x ∷ c)
      × (length b ≡ n)
      × (drop n xs ≡ x ∷ c)
split_at n [] h = absurd (omega arith)
split_at zero (x ∷ xs) h = ([], x, xs, refl, refl, refl)
split_at (suc n) (y ∷ xs) h =
    let s = split_at n xs (omega arith) in (y ∷ s.0, s.1, s.2, ap (λ l. y ∷ l) s.3, ap suc s.4, s.5)

nothing : {a : ℕ} (i : ℕ) → a ≡ 0 → 0 ≡ a - i
nothing i h = omega (arith, h)

module _ {D : Type 0} where
  -- A reply's entry for an item.
  abbrev pub shown : (withscores : Bool) → Bytes × D → Bytes × Option D
  shown withscores a = (a.0, if withscores then some a.1 else none)

  unfoldable pub show_all : (withscores : Bool) → List (Bytes × D) → List (Bytes × Option D)
  show_all withscores [] = []
  show_all withscores (a ∷ l) = shown withscores a ∷ show_all withscores l

  -- The first level leads through the nodes one by one.
  unfoldable pub Forward : Nodes D → List ℕ → Type 0
  Forward nodes [] = Unit {0}
  Forward nodes (x ∷ xs) = (((nodes x).level 0).forward ≡ first_ptr xs) × Forward nodes xs

  Lanes-Forward :
      (nodes : Nodes D) (xs : List ℕ)
      → All (λ x. 1 ≤ (nodes x).height) xs
      → LanesAt nodes 0 xs
      → Forward nodes xs
  unfolding Forward
  Lanes-Forward nodes [] tall lanes = tt
  Lanes-Forward nodes (x ∷ xs) tall lanes = (
    (lanes.0 tall.0).0 ∙ skip_first (heights nodes) xs tall.1,
    Lanes-Forward nodes xs tall.1 lanes.1,
  )

  drop-Forward :
      (n : ℕ) (nodes : Nodes D) (xs : List ℕ) → Forward nodes xs → Forward nodes (drop n xs)
  unfolding Forward
  drop-Forward zero nodes xs c = c
  drop-Forward (suc n) nodes [] c = c
  drop-Forward (suc n) nodes (x ∷ xs) c = drop-Forward n nodes xs c.1

  items-drop :
      (n : ℕ) (nodes : Nodes D) (xs : List ℕ) → items nodes (drop n xs) ≡ drop n (items nodes xs)
  items-drop zero nodes xs = refl
  items-drop (suc n) nodes [] = refl
  items-drop (suc n) nodes (x ∷ xs) = items-drop n nodes xs

  forward_items :
      (withscores : Bool) (count : ℕ) (nodes : Nodes D) (xs : List ℕ)
      → Forward nodes xs
      → range_items (λ x. (x.level 0).forward) withscores count nodes (first_ptr xs)
        ≡ show_all withscores (take count (items nodes xs))
  unfolding range_items zset_py_member_score Forward show_all
  forward_items withscores zero nodes xs c = refl
  forward_items withscores (suc count) nodes [] c = refl
  forward_items withscores (suc count) nodes (x ∷ xs) c =
      ap (λ l. shown withscores (item nodes x) ∷ l)
        (ap (range_items (λ x. (x.level 0).forward) withscores count nodes) c.0
          ∙ forward_items withscores count nodes xs c.1)

  pub all-Forward : {zsl : Zskiplist D} {xs : List ℕ} → IsSkiplist zsl xs → Forward zsl.nodes xs
  all-Forward {zsl} {xs} valid =
      Lanes-Forward zsl.nodes xs (All-map _ _ xs (λ x h. h.0) valid.heights)
        (valid.lanes 0 (omega (arith, valid.levels))).1

  pub first-Forward :
      {zsl : Zskiplist D} {xs : List ℕ}
      → IsSkiplist zsl xs
      → ((zsl.nodes 0).level 0).forward ≡ first_ptr xs
  first-Forward {zsl} {xs} valid =
      ((valid.lanes 0 (omega (arith, valid.levels))).0 (omega (arith, valid.header))).0
      ∙ skip_first (heights zsl.nodes) xs (All-map _ _ xs (λ x h. h.0) valid.heights)

  from_rank :
      (withscores : Bool) (count n : ℕ) {zsl : Zskiplist D} (xs : List ℕ)
      → IsSkiplist zsl xs
      → length xs < 2 ^ 64
      → n < length xs
      → range_items
          (λ x. (x.level 0).forward)
          withscores
          count
          zsl.nodes
          (zsl_get_element_by_rank zsl (n + 1))
        ≡ show_all withscores (take count (drop n (items zsl.nodes xs)))
  from_rank withscores count n {zsl} xs valid small inside =
      let s = split_at n xs inside in
      let found =
        ap (λ k. zsl_get_element_by_rank zsl (k + 1)) (sym s.4)
        ∙ element_at zsl s.0 s.1 s.2 (subst (IsSkiplist zsl) s.3 valid)
            (omega (arith, ap length s.3))
        ∙ ap first_ptr (sym s.5) in
      ap (range_items (λ x. (x.level 0).forward) withscores count zsl.nodes) found
      ∙ forward_items withscores count zsl.nodes (drop n xs)
          (drop-Forward n zsl.nodes xs (all-Forward valid))
      ∙ ap (λ l. show_all withscores (take count l)) (items-drop n zsl.nodes xs)

  range_none :
      (withscores : Bool) (zsl : Zskiplist D) (first m : ℕ)
      → range_of false withscores zsl first (negsuc m) ≡ []
  unfolding range_of
  range_none withscores zsl first m = if_true {b = ltb_ℤ (negsuc m) (pos first)} _ _ (ground arith)

  range_some :
      (withscores : Bool) {zsl : Zskiplist D} (xs : List ℕ) (first m : ℕ)
      → IsSkiplist zsl xs
      → length xs < 2 ^ 64
      → m < length xs
      → range_of false withscores zsl first (pos m)
        ≡ show_all withscores (take (suc m - first) (drop first (items zsl.nodes xs)))
  unfolding range_of show_all
  range_some withscores {zsl} xs first m valid small inside =
      elim (Bool-cases (ltb_ℤ (pos m) (pos first))) [
        | inl e ↦
            if_true _ _ e
            ∙ ap (λ k. show_all withscores (take k (drop first (items zsl.nodes xs))))
                (sym (past_end m first e))
        | inr e ↦
            if_false _ _ e
            ∙ if_true {b = ltb 0 zsl.len} _ _ (ground (arith, valid.len))
            ∙ from_rank withscores (pos_part (pos m -ℤ pos first) + 1) first xs valid small
                (ground (arith, e))
            ∙ ap (λ k. show_all withscores (take k (drop first (items zsl.nodes xs))))
                (rounds m first e)
      ]

  -- From the length on, ZRANGE lists the items of a well-formed skip list of fewer than 2^31 items from
  -- `start` to `stop`, both of type `int`, included and counted from the end where they are negative;
  -- with their scores, if they are asked for.
  pub zrange_of_lem :
      (withscores : Bool) (zsl : Zskiplist D) (l : List (Bytes × D)) (start stop : ℤ)
      → Holds zsl l
      → length l < 2147483648
      → is_int start ≡ true
      → is_int stop ≡ true
      → zrange_of false withscores zsl start stop ≡ show_all withscores (slice start stop l)
  unfolding zrange_of slice show_all
  zrange_of_lem withscores zsl l start stop h small is is' =
      let same : zsl.len ≡ length l =
        h.valid.len ∙ sym (length-items zsl.nodes h.places) ∙ ap length h.shows in
      let end : ℕ = to_position (length l) stop in
      let first : ℕ = from_position (length l) start in
      let len : ℕ = zsl.len in
      ap (λ k. range_of false withscores zsl k (range_stop len stop))
        (range_start_lem len start (omega (arith, same)) is ∙ ap (λ k. from_position k start) same)
      ∙ elim (range_stop-cases len stop (omega (arith, same)) is') [
        | inl (m, s, k) ↦
            ap (range_of false withscores zsl first) s
            ∙ range_some withscores h.places first m h.valid
                (omega (arith, same, h.valid.len, small)) (omega (arith, h.valid.len, k))
            ∙ ap (λ xs. show_all withscores (take (suc m - first) (drop first xs))) h.shows
            ∙ ap (λ n. show_all withscores (take (n - first) (drop first l)))
                (k ∙ ap (λ n. min n (to_position n stop)) same)
            ∙ ap (show_all withscores) (take-end end first l)
        | inr (m, s, k) ↦
            ap (range_of false withscores zsl first) s
            ∙ range_none withscores zsl first m
            ∙ ap (λ n. show_all withscores (take n (drop first l)))
                (nothing first (sym (ap (λ n. min n (to_position n stop)) same) ∙ k))
            ∙ ap (show_all withscores) (take-end end first l)
      ]
