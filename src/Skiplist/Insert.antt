-- ===== src/Skiplist/Insert.antt =====
-- skiplist.c: `zsl_insert` refines the insertion into an ascending list of items.
use Prim.Native.Nat.{Ordering}
use mathlib.Core.Path.{ap₂}
use credish.Prelude.{
  ℕ, zero, suc, ◌+◌, ◌≤◌, ◌<◌, ◌≡◌, ◌≢◌, refl, sym, ◌∙◌, ap, subst, fun_ext, Bool, true, false,
  List, [], ◌∷◌, ◌++◌, arith, ltb, ◌==◌, length, length-append, Bool-cases, inl, inr, ltb→le,
  ltb→lt, if_false,
}
use credish.Sds.{Bytes}
use credish.Skiplist.{
  ZskiplistNode, Nodes, Zskiplist, Doubles, is_lt, node_lt, search_stops, insert_stops, insert_node,
  count_levels, zsl_random_level, zsl_insert,
}
use credish.Skiplist.Lanes.{heights, search_stops_lem}
use credish.Skiplist.Valid.{
  All, All-map, All-append, item, items, item_cmp, IsSkiplist, IsOrder, Ascending,
}
use credish.Skiplist.Stops.{All-GoesAt, start}
use credish.Skiplist.Splice.{last_tall_low}
use credish.Skiplist.Heights.{any_tall_low}
use credish.Skiplist.Raise.{stop_at}
use credish.Skiplist.InsertNode.{insert_node_lem, finished-Holds}
use credish.Skiplist.Order.{Holds, All-items, length-items, split_items, put_item, put_item-split}

count_levels-le : (level : ℕ) (rands : List ℕ) → level ≤ count_levels level rands
unfolding count_levels
count_levels-le level [] = omega arith
count_levels-le level (r ∷ rands) = ground (arith, count_levels-le (level + 1) rands)

-- A node gets 1 to 32 levels.
random_level_bounds :
    (rands : List ℕ) → (1 ≤ zsl_random_level rands) × (zsl_random_level rands ≤ 32)
unfolding zsl_random_level
random_level_bounds rands = ground (arith, count_levels-le 1 rands)

search_stops-above :
    {D : Type 0} (goes : ℕ → ZskiplistNode D → Bool) (m : ℕ) (nodes : Nodes D) (fuel i x r j : ℕ)
    → i ≤ j
    → search_stops goes m nodes fuel i x r j ≡ (0, 0)
unfolding search_stops
search_stops-above goes m nodes fuel zero x r j h = refl
search_stops-above goes m nodes fuel (suc i) x r j h =
    if_false {b = i == j} _ _ (ground arith)
    ∙ search_stops-above goes m nodes fuel i _ _ j (omega arith)

module _ {D : Type 0} (doubles : Doubles D) {zsl : Zskiplist D} (score : D) (member : Bytes) where
  -- The search stops, at every level, at the last node before the item.
  pub insert_stops_lem :
      (b c : List ℕ)
      → IsSkiplist zsl (b ++ c)
      → All (λ y. item_cmp doubles (item zsl.nodes y) (member, score) ≡ Ordering.lt) b
      → All (λ y. is_lt (item_cmp doubles (item zsl.nodes y) (member, score)) ≡ false) c
      → length (b ++ c) < 4294967296
      → insert_stops doubles zsl score member ≡ stop_at zsl.nodes b
  unfolding insert_stops node_lt
  insert_stops_lem b c valid before after small =
      let test = λ (y : ZskiplistNode D). node_lt doubles y.score y.member score member in
      let goes = λ (r : ℕ) (y : ZskiplistNode D). test y in
      let passes =
        All-GoesAt test zsl.nodes true 0 b
          (All-map _ (λ y. test (zsl.nodes y) ≡ true) b (λ y e. ap is_lt e) before) in
      let fails =
        All-GoesAt test zsl.nodes false (length b) c
          (All-map _ (λ y. test (zsl.nodes y) ≡ false) c (λ y e. e) after) in
      fun_ext (λ j. elim (Bool-cases (ltb j zsl.level)) [
        | inl below ↦
            search_stops_lem goes zsl.nodes c (length b) 4294967296 zsl.len zsl.level 0 0 b
              (stop_at zsl.nodes b) (start goes b c valid passes) fails
              (omega (arith, length-append b c)) (omega (arith, valid.len, length-append b c))
              (λ j lt. refl) j (ltb→lt _ _ below)
        | inr above ↦
            search_stops-above goes 4294967296 zsl.nodes zsl.len zsl.level 0 0 j (ltb→le _ _ above)
            ∙ sym (
                last_tall_low (heights zsl.nodes) j 0 0 0 b (
                  any_tall_low (heights zsl.nodes) j b (
                    All-map _ _ b (λ y h. omega (arith, h, ltb→le j zsl.level above))
                      (All-append _ b c valid.heights).0)))
      ])

  -- Between the nodes before the item and those after it.
  insert_between :
      (rands b c : List ℕ)
      → IsSkiplist zsl (b ++ c)
      → All (λ y. item_cmp doubles (item zsl.nodes y) (member, score) ≡ Ordering.lt) b
      → All (λ y. item_cmp doubles (item zsl.nodes y) (member, score) ≡ Ordering.gt) c
      → length (b ++ c) + 1 < 4294967296
      → Holds
          (zsl_insert doubles rands zsl score member)
          (items zsl.nodes b ++ (member, score) ∷ items zsl.nodes c)
  unfolding zsl_insert
  insert_between rands b c valid before after small =
      let level = zsl_random_level rands in
      let bounds = random_level_bounds rands in
      let same =
        ap (λ s. insert_node doubles zsl s level score member)
          (insert_stops_lem b c valid before (All-map _ _ c (λ y e. ap is_lt e) after)
            (omega arith))
        ∙ insert_node_lem b c valid level score member bounds.0 bounds.1 small doubles in
      subst (λ z. Holds z (items zsl.nodes b ++ (member, score) ∷ items zsl.nodes c)) (sym same)
        (finished-Holds b c valid level score member bounds.0 bounds.1 small)

module _ {D : Type 0} {doubles : Doubles D} (order : IsOrder doubles) where
  -- `zsl_insert`, whatever `rand` returns, leaves a well-formed skip list that holds the item at its
  -- place in the ascending list of the old ones, if none of them compares equal to it and there are
  -- fewer than 2^32 - 1 of them.
  pub zsl_insert_lem :
      (rands : List ℕ) (zsl : Zskiplist D) (score : D) (member : Bytes) (l : List (Bytes × D))
      → Holds zsl l
      → Ascending doubles l
      → All (λ a. item_cmp doubles a (member, score) ≢ Ordering.eq) l
      → length l + 1 < 4294967296
      → Holds (zsl_insert doubles rands zsl score member) (put_item doubles (member, score) l)
  zsl_insert_lem rands zsl score member l h asc apart small =
      let s = put_item-split order (member, score) l asc apart in
      let parts = split_items zsl.nodes h.places s.0 s.1 (h.shows ∙ s.2) in
      let before =
        All-items _ zsl.nodes parts.0
          (subst (All (λ a. item_cmp doubles a (member, score) ≡ Ordering.lt)) (sym parts.3) s.4) in
      let after =
        All-items _ zsl.nodes parts.1
          (subst (All (λ a. item_cmp doubles a (member, score) ≡ Ordering.gt)) (sym parts.4) s.5) in
      subst (Holds (zsl_insert doubles rands zsl score member))
        (ap₂ (λ p q. p ++ (member, score) ∷ q) parts.3 parts.4 ∙ sym s.3)
        (insert_between doubles score member rands parts.0 parts.1
          (subst (IsSkiplist zsl) parts.2 h.valid) before after
          (omega (arith, ap length parts.2, length-items zsl.nodes h.places, ap length h.shows)))
