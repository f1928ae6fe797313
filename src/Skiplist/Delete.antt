-- ===== src/Skiplist/Delete.antt =====
-- skiplist.c: `zsl_delete` refines the removal from an ascending list of items.
use Prim.Native.Nat.{Ordering}
use mathlib.Core.Path.{ap₂}
use credish.Prelude.{
  ℕ, ◌+◌, ◌<◌, ◌≡◌, refl, sym, ◌∙◌, ap, subst, Bool, false, ◌&&◌, List, [], ◌∷◌, ◌++◌, arith,
  if◌then◌else◌, length, Bool-cases, inl, inr,
}
use credish.Sds.{Bytes, sds_cmp}
use credish.Sds.Order.{flip}
use credish.Skiplist.{Zskiplist, Doubles, is_lt, is_eq, node_cmp, delete_at, zsl_delete}
use credish.Skiplist.Lanes.{heights}
use credish.Skiplist.Valid.{
  All, All-map, All-append, item, items, items-append, item_cmp, Ascending, IsSkiplist, IsOrder,
  node_cmp-flip, node_cmp_trans,
}
use credish.Skiplist.Order.{
  Holds, All-items, length-items, split_items, remove_item, has_item, Ordering-cases,
}
use credish.Skiplist.Splice.{stop_lane}
use credish.Skiplist.Heights.{first_ptr, skip_first}
use credish.Skiplist.Raise.{stop_at}
use credish.Skiplist.Insert.{insert_stops_lem}
use credish.Skiplist.DeleteNode.{deleted-Holds, delete_node_lem}

module _ {D : Type 0} (doubles : Doubles D) (a : Bytes × D) where
  -- A list without its first item, if that compares equal.
  abbrev drop_equal : List (Bytes × D) → List (Bytes × D)
  drop_equal [] = []
  drop_equal (x ∷ l) = if is_eq (item_cmp doubles x a) then l else x ∷ l

  abbrev first_equal : List (Bytes × D) → Bool
  first_equal [] = false
  first_equal (x ∷ l) = is_eq (item_cmp doubles x a)

  remove_item_apart :
      (l : List (Bytes × D))
      → All (λ x. item_cmp doubles x a ≡ Ordering.gt) l
      → (remove_item doubles a l ≡ l) × (has_item doubles a l ≡ false)
  unfolding remove_item has_item
  remove_item_apart [] all = (refl, refl)
  remove_item_apart (x ∷ l) all =
      let rest = remove_item_apart l all.1 in rw all.0 (ap (λ l. x ∷ l) rest.0, rest.1)

  -- What stands before an item in an ascending list, and the rest.
  record Cut (l : List (Bytes × D)) : Type 0 where
    before : List (Bytes × D)
    after : List (Bytes × D)
    whole : l ≡ before ++ after
    smaller : All (λ x. item_cmp doubles x a ≡ Ordering.lt) before
    others : All (λ x. is_lt (item_cmp doubles x a) ≡ false) after
    removed : remove_item doubles a l ≡ before ++ drop_equal after
    found : has_item doubles a l ≡ first_equal after

  above :
      IsOrder doubles
      → (x : Bytes × D) (l : List (Bytes × D)) → item_cmp doubles x a ≡ Ordering.gt
      → All (λ y. item_cmp doubles x y ≡ Ordering.lt) l
      → All (λ y. item_cmp doubles y a ≡ Ordering.gt) l
  above order x l gt all =
      All-map _ _ l
        (λ y h.
          node_cmp-flip order a.1 a.0 y.1 y.0
          ∙ ap flip (
              node_cmp_trans order a.1 a.0 x.1 x.0 y.1 y.0
                (node_cmp-flip order x.1 x.0 a.1 a.0 ∙ ap flip gt) h))
        all

  not_before :
      IsOrder doubles
      → (x y : Bytes × D) → item_cmp doubles x a ≡ Ordering.eq
      → item_cmp doubles x y ≡ Ordering.lt
      → is_lt (item_cmp doubles y a) ≡ false
  not_before order x y eq lt = elim (Ordering-cases (item_cmp doubles y a)) [
    | inl less ↦ cc (eq, node_cmp_trans order x.1 x.0 y.1 y.0 a.1 a.0 lt less)
    | inr (inl same) ↦ ap is_lt same
    | inr (inr gt) ↦ ap is_lt gt
  ]

  delete_node-Holds : IsOrder doubles → (l : List (Bytes × D)) → Ascending doubles l → Cut l
  unfolding remove_item has_item
  delete_node-Holds order [] asc = record {
    before = [];
    after = [];
    whole = refl;
    smaller = tt;
    others = tt;
    removed = refl;
    found = refl;
  }
  delete_node-Holds order (x ∷ l) asc = elim (Ordering-cases (item_cmp doubles x a)) [
    | inl lt ↦
        let rest = delete_node-Holds order l asc.1 in
        record {
          before = x ∷ rest.before;
          after = rest.after;
          whole = ap (λ l. x ∷ l) rest.whole;
          smaller = (lt, rest.smaller);
          others = rest.others;
          removed = rw lt (ap (λ l. x ∷ l) rest.removed);
          found = rw lt rest.found;
        }
    | inr (inl eq) ↦ record {
      before = [];
      after = x ∷ l;
      whole = refl;
      smaller = tt;
      others = (ap is_lt eq, All-map _ _ l (λ y h. not_before order x y eq h) asc.0);
      removed = rw eq refl;
      found = rw eq refl;
    }
    | inr (inr gt) ↦
        let rest = above order x l gt asc.0 in
        record {
          before = [];
          after = x ∷ l;
          whole = refl;
          smaller = tt;
          others = (ap is_lt gt, All-map _ _ l (λ y e. ap is_lt e) rest);
          removed = rw gt (ap (λ l. x ∷ l) (remove_item_apart l rest).0);
          found = rw gt (remove_item_apart l rest).1;
        }
  ]

-- The node that follows the stop of the search.
first_stop :
    {D : Type 0} {zsl : Zskiplist D} (b c : List ℕ)
    → IsSkiplist zsl (b ++ c)
    → ((zsl.nodes (stop_at zsl.nodes b 0).0).level 0).forward ≡ first_ptr c
first_stop {zsl = zsl} b c valid =
    let lanes = valid.lanes 0 (omega (arith, valid.levels)) in
    let own = lanes.0 (omega (arith, valid.header)) in
    (stop_lane (heights zsl.nodes) 0 (λ p. (zsl.nodes p).level 0) c 0 0 0 b own.0
      (ap (λ n. 0 + n) own.1) lanes.1).0
    ∙ skip_first (heights zsl.nodes) c
        (All-map _ _ c (λ y h. h.0) (All-append _ b c valid.heights).1)

module _ {D : Type 0} (doubles : Doubles D) (zsl : Zskiplist D) (score : D) (member : Bytes) where
  -- `x->score != score || sds_cmp(x->member, member) != 0` is that the items compare unequal.
  same_item :
      (x : ℕ)
      → (is_eq (doubles.cmp (zsl.nodes x).score score)
          && is_eq (sds_cmp (zsl.nodes x).member member))
        ≡ is_eq (item_cmp doubles (item zsl.nodes x) (member, score))
  unfolding node_cmp
  same_item x = ground arith

  found_lem :
      (b c : List ℕ)
      → IsSkiplist zsl (b ++ c)
      → All (λ y. item_cmp doubles (item zsl.nodes y) (member, score) ≡ Ordering.lt) b
      → All (λ y. is_lt (item_cmp doubles (item zsl.nodes y) (member, score)) ≡ false) c
      → length (b ++ c) < 4294967296
      → zsl_delete doubles zsl score member
        ≡ delete_at doubles zsl (stop_at zsl.nodes b) score member (first_ptr c)
  unfolding zsl_delete
  found_lem b c valid before after small =
      ap (λ s. delete_at doubles zsl s score member ((zsl.nodes (s 0).0).level 0).forward)
        (insert_stops_lem doubles score member b c valid before after small)
      ∙ ap (delete_at doubles zsl (stop_at zsl.nodes b) score member) (first_stop b c valid)

  -- The outcome, with the list that is left.
  abbrev Deletes : List (Bytes × D) → Bool → Zskiplist D × Bool → Type 0
  Deletes l found r = Holds r.0 l × (r.1 ≡ found)

  at_first :
      (b c : List ℕ)
      → IsSkiplist zsl (b ++ c)
      → length (b ++ c) < 4294967296
      → Deletes
          (items zsl.nodes b ++ drop_equal doubles (member, score) (items zsl.nodes c))
          (first_equal doubles (member, score) (items zsl.nodes c))
          (delete_at doubles zsl (stop_at zsl.nodes b) score member (first_ptr c))
  unfolding delete_at
  at_first b [] valid small =
      (record { places = b ++ []; valid = valid; shows = items-append zsl.nodes b [] }, refl)
  at_first b (x ∷ c) valid small =
      elim (Bool-cases (is_eq (item_cmp doubles (item zsl.nodes x) (member, score)))) [
        | inl t ↦
            rw (same_item x, t)
              (
                subst (λ z. Holds z (items zsl.nodes b ++ items zsl.nodes c))
                    (sym (delete_node_lem b x c valid small doubles))
                    (deleted-Holds b x c valid small),
                refl,
              )
        | inr f ↦
            rw (same_item x, f)
              (
                record {
                  places = b ++ x ∷ c;
                  valid = valid;
                  shows = items-append zsl.nodes b (x ∷ c);
                },
                refl,
              )
      ]

-- `zsl_delete` leaves a well-formed skip list that holds the ascending items without the one that
-- compares equal to the score and the member, and returns whether there was one, if there are fewer
-- than 2^32 of them.
pub zsl_delete_lem :
    {D : Type 0} {doubles : Doubles D} (order : IsOrder doubles) (zsl : Zskiplist D) (score : D)
    (member : Bytes) (l : List (Bytes × D))
    → Holds zsl l
    → Ascending doubles l
    → length l < 4294967296
    → Holds (zsl_delete doubles zsl score member).0 (remove_item doubles (member, score) l)
      × ((zsl_delete doubles zsl score member).1 ≡ has_item doubles (member, score) l)
zsl_delete_lem {D} {doubles} order zsl score member l h asc small =
    let a : Bytes × D = (member, score) in
    let s = delete_node-Holds doubles a order l asc in
    let parts = split_items zsl.nodes h.places s.before s.after (h.shows ∙ s.whole) in
    let valid = subst (IsSkiplist zsl) parts.2 h.valid in
    let size : length (parts.0 ++ parts.1) < 4294967296 =
      omega (arith, ap length parts.2, length-items zsl.nodes h.places, ap length h.shows) in
    let before =
      All-items _ zsl.nodes parts.0
        (subst (All (λ x. item_cmp doubles x a ≡ Ordering.lt)) (sym parts.3) s.smaller) in
    let after =
      All-items _ zsl.nodes parts.1
        (subst (All (λ x. is_lt (item_cmp doubles x a) ≡ false)) (sym parts.4) s.others) in
    let done = at_first doubles zsl score member parts.0 parts.1 valid size in
    let r =
      subst
        (Deletes doubles zsl score member
          (items zsl.nodes parts.0 ++ drop_equal doubles a (items zsl.nodes parts.1))
          (first_equal doubles a (items zsl.nodes parts.1)))
        (sym (found_lem doubles zsl score member parts.0 parts.1 valid before after size)) done in
    (
      subst (Holds (zsl_delete doubles zsl score member).0)
          (ap₂ (λ p q. p ++ drop_equal doubles a q) parts.3 parts.4 ∙ sym s.removed) r.0,
      r.1 ∙ ap (first_equal doubles a) parts.4 ∙ sym s.found,
    )
