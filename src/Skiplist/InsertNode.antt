-- ===== src/Skiplist/InsertNode.antt =====
-- skiplist.c: `zsl_insert` keeps a skip list well formed, and puts the new node in its place.
use mathlib.Core.Path.{ap₂}
use credish.Prelude.{
  ℕ, ◌+◌, ◌≤◌, ◌<◌, ◌≡◌, ◌≢◌, refl, sym, ◌∙◌, ap, subst, Bool, true, false, none, some, List, [],
  ◌∷◌, ◌++◌, arith, if◌then◌else◌, ◌==◌, length, length-append, is_some,
}
use credish.Sds.{Bytes}
use credish.Skiplist.{
  Ptr, Lane, ZskiplistNode, Nodes, Zskiplist, Doubles, set_backward, insert_node,
}
use credish.Skiplist.Lanes.{LanesAt, heights}
use credish.Skiplist.Valid.{
  item, items, items-append, items-same, All, All-map, All-map₂, insert-All, All_of, All-append,
  Distinct, IsSkiplist, Backs, last_ptr,
}
use credish.Skiplist.Order.{Holds}
use credish.Skiplist.Splice.{Lanes-same}
use credish.Skiplist.Heights.{Lanes-agree, first_ptr, skip_first}
use credish.Skiplist.Backward.{
  set_backward-field, Backs-same, Backs-append, append-Backs, set_backward-Backs,
  set_backward-other, Distinct-append, append-Distinct, stop-last_ptr, tail-append,
}
use credish.Skiplist.Store.{Framed-item}
use credish.Skiplist.Raise.{
  stop_at, top, made_nodes, fresh-All, made-heights, made_height, made_forward, made_back,
  made-item, made-item_old,
}
use credish.Skiplist.Link.{linked_nodes, linked-Framed, linked_high, linked-Linked, linked-Lanes}

-- The backward pointer of a node that is not written.
if_node :
    {D : Type 0} (t : Bool) (n m : ZskiplistNode D)
    → t ≡ false
    → (if t then n else m).backward ≡ m.backward
if_node t n m e = rw e refl

self_node :
    {D : Type 0} (t : Bool) (n m : ZskiplistNode D)
    → t ≡ true
    → (if t then n else m).backward ≡ n.backward
self_node t n m e = rw e refl

module _ {D : Type 0} where
  -- What `zsl_insert` returns, with the neighbours of the new node.
  abbrev pub finished : Zskiplist D → List ℕ → ℕ → D → Bytes → (next back : Ptr) → Zskiplist D
  finished zsl b level score member next back = record {
    nodes =
        set_backward next (some zsl.fresh)
          (set_backward (some zsl.fresh) back (linked_nodes zsl b level score member));
    tail = if is_some next then zsl.tail else some zsl.fresh;
    len = zsl.len + 1;
    level = top zsl level;
    fresh = zsl.fresh + 1;
  }

  module _ {zsl : Zskiplist D} (b c : List ℕ) (valid : IsSkiplist zsl (b ++ c)) (level : ℕ)
      (score : D) (member : Bytes) (low : 1 ≤ level) (high : level ≤ 32)
      (small : length (b ++ c) + 1 < 4294967296) where
    abbrev pub x : ℕ
    x = zsl.fresh

    abbrev pub linked : Nodes D
    linked = linked_nodes zsl b level score member

    abbrev pub backed : Nodes D
    backed = set_backward (some x) (last_ptr none b) linked

    abbrev pub final : Nodes D
    final = set_backward (first_ptr c) (some x) backed

    final-level : (p : ℕ) → (final p).level ≡ (linked p).level
    final-level p =
        set_backward-field (λ n. n.level) (first_ptr c) (some x) backed p (λ n q. refl)
        ∙ set_backward-field (λ n. n.level) (some x) (last_ptr none b) linked p (λ n q. refl)

    final-height : (p : ℕ) → (final p).height ≡ (linked p).height
    final-height p =
        set_backward-field (λ n. n.height) (first_ptr c) (some x) backed p (λ n q. refl)
        ∙ set_backward-field (λ n. n.height) (some x) (last_ptr none b) linked p (λ n q. refl)

    final-Lanes : (i : ℕ) → i < top zsl level → LanesAt final i (0 ∷ (b ++ x ∷ c))
    final-Lanes i lt =
        let xs = 0 ∷ (b ++ x ∷ c) in
        Lanes-agree (heights linked) (heights final) i (λ p. (final p).level i) xs
          (All_of _ xs final-height)
          (Lanes-same (heights linked) i (λ p. (linked p).level i) (λ p. (final p).level i) xs
            (All_of _ xs (λ p. ap (λ (l : ℕ → Lane). l i) (final-level p)))
            (linked-Lanes b c valid level score member low high small i lt))

    linked-height : (y : ℕ) → (linked y).height ≡ (made_nodes zsl level score member y).height
    linked-height = (linked-Framed b c valid level score member).heights

    heights_old : All (λ y. (final y).height ≡ (zsl.nodes y).height) (0 ∷ (b ++ c))
    heights_old =
        All-map _ _ (0 ∷ (b ++ c)) (λ y h. final-height y ∙ linked-height y ∙ h)
          (made-heights (b ++ c) valid level score member)

    height_new : (final x).height ≡ level
    height_new = final-height x ∙ linked-height x ∙ made_height (b ++ c) valid level score member

    final-heights :
        All (λ y. (1 ≤ (final y).height) × ((final y).height ≤ top zsl level)) (b ++ x ∷ c)
    final-heights =
        insert-All _ b x c
          (All-map₂ (λ y. (final y).height ≡ (zsl.nodes y).height) _ _ (b ++ c)
            (λ y h k. (ground (arith, k), ground (arith, k))) heights_old.1 valid.heights)
          (ground (arith, height_new), ground (arith, height_new))

    apart_new : All (λ y. y ≢ x) (0 ∷ (b ++ c))
    apart_new = fresh-All (b ++ c) valid level score member

    apart_after : All (λ z. x ≢ z) c
    apart_after = All-map (λ y. y ≢ x) _ c (λ y n e. n (sym e)) (All-append _ b c apart_new.1).1

    apart_before : All (λ y. All (λ z. y ≢ z) (x ∷ c)) b
    apart_before =
        All-map₂ (λ y. y ≢ x) (λ y. All (λ z. y ≢ z) c) _ b (λ y n all. (n, all))
          (All-append _ b c apart_new.1).0 (Distinct-append b c valid.distinct.1).2

    new-Distinct : Distinct (b ++ x ∷ c)
    new-Distinct =
        let parts = Distinct-append b c valid.distinct.1 in
        append-Distinct b (x ∷ c) parts.0 (apart_after, parts.1) apart_before

    old_back : (y : ℕ) → y ≢ x → (backed y).backward ≡ (zsl.nodes y).backward
    old_back y n =
        if_node (x == y) _ _ (ground arith)
        ∙ (linked-Framed b c valid level score member).backs y
        ∙ made_back (b ++ c) valid level score member y n

    final-Backs : Backs final none (b ++ x ∷ c)
    final-Backs =
        let parts = Backs-append zsl.nodes none b c valid.backs in
        let apart = All-append _ b c apart_new.1 in
        let before =
          Backs-same zsl.nodes backed none b (All-map (λ y. y ≢ x) _ b old_back apart.0) parts.0 in
        let after =
          Backs-same zsl.nodes backed (last_ptr none b) c
            (All-map (λ y. y ≢ x) _ c old_back apart.1) parts.1 in
        append-Backs final none b (x ∷ c)
          (Backs-same backed final none b
            (set_backward-other backed (some x) c b
              (All-map (λ y. All (λ z. y ≢ z) (x ∷ c)) _ b (λ y h. h.1) apart_before))
            before)
          (
            (set_backward-other backed (some x) c (x ∷ []) (apart_after, tt)).0
                ∙ self_node (x == x) _ _ (ground arith),
            set_backward-Backs backed (last_ptr none b) (some x) c
                (Distinct-append b c valid.distinct.1).1 after,
          )

    finished-IsSkiplist :
        IsSkiplist (finished zsl b level score member (first_ptr c) (last_ptr none b)) (b ++ x ∷ c)
    finished-IsSkiplist = record {
      lanes = final-Lanes;
      above = λ i le.
          ap (λ (l : ℕ → Lane). (l i).forward) (final-level 0)
          ∙ ap (λ (l : Lane). l.forward) (linked_high b c valid level score member 0 i le)
          ∙ made_forward (b ++ c) valid level score member i
          ∙ valid.above i (ground arith);
      header = heights_old.0 ∙ valid.header;
      levels = (ground (arith, valid.levels), ground (arith, valid.levels));
      heights = final-heights;
      allocated =
          insert-All _ b x c (All-map _ _ (b ++ c) (λ y l. omega arith) valid.allocated)
            (omega arith);
      distinct = (insert-All _ b x c valid.distinct.0 (omega (arith, valid.fresh)), new-Distinct);
      fresh = omega arith;
      backs = final-Backs;
      tail = tail-append x b c valid.tail;
      len = omega (arith, length-append b c, length-append b (x ∷ c));
    }

    next_lem : ((linked x).level 0).forward ≡ first_ptr c
    next_lem =
        let made = made_nodes zsl level score member in
        let lanes =
          linked-Linked b c valid level score member low high small 0
            (ground (arith, valid.levels)) in
        let tall =
          lanes.tall
            (subst (λ n. 0 < n) (sym (made_height (b ++ c) valid level score member)) low) in
        let heights_of = (All-append _ b c (made-heights (b ++ c) valid level score member).1).1 in
        tall.2
        ∙ lanes.ahead
        ∙ skip_first (heights made) c (
            All-map₂ (λ y. heights made y ≡ heights zsl.nodes y) _ _ c
              (λ y h k. subst (λ n. 1 ≤ n) (sym h) k.0) heights_of
              (All-append _ b c valid.heights).1)

    back_lem :
        (if (stop_at zsl.nodes b 0).0 == 0 then none else some (stop_at zsl.nodes b 0).0)
        ≡ last_ptr none b
    back_lem =
        stop-last_ptr (heights zsl.nodes) b
          (All-map _ _ b (λ y h. h.0) (All-append _ b c valid.heights).0)
          (All-append _ b c valid.distinct.0).0

    -- From the stops of the search on.
    pub insert_node_lem :
        (doubles : Doubles D)
        → insert_node doubles zsl (stop_at zsl.nodes b) level score member
          ≡ finished zsl b level score member (first_ptr c) (last_ptr none b)
    unfolding insert_node
    insert_node_lem doubles = ap₂ (finished zsl b level score member) next_lem back_lem

    final-item : (p : ℕ) → item final p ≡ item (made_nodes zsl level score member) p
    final-item p =
        set_backward-field (λ n. (n.member, n.score)) (first_ptr c) (some x) backed p (λ n q. refl)
        ∙ set_backward-field (λ n. (n.member, n.score)) (some x) (last_ptr none b) linked p
            (λ n q. refl)
        ∙ Framed-item (linked-Framed b c valid level score member) p

    item_new : item final x ≡ (member, score)
    item_new = final-item x ∙ made-item (b ++ c) valid level score member

    items_old : All (λ y. item final y ≡ item zsl.nodes y) (b ++ c)
    items_old =
        All-map (λ y. y ≢ x) _ (b ++ c)
          (λ y n. final-item y ∙ made-item_old (b ++ c) valid level score member y n) apart_new.1

    pub finished-Holds :
        Holds
          (finished zsl b level score member (first_ptr c) (last_ptr none b))
          (items zsl.nodes b ++ (member, score) ∷ items zsl.nodes c)
    finished-Holds =
        let old = All-append (λ y. item final y ≡ item zsl.nodes y) b c items_old in
        record {
          places = b ++ x ∷ c;
          valid = finished-IsSkiplist;
          shows =
              items-append final b (x ∷ c)
              ∙ ap₂ (λ p q. p ++ q) (items-same zsl.nodes final b old.0)
                  (ap₂ (λ a l. a ∷ l) item_new (items-same zsl.nodes final c old.1));
        }
