-- ===== src/Skiplist/Link.antt =====
-- skiplist.c: the lanes after `zsl_insert` has linked the new node in.
use credish.Prelude.{
  ℕ, ◌+◌, ◌-◌, ◌≤◌, ◌<◌, ◌≡◌, ◌≢◌, refl, sym, ◌∙◌, ap, subst, Bool, false, ◌&&◌, some, List, ◌∷◌,
  ◌++◌, arith, if◌then◌else◌, ltb, leb, ◌==◌, length, length-append, Bool-cases, inl, inr, if_true,
  if_false, ltb→lt, ltb→le, lt→ltb, le→ltb,
}
use credish.Sds.{Bytes, u32}
use credish.Skiplist.{Lane, Nodes, Zskiplist, sub32, link, bump_spans}
use credish.Skiplist.Lanes.{LanesAt, heights, skip}
use credish.Skiplist.Valid.{All, All-map, All-append, All_of, IsSkiplist}
use credish.Skiplist.Splice.{stop_lane, Linked, link-Lanes}
use credish.Skiplist.Heights.{last_tall_agree, Lanes-agree, last_tall_full, skip-le}
use credish.Skiplist.Store.{
  Framed, Framed-trans, link-Framed, link-level, linked_lane, bump_spans-Framed, bump_spans-level,
}
use credish.Skiplist.Raise.{
  sub32_lem, stop_at, top, made_nodes, fresh-All, made-heights, made_height, made-Lanes,
}
use credish.Skiplist.Backward.{Distinct-append}
use credish.Skiplist.Stops.{last_tall-le, last_tall-All}

is_below : (a : Bool) (i l m : ℕ) → i < l → (a && (leb l i && ltb i m)) ≡ false
is_below a i l m h = ground arith

is_above : (a : Bool) (i l m : ℕ) → m ≤ i → (a && (leb l i && ltb i m)) ≡ false
is_above a i l m h = ground arith

is_within : (a : Bool) (i l m : ℕ) → l ≤ i → i < m → (a && (leb l i && ltb i m)) ≡ a
is_within a i l m h k = ground arith

module _ {D : Type 0} where
  -- The nodes when the loops of `zsl_insert` have linked the new one in.
  abbrev pub linked_nodes : Zskiplist D → List ℕ → ℕ → D → Bytes → Nodes D
  linked_nodes zsl b level score member =
      bump_spans (top zsl level - level) level (stop_at zsl.nodes b)
        (link level zsl.fresh (stop_at zsl.nodes b) (made_nodes zsl level score member))

  module _ {zsl : Zskiplist D} (b c : List ℕ) (valid : IsSkiplist zsl (b ++ c)) (level : ℕ)
      (score : D) (member : Bytes) where
    abbrev made : Nodes D
    made = made_nodes zsl level score member

    abbrev linked : Nodes D
    linked = linked_nodes zsl b level score member

    abbrev stop : ℕ → ℕ × ℕ
    stop = stop_at zsl.nodes b

    pub stop-All : (P : ℕ → Type 0) → P 0 → All P (b ++ c) → (j : ℕ) → P (stop j).0
    stop-All P p all j = last_tall-All P (heights zsl.nodes) j 0 0 0 b p (All-append P b c all).0

    pub stop-ne : (j : ℕ) → (stop j).0 ≢ zsl.fresh
    stop-ne =
        let fresh = fresh-All (b ++ c) valid level score member in
        stop-All (λ y. y ≢ zsl.fresh) fresh.0 fresh.1

    pub linked-Framed : Framed made linked
    linked-Framed =
        Framed-trans (link-Framed zsl.fresh stop made stop-ne level)
          (bump_spans-Framed (top zsl level - level) level stop _)

    -- A lane below the new node's levels, and one above them.
    linked_below :
        (p i : ℕ) → i < level → (linked p).level i ≡ linked_lane zsl.fresh stop made stop-ne p i
    linked_below p i lt =
        bump_spans-level (top zsl level - level) level stop (link level zsl.fresh stop made) p i
        ∙ if_false _ _ (is_below ((stop i).0 == p) i level _ lt)
        ∙ link-level zsl.fresh stop made stop-ne level p i
        ∙ if_true _ _ (lt→ltb i level lt)

    linked_above :
        (p i : ℕ)
        → level ≤ i
        → i < top zsl level
        → (linked p).level i ≡ (
            if (stop i).0 == p
            then record {
              forward = ((made p).level i).forward;
              span = u32 (((made p).level i).span + 1);
            }
            else (made p).level i)
    linked_above p i le lt =
        bump_spans-level (top zsl level - level) level stop (link level zsl.fresh stop made) p i
        ∙ rw
            (
              link-level zsl.fresh stop made stop-ne level p i ∙ if_false _ _ (le→ltb i level le),
              is_within ((stop i).0 == p) i level (level + (top zsl level - level)) le
                  (omega arith),
            )
            refl

    pub linked_high : (p i : ℕ) → top zsl level ≤ i → (linked p).level i ≡ (made p).level i
    linked_high p i le =
        bump_spans-level (top zsl level - level) level stop (link level zsl.fresh stop made) p i
        ∙ if_false _ _
            (is_above ((stop i).0 == p) i level (level + (top zsl level - level)) (ground arith))
        ∙ link-level zsl.fresh stop made stop-ne level p i
        ∙ if_false _ _ (le→ltb i level (ground arith))

    linked_other :
        (p i : ℕ)
        → i < top zsl level
        → p ≢ (stop i).0
        → p ≢ zsl.fresh
        → (linked p).level i ≡ (made p).level i
    linked_other p i lt n m = elim (Bool-cases (ltb i level)) [
      | inl below ↦
          linked_below p i (ltb→lt _ _ below)
          ∙ if_false {b = (stop i).0 == p} _ _ (ground arith)
          ∙ if_false {b = zsl.fresh == p} _ _ (ground arith)
      | inr above ↦
          linked_above p i (ltb→le _ _ above) lt ∙ if_false {b = (stop i).0 == p} _ _ (ground arith)
    ]

    module _ (low : 1 ≤ level) (high : level ≤ 32) (small : length (b ++ c) + 1 < 4294967296) where
      -- The stop at the lowest level is the last node before the new one.
      pub stop_rank : (stop 0).1 ≡ length b
      stop_rank =
          last_tall_full (heights zsl.nodes) 0 0 0 b
            (All-map _ _ b (λ y h. h.0) (All-append _ b c valid.heights).0)
          ∙ omega arith

      sizes : length (b ++ c) ≡ length b + length c
      sizes = length-append b c

      pub within : (i : ℕ) → i < top zsl level → i < heights made 0
      within i lt =
          let h = (made-heights (b ++ c) valid level score member).0 ∙ valid.header in
          subst (λ n. i < n) (sym h) (ground (arith, valid.levels))

      -- What is ahead of the stop in a level.
      ahead_of :
          (i : ℕ)
          → i < top zsl level
          → (((made (stop i).0).level i).forward ≡ (skip (heights made) i c).0)
            × ((stop i).1 + ((made (stop i).0).level i).span
                ≡ length b + (skip (heights made) i c).1)
      ahead_of i lt =
          let lanes = made-Lanes (b ++ c) valid level score member (omega arith) i lt in
          let own = lanes.0 (within i lt) in
          let same =
            last_tall_agree (heights zsl.nodes) (heights made) i 0 0 0 b
              (All-append _ b c (made-heights (b ++ c) valid level score member).1).0 in
          let found =
            stop_lane (heights made) i (λ p. (made p).level i) c 0 0 0 b own.0
              (ap (λ n. 0 + n) own.1) lanes.1 in
          subst
            (λ (q : ℕ × ℕ).
              (((made q.0).level i).forward ≡ (skip (heights made) i c).0)
              × (q.1 + ((made q.0).level i).span ≡ length b + (skip (heights made) i c).1))
            same (found.0, found.1 ∙ omega arith)

      stop-le : (i : ℕ) → (stop i).1 ≤ length b
      stop-le i = omega (arith, last_tall-le (heights zsl.nodes) i 0 0 0 b (omega arith))

      passed_eq : (i : ℕ) → sub32 (stop 0).1 (stop i).1 ≡ length b - (stop i).1
      passed_eq i =
          ap (λ n. sub32 n (stop i).1) stop_rank
          ∙ sub32_lem (length b) (stop i).1 (stop-le i) (omega (arith, sizes))

      pub linked-Linked :
          (i : ℕ)
          → i < top zsl level
          → Linked
              (heights made)
              i
              (λ p. (made p).level i)
              (λ p. (linked p).level i)
              zsl.fresh
              c
              (stop i)
              (length b)
      linked-Linked i lt = record {
        others = λ p n m. linked_other p i lt n m;
        place = stop-le i;
        ahead = ahead.0;
        distance = ahead.1;
        tall = λ t. tall_lanes (subst (λ n. i < n) new_height t);
        low = λ t. low_lanes (subst (λ n. n ≤ i) new_height t);
      }
        where
          new_height : heights made zsl.fresh ≡ level
          new_height = made_height (b ++ c) valid level score member

          ahead :
              (((made (stop i).0).level i).forward ≡ (skip (heights made) i c).0)
              × ((stop i).1 + ((made (stop i).0).level i).span
                  ≡ length b + (skip (heights made) i c).1)
          ahead = ahead_of i lt

          bounded : (skip (heights made) i c).1 ≤ length c
          bounded = skip-le (heights made) i c

          tall_lanes :
              i < level
              → (((linked (stop i).0).level i).forward ≡ some zsl.fresh)
                × ((stop i).1 + ((linked (stop i).0).level i).span ≡ length b + 1)
                × (((linked zsl.fresh).level i).forward ≡ ((made (stop i).0).level i).forward)
                × (((linked zsl.fresh).level i).span + length b
                    ≡ ((made (stop i).0).level i).span + (stop i).1)
          tall_lanes t =
              let at_stop =
                linked_below (stop i).0 i t
                ∙ if_true {b = (stop i).0 == (stop i).0} _ _ (ground arith) in
              let at_new =
                linked_below zsl.fresh i t
                ∙ if_false {b = (stop i).0 == zsl.fresh} _ _ (ground (arith, stop-ne i))
                ∙ if_true {b = zsl.fresh == zsl.fresh} _ _ (ground arith) in
              let before = ((made (stop i).0).level i).span in
              let passed = passed_eq i in
              let left : sub32 before (sub32 (stop 0).1 (stop i).1)
                  ≡ before - (length b - (stop i).1) =
                ap (sub32 before) passed
                ∙ sub32_lem before (length b - (stop i).1) (omega (arith, ahead.1, stop-le i))
                    (omega (arith, ahead.1, stop-le i, bounded, sizes)) in
              (
                ap (λ (q : Lane). q.forward) at_stop,
                omega (arith, ap (λ (q : Lane). q.span) at_stop, passed, stop-le i, sizes),
                ap (λ (q : Lane). q.forward) at_new,
                omega (arith, ap (λ (q : Lane). q.span) at_new, left, stop-le i, ahead.1),
              )

          low_lanes :
              level ≤ i
              → (((linked (stop i).0).level i).forward ≡ ((made (stop i).0).level i).forward)
                × (((linked (stop i).0).level i).span ≡ ((made (stop i).0).level i).span + 1)
          low_lanes t =
              let at_stop =
                linked_above (stop i).0 i t lt
                ∙ if_true {b = (stop i).0 == (stop i).0} _ _ (ground arith) in
              (
                ap (λ (q : Lane). q.forward) at_stop,
                omega
                    (arith, ap (λ (q : Lane). q.span) at_stop, ahead.1, bounded, sizes, stop-le i),
              )

      -- Every node of the list but the stop is another one.
      stop_apart : (i : ℕ) → All (λ p. p ≢ (stop i).0) c
      stop_apart i =
          let parts = Distinct-append b c valid.distinct.1 in
          let flip = λ (q : ℕ) (h : All (λ z. q ≢ z) c).
            All-map (λ z. q ≢ z) (λ p. p ≢ q) c (λ z n e. n (sym e)) h in
          last_tall-All (λ q. All (λ p. p ≢ q) c) (heights zsl.nodes) i 0 0 0 b
            (flip 0 (All-append _ b c valid.distinct.0).1)
            (All-map (λ y. All (λ z. y ≢ z) c) _ b flip parts.2)

      -- The lanes of every level are those of the list with the new node.
      pub linked-Lanes : (i : ℕ) → i < top zsl level → LanesAt linked i (0 ∷ (b ++ zsl.fresh ∷ c))
      linked-Lanes i lt =
          let xs = 0 ∷ (b ++ zsl.fresh ∷ c) in
          let same =
            last_tall_agree (heights zsl.nodes) (heights made) i 0 0 0 b
              (All-append _ b c (made-heights (b ++ c) valid level score member).1).0 in
          Lanes-agree (heights made) (heights linked) i (λ p. (linked p).level i) xs
            (All_of _ xs linked-Framed.heights)
            (link-Lanes (heights made) i (λ p. (made p).level i) (λ p. (linked p).level i) zsl.fresh
              c (stop i) (length b) (linked-Linked i lt) (stop_apart i) 0 0 0 0 b
              (fresh-All (b ++ c) valid level score member) valid.distinct
              (made-Lanes (b ++ c) valid level score member (omega arith) i lt) same (omega arith)
              (λ t. (refl, refl)))
