-- ===== src/Skiplist/Rank.antt =====
-- skiplist.c: `zsl_get_rank`, against the order of the nodes.
use credish.Prelude.{
  ℕ, zero, suc, ◌+◌, ◌^◌, ◌≤◌, ◌<◌, ◌≡◌, ◌≢◌, refl, sym, ◌∙◌, ap, subst, Bool, true, false, not,
  ◌&&◌, append_assoc, List, [], ◌∷◌, ◌++◌, arith, if◌then◌else◌, ltb, ◌==◌, length, length-append,
  Bool-cases, inl, inr, if_true, if_false, ltb→le,
}
use credish.Sds.{Bytes, sds_cmp}
use credish.Sds.Order.{flip, sds_cmp_eq}
use credish.Skiplist.{
  ZskiplistNode, Zskiplist, Doubles, is_eq, is_gt, node_gt, walk, rank_from, zsl_get_rank,
}
use credish.Skiplist.Lanes.{GoesAt, IsAt, heights, last_tall, next_start}
use credish.Skiplist.Order.{
  Holds, Spot, find-Spot, length-items, All-items, Ascending-before, Ascending-after,
}
use credish.Skiplist.Valid.{
  All, All-map, All-append, append-All, item, items, IsSkiplist, IsOrder, Ascending, node_cmp_refl,
  node_cmp-flip,
}
use credish.Skiplist.Stops.{last_tall-All, last_tall-snoc, All-GoesAt, start}

module _ {D : Type 0} (doubles : Doubles D) (zsl : Zskiplist D) where
  -- A stop is a node with this member.
  abbrev has_member : Bytes → ℕ → Bool
  has_member member p = not (p == 0) && is_eq (sds_cmp (zsl.nodes p).member member)

  has_own : (x : ℕ) → 0 ≢ x → has_member (zsl.nodes x).member x ≡ true
  has_own x n = ground (arith, sds_cmp_eq (zsl.nodes x).member (zsl.nodes x).member)

  has_other : (member : Bytes) (y : ℕ) → (zsl.nodes y).member ≢ member → has_member member y ≡ false
  has_other member y n = ground (arith, sds_cmp_eq (zsl.nodes y).member member)

  -- One round of the loop over the levels.
  rank_step :
      (score : D) (member : Bytes) (i y r : ℕ) (stop : ℕ × ℕ)
      → walk
          (λ r y. not (node_gt doubles y.score y.member score member))
          (2 ^ 64)
          zsl.nodes
          i
          zsl.len
          y
          r
        ≡ stop
      → rank_from doubles zsl score member (suc i) y r ≡ (
          if has_member member stop.0
          then stop.1
          else rank_from doubles zsl score member i stop.0 stop.1)
  unfolding rank_from
  rank_step score member i y r stop e =
      subst
        (λ (w : ℕ × ℕ).
          (elim (has_member member w.0) [
            | true ↦ w.1
            | false ↦ rank_from doubles zsl score member i w.0 w.1
          ])
          ≡ (if has_member member stop.0
              then stop.1
              else rank_from doubles zsl score member i stop.0 stop.1))
        (sym e)
        (elim (Bool-cases (has_member member stop.0)) [ inl t ↦ rw t refl | inr t ↦ rw t refl ])

  rank_from_lem :
      (score : D) (member : Bytes) (b : List ℕ) (x : ℕ) (c : List ℕ)
      → has_member member x ≡ true
      → All (λ y. has_member member y ≡ false) b
      → GoesAt
          (λ r y. not (node_gt doubles y.score y.member score member))
          zsl.nodes
          false
          (length b + 1)
          c
      → length b + 1 + length c < 2 ^ 64
      → length b + 1 ≤ zsl.len
      → 1 ≤ (zsl.nodes x).height
      → (i y r : ℕ) (s : List ℕ)
      → IsAt
          (λ r y. not (node_gt doubles y.score y.member score member))
          zsl.nodes
          c
          (length b + 1)
          i
          y
          r
          s
      → ((j : ℕ)
          → j < i
          → last_tall (heights zsl.nodes) j y r r s
            ≡ last_tall (heights zsl.nodes) j 0 0 0 (b ++ x ∷ []))
      → 0 < i
      → rank_from doubles zsl score member i y r ≡ length b + 1
  rank_from_lem score member b x c own others g l enough low zero y r s a stops pos =
      absurd (omega arith)
  rank_from_lem score member b x c own others g l enough low (suc i) y r s a stops pos =
      let goes =
        λ (r : ℕ) (y : ZskiplistNode D). not (node_gt doubles y.score y.member score member) in
      let stop = λ (j : ℕ). last_tall (heights zsl.nodes) j 0 0 0 (b ++ x ∷ []) in
      let next =
        next_start goes zsl.nodes c (length b + 1) (2 ^ 64) zsl.len i y r s stop a g l enough
          stops in
      let snoc = last_tall-snoc (heights zsl.nodes) i 0 0 0 b x in
      let seen = rank_step score member i y r (stop i) next.1 in
      elim (Bool-cases (ltb i (zsl.nodes x).height)) [
        | inl t ↦
            let here : stop i ≡ (x, length b + 1) =
              snoc ∙ if_true _ _ t ∙ ap (λ (n : ℕ). (x, n)) (omega arith) in
            seen
            ∙ if_true _ _ (ap (λ (q : ℕ × ℕ). has_member member q.0) here ∙ own)
            ∙ ap (λ (q : ℕ × ℕ). q.1) here
        | inr t ↦
            let here : stop i ≡ last_tall (heights zsl.nodes) i 0 0 0 b = snoc ∙ if_false _ _ t in
            let other =
              last_tall-All (λ p. has_member member p ≡ false) (heights zsl.nodes) i 0 0 0 b refl
                others in
            seen
            ∙ if_false _ _ (ap (λ (q : ℕ × ℕ). has_member member q.0) here ∙ other)
            ∙ rank_from_lem score member b x c own others g l enough low i (stop i).0 (stop i).1
                next.0 next.2 next.3 (omega (arith, ltb→le i (zsl.nodes x).height t))
      ]

module _ {D : Type 0} {doubles : Doubles D} (order : IsOrder doubles) (zsl : Zskiplist D) where
  -- A list of nodes behind the header splits at a node.
  rank_lem :
      (b : List ℕ) (x : ℕ) (c : List ℕ)
      → IsSkiplist zsl ((b ++ x ∷ []) ++ c)
      → Ascending doubles (items zsl.nodes b ++ item zsl.nodes x ∷ items zsl.nodes c)
      → All (λ y. (zsl.nodes y).member ≢ (zsl.nodes x).member) b
      → length (b ++ x ∷ c) < 2 ^ 64
      → zsl_get_rank doubles zsl (zsl.nodes x).score (zsl.nodes x).member ≡ length b + 1
  unfolding zsl_get_rank node_gt
  rank_lem b x c valid asc others small =
      let score = (zsl.nodes x).score in
      let member = (zsl.nodes x).member in
      let test = λ (y : ZskiplistNode D). not (node_gt doubles y.score y.member score member) in
      let self = node_cmp_refl order score member in
      let Test = λ (b : Bool) (y : ℕ). test (zsl.nodes y) ≡ b in
      let goes = λ (r : ℕ) (y : ZskiplistNode D). test y in
      let passes =
        append-All (Test true) b (x ∷ [])
          (All-map _ (Test true) b (λ y e. ap (λ o. not (is_gt o)) e)
            (All-items _ zsl.nodes b (
              Ascending-before doubles (items zsl.nodes b) (item zsl.nodes x) (items zsl.nodes c)
                asc)))
          (ap (λ o. not (is_gt o)) self, tt) in
      let fails =
        All-map _ (Test false) c
          (λ y e.
            ap (λ o. not (is_gt o))
              (node_cmp-flip order score member (zsl.nodes y).score (zsl.nodes y).member
                ∙ ap flip e))
          (All-items _ zsl.nodes c
            (Ascending-after doubles (items zsl.nodes b) (item zsl.nodes x ∷ items zsl.nodes c)
              asc).0) in
      let size : length (b ++ x ∷ []) ≡ length b + 1 = length-append b (x ∷ []) ∙ omega arith in
      let total : zsl.len ≡ length b + 1 + length c =
        valid.len ∙ length-append (b ++ x ∷ []) c ∙ ap (λ n. n + length c) size in
      let tall = (All-append _ (b ++ x ∷ []) c valid.heights).0 in
      let own = (All-append _ b (x ∷ []) tall).1.0.0 in
      let nonzero = (All-append _ (b ++ x ∷ []) c valid.distinct.0).0 in
      rank_from_lem doubles zsl score member b x c
        (has_own doubles zsl x (All-append _ b (x ∷ []) nonzero).1.0)
        (All-map _ _ b (has_other doubles zsl member) others)
        (All-GoesAt test zsl.nodes false (length b + 1) c fails)
        (omega (arith, length-append b (x ∷ c))) (omega arith) own zsl.level 0 0 (b ++ x ∷ [])
        (subst (λ n. IsAt goes zsl.nodes c n zsl.level 0 0 (b ++ x ∷ [])) size
          (start goes (b ++ x ∷ []) c valid
            (All-GoesAt test zsl.nodes true 0 (b ++ x ∷ []) passes)))
        (λ j lt. refl) (omega (arith, valid.levels))

  rank_at :
      {xs : List ℕ} {p : List (Bytes × D)} {score : D} {member : Bytes} {q : List (Bytes × D)}
      → IsSkiplist zsl xs
      → Spot zsl.nodes xs p (member, score) q
      → Ascending doubles (p ++ (member, score) ∷ q)
      → All (λ a. a.0 ≢ member) p
      → length (p ++ (member, score) ∷ q) < 2 ^ 64
      → zsl_get_rank doubles zsl score member ≡ length p + 1
  rank_at {xs} {p} {score} {member} {q} valid s asc others small =
      let x = s.node in
      let whole : items zsl.nodes s.before ++ item zsl.nodes x ∷ items zsl.nodes s.after
          ≡ p ++ (member, score) ∷ q =
        λ i. s.first i ++ s.own i ∷ s.rest i in
      let placed =
        subst (IsSkiplist zsl) (s.whole ∙ sym (append_assoc s.before (x ∷ []) s.after)) valid in
      let size = ap length whole in
      let apart =
        All-map _ (λ y. (zsl.nodes y).member ≢ (zsl.nodes x).member) s.before
          (λ y n e. n (e ∙ ap (λ (a : Bytes × D). a.0) s.own))
          (All-items (λ a. a.0 ≢ member) zsl.nodes s.before
            (subst (All (λ a. a.0 ≢ member)) (sym s.first) others)) in
      let found =
        rank_lem s.before x s.after placed (subst (Ascending doubles) (sym whole) asc) apart (
          omega (
            arith,
            size,
            length-append (items zsl.nodes s.before) (item zsl.nodes x ∷ items zsl.nodes s.after),
            length-append s.before (x ∷ s.after),
            length-items zsl.nodes s.before,
            length-items zsl.nodes s.after,
          )) in
      ap (λ (a : Bytes × D). zsl_get_rank doubles zsl a.1 a.0) (sym s.own)
      ∙ found
      ∙ omega (arith, length-items zsl.nodes s.before, ap length s.first)

  -- `zsl_get_rank` finds the place of each member of a skip list that holds ascending items, counted
  -- from 1, if no item before it has the same member and there are fewer than 2^64 of them.
  pub zsl_get_rank_lem :
      (p : List (Bytes × D)) (score : D) (member : Bytes) (q : List (Bytes × D))
      → Holds zsl (p ++ (member, score) ∷ q)
      → Ascending doubles (p ++ (member, score) ∷ q)
      → All (λ a. a.0 ≢ member) p
      → length (p ++ (member, score) ∷ q) < 2 ^ 64
      → zsl_get_rank doubles zsl score member ≡ length p + 1
  zsl_get_rank_lem p score member q h asc others small =
      rank_at h.valid (find-Spot zsl.nodes h.places p (member, score) q h.shows) asc others small
