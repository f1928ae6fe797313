-- ===== src/Skiplist/Element.antt =====
-- skiplist.c: `zsl_get_element_by_rank`, against the order of the nodes.
use credish.Prelude.{
  ℕ, zero, suc, ◌+◌, ◌^◌, ◌≤◌, ◌<◌, ◌≡◌, refl, sym, ◌∙◌, ap, subst, true, false, append_assoc, some,
  List, [], ◌∷◌, ◌++◌, arith, if◌then◌else◌, ltb, leb, ◌==◌, length, length-append, Bool-cases, inl,
  inr, if_true, if_false, ltb→le,
}
use credish.Sds.{Bytes}
use credish.Skiplist.{ZskiplistNode, Zskiplist, walk, element_from, zsl_get_element_by_rank}
use credish.Skiplist.Lanes.{GoesAt, IsAt, heights, last_tall, next_start}
use credish.Skiplist.Order.{Holds, find-Spot, length-items}
use credish.Skiplist.Valid.{All-append, item, IsSkiplist}
use credish.Skiplist.Stops.{last_tall-le, last_tall-snoc, start}

module _ {D : Type 0} (zsl : Zskiplist D) where
  element_step :
      (rank i y r : ℕ) (stop : ℕ × ℕ)
      → walk (λ r y. leb r rank) (2 ^ 64) zsl.nodes i zsl.len y r ≡ stop
      → element_from zsl rank (suc i) y r
        ≡ (if stop.1 == rank then some stop.0 else element_from zsl rank i stop.0 stop.1)
  unfolding element_from
  element_step rank i y r stop e =
      subst
        (λ (w : ℕ × ℕ).
          (elim (w.1 == rank) [ true ↦ some w.0 | false ↦ element_from zsl rank i w.0 w.1 ])
          ≡ (if stop.1 == rank then some stop.0 else element_from zsl rank i stop.0 stop.1))
        (sym e) (elim (Bool-cases (stop.1 == rank)) [ inl t ↦ rw t refl | inr t ↦ rw t refl ])

  -- The node of a rank is in the loop over the levels found as the stop of this rank.
  element_from_lem :
      (b : List ℕ) (x : ℕ) (c : List ℕ)
      → GoesAt (λ r y. leb r (length b + 1)) zsl.nodes false (length b + 1) c
      → length b + 1 + length c < 2 ^ 64
      → length b + 1 ≤ zsl.len
      → 1 ≤ (zsl.nodes x).height
      → (i y r : ℕ) (s : List ℕ)
      → IsAt (λ r y. leb r (length b + 1)) zsl.nodes c (length b + 1) i y r s
      → ((j : ℕ)
          → j < i
          → last_tall (heights zsl.nodes) j y r r s
            ≡ last_tall (heights zsl.nodes) j 0 0 0 (b ++ x ∷ []))
      → 0 < i
      → element_from zsl (length b + 1) i y r ≡ some x
  element_from_lem b x c g l enough low zero y r s a stops pos = absurd (omega arith)
  element_from_lem b x c g l enough low (suc i) y r s a stops pos =
      let goes = λ (r : ℕ) (y : ZskiplistNode D). leb r (length b + 1) in
      let stop = λ (j : ℕ). last_tall (heights zsl.nodes) j 0 0 0 (b ++ x ∷ []) in
      let next =
        next_start goes zsl.nodes c (length b + 1) (2 ^ 64) zsl.len i y r s stop a g l enough
          stops in
      let snoc = last_tall-snoc (heights zsl.nodes) i 0 0 0 b x in
      let seen = element_step (length b + 1) i y r (stop i) next.1 in
      elim (Bool-cases (ltb i (zsl.nodes x).height)) [
        | inl t ↦
            let here : stop i ≡ (x, length b + 1) =
              snoc ∙ if_true _ _ t ∙ ap (λ (n : ℕ). (x, n)) (omega arith) in
            seen
            ∙ if_true _ _ (ap (λ (q : ℕ × ℕ). q.1 == length b + 1) here ∙ ground arith)
            ∙ ap (λ (q : ℕ × ℕ). some q.0) here
        | inr t ↦
            let here : stop i ≡ last_tall (heights zsl.nodes) i 0 0 0 b = snoc ∙ if_false _ _ t in
            let short = last_tall-le (heights zsl.nodes) i 0 0 0 b (omega arith) in
            seen
            ∙ if_false _ _ (ap (λ (q : ℕ × ℕ). q.1 == length b + 1) here ∙ ground arith)
            ∙ element_from_lem b x c g l enough low i (stop i).0 (stop i).1 next.0 next.2 next.3
                (omega (arith, ltb→le i (zsl.nodes x).height t))
      ]

  passes_below :
      (rank k : ℕ) (xs : List ℕ)
      → k + length xs ≤ rank
      → GoesAt (λ r y. leb r rank) zsl.nodes true k xs
  passes_below rank k [] h = tt
  passes_below rank k (x ∷ xs) h = (ground arith, passes_below rank (k + 1) xs (omega arith))

  fails_above :
      (rank k : ℕ) (xs : List ℕ) → rank ≤ k → GoesAt (λ r y. leb r rank) zsl.nodes false k xs
  fails_above rank k [] h = tt
  fails_above rank k (x ∷ xs) h = (ground arith, fails_above rank (k + 1) xs (omega arith))

  element_lem :
      (b : List ℕ) (x : ℕ) (c : List ℕ)
      → IsSkiplist zsl ((b ++ x ∷ []) ++ c)
      → length (b ++ x ∷ c) < 2 ^ 64
      → zsl_get_element_by_rank zsl (length b + 1) ≡ some x
  unfolding zsl_get_element_by_rank
  element_lem b x c valid small =
      let goes = λ (r : ℕ) (y : ZskiplistNode D). leb r (length b + 1) in
      let size : length (b ++ x ∷ []) ≡ length b + 1 = length-append b (x ∷ []) ∙ omega arith in
      let total : zsl.len ≡ length b + 1 + length c =
        valid.len ∙ length-append (b ++ x ∷ []) c ∙ ap (λ n. n + length c) size in
      let tall = (All-append _ (b ++ x ∷ []) c valid.heights).0 in
      element_from_lem b x c (fails_above (length b + 1) (length b + 1) c (omega arith))
        (omega (arith, length-append b (x ∷ c))) (omega arith) (All-append _ b (x ∷ []) tall).1.0.0
        zsl.level 0 0 (b ++ x ∷ [])
        (subst (λ n. IsAt goes zsl.nodes c n zsl.level 0 0 (b ++ x ∷ [])) size
          (start goes (b ++ x ∷ []) c valid
            (passes_below (length b + 1) 0 (b ++ x ∷ []) (omega arith))))
        (λ j lt. refl) (omega (arith, valid.levels))

  pub element_at :
      (b : List ℕ) (x : ℕ) (c : List ℕ)
      → IsSkiplist zsl (b ++ x ∷ c)
      → length (b ++ x ∷ c) < 2 ^ 64
      → zsl_get_element_by_rank zsl (length b + 1) ≡ some x
  element_at b x c valid small =
      element_lem b x c (subst (IsSkiplist zsl) (sym (append_assoc b (x ∷ []) c)) valid) small

  -- `zsl_get_element_by_rank` finds a node with the item at each place of a skip list of fewer than
  -- 2^64 items, counted from 1.
  pub zsl_get_element_by_rank_lem :
      (p : List (Bytes × D)) (a : Bytes × D) (q : List (Bytes × D))
      → Holds zsl (p ++ a ∷ q)
      → length (p ++ a ∷ q) < 2 ^ 64
      → (x : ℕ) × (zsl_get_element_by_rank zsl (length p + 1) ≡ some x) × (item zsl.nodes x ≡ a)
  zsl_get_element_by_rank_lem p a q h small =
      let s = find-Spot zsl.nodes h.places p a q h.shows in
      let size : length s.before ≡ length p =
        sym (length-items zsl.nodes s.before) ∙ ap length s.first in
      (
        s.node,
        ap (λ n. zsl_get_element_by_rank zsl (n + 1)) (sym size)
            ∙ element_at s.before s.node s.after (subst (IsSkiplist zsl) s.whole h.valid) (
                omega
                  (arith, ap length h.shows, length-items zsl.nodes h.places, ap length s.whole)),
        s.own,
      )
