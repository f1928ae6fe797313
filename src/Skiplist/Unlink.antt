-- ===== src/Skiplist/Unlink.antt =====
-- skiplist.c: the lanes after `zsl_delete` has taken a node out.
use credish.Prelude.{
  ℕ, zero, suc, ◌+◌, ◌≤◌, ◌<◌, ◌≡◌, ◌≢◌, refl, sym, ◌∙◌, ap, Bool, true, false, not, ◌&&◌, none,
  some, List, [], ◌∷◌, ◌++◌, arith, if◌then◌else◌, ltb, ◌==◌, ==_iff, length, length-append,
  is_some, Bool-cases, inl, inr, if_true, if_false, ltb→le, lt→ltb, le→ltb,
}
use credish.Skiplist.{leads, Ptr, Lane, Nodes, Zskiplist, sub32, unlink, trim_level}
use credish.Skiplist.Lanes.{Lanes, heights, skip}
use credish.Skiplist.Valid.{All, All-map, All-append, Distinct, IsSkiplist}
use credish.Skiplist.Splice.{stop_lane, skip_tall, skip_low}
use credish.Skiplist.Cut.{Unlinked, unlinked-Lanes}
use credish.Skiplist.Heights.{skip-le}
use credish.Skiplist.Backward.{Distinct-append}
use credish.Skiplist.Store.{unlink-level, unlinked_lane}
use credish.Skiplist.Raise.{sub32_lem, stop_at}
use credish.Skiplist.Stops.{last_tall-le, last_tall-All}

-- The level that is left: the levels above it are empty, and it is not, unless it is the first.
pub trim_level_lem :
    {D : Type 0} (nodes : Nodes D) (level : ℕ)
    → (trim_level nodes level ≤ level)
      × (1 ≤ level → 1 ≤ trim_level nodes level)
      × ((i : ℕ) → trim_level nodes level ≤ i → i < level → ((nodes 0).level i).forward ≡ none)
unfolding trim_level
trim_level_lem nodes zero = (omega arith, λ h. h, λ i h l. absurd (omega arith))
trim_level_lem nodes (suc level) =
    let rest = trim_level_lem nodes level in
    elim (Bool-cases (ltb 1 (suc level) && not (is_some ((nodes 0).level level).forward))) [
      | inl t ↦
          let parts = cut_test level ((nodes 0).level level).forward t in
          rw t (
            omega (arith, rest.0),
            λ h. rest.1 (omega (arith, parts.0)),
            λ i le lt. elim (Bool-cases (i == level)) [
              | inl e ↦ rw ((==_iff i level).0 e) parts.1
              | inr n ↦ rest.2 i le (ground arith)
            ],
          )
      | inr f ↦ rw f (omega arith, λ h. h, λ i h l. absurd (omega arith))
    ]
  where
    cut_test : (l : ℕ) (p : Ptr) → (ltb 1 (suc l) && not (is_some p)) ≡ true → (1 ≤ l) × (p ≡ none)
    cut_test l none h = (ground arith, refl)
    cut_test l (some q) h = absurd (ground arith)

-- The next node in a level is one of the list.
skip-leads :
    (height : ℕ → ℕ) (i x : ℕ) (c : List ℕ)
    → All (λ z. x ≢ z) c
    → leads (skip height i c).0 x ≡ false
unfolding skip
skip-leads height i x [] all = refl
skip-leads height i x (z ∷ c) all = elim (Bool-cases (ltb i (height z))) [
  | inl t ↦ rw (t, skip) (ground (arith, all.0))
  | inr t ↦ rw (t, skip) (skip-leads height i x c all.1)
]

-- No node is in a level that has no next node.
pub skip_empty :
    (height : ℕ → ℕ) (i : ℕ) (c : List ℕ) → (skip height i c).0 ≡ none → All (λ y. height y ≤ i) c
unfolding skip
skip_empty height i [] e = tt
skip_empty height i (z ∷ c) e = elim (Bool-cases (ltb i (height z))) [
  | inl t ↦ cc (rw t at e)
  | inr t ↦ (ltb→le _ _ t, skip_empty height i c (rw t at e))
]

pub Lanes-after :
    (height : ℕ → ℕ) (i : ℕ) (lane : ℕ → Lane) (b c : List ℕ)
    → Lanes height lane i (b ++ c)
    → Lanes height lane i c
Lanes-after height i lane [] c lanes = lanes
Lanes-after height i lane (x ∷ b) c lanes = Lanes-after height i lane b c lanes.1

and_false : (s t : Bool) → t ≡ false → (s && t) ≡ false
and_false true t h = h
and_false false t h = refl

both : (s t : Bool) → s ≡ true → t ≡ true → (s && t) ≡ true
both s t h k = ground arith

module _ {D : Type 0} {zsl : Zskiplist D} (b : List ℕ) (x : ℕ) (c : List ℕ)
    (valid : IsSkiplist zsl (b ++ x ∷ c)) (small : length (b ++ x ∷ c) < 4294967296) where
  abbrev pub stop : ℕ → ℕ × ℕ
  stop = stop_at zsl.nodes b

  abbrev pub cut : Nodes D
  cut = unlink zsl.level x stop zsl.nodes

  pub nonzero : 0 ≢ x
  nonzero = (All-append _ b (x ∷ c) valid.distinct.0).1.0

  pub apart : Distinct b × Distinct (x ∷ c) × All (λ y. All (λ z. y ≢ z) (x ∷ c)) b
  apart = Distinct-append b (x ∷ c) valid.distinct.1

  pub stop-ne : (j : ℕ) → (stop j).0 ≢ x
  stop-ne j =
      last_tall-All (λ y. y ≢ x) (heights zsl.nodes) j 0 0 0 b nonzero
        (All-map _ _ b (λ y h. h.0) apart.2)

  stop_apart : (i : ℕ) → All (λ p. p ≢ (stop i).0) c
  stop_apart i =
      let flip = λ (q : ℕ) (h : All (λ z. q ≢ z) c).
        All-map (λ z. q ≢ z) (λ p. p ≢ q) c (λ z n e. n (sym e)) h in
      last_tall-All (λ q. All (λ p. p ≢ q) c) (heights zsl.nodes) i 0 0 0 b
        (flip 0 (All-append _ b (x ∷ c) valid.distinct.0).1.1)
        (All-map (λ y. All (λ z. y ≢ z) (x ∷ c)) _ b (λ q h. flip q h.1) apart.2)

  -- What is ahead of the stop in a level.
  ahead_of :
      (i : ℕ)
      → i < zsl.level
      → (((zsl.nodes (stop i).0).level i).forward ≡ (skip (heights zsl.nodes) i (x ∷ c)).0)
        × ((stop i).1 + ((zsl.nodes (stop i).0).level i).span
            ≡ length b + (skip (heights zsl.nodes) i (x ∷ c)).1)
  ahead_of i lt =
      let lanes = valid.lanes i lt in
      let own = lanes.0 (omega (arith, valid.header, valid.levels)) in
      let found =
        stop_lane (heights zsl.nodes) i (λ p. (zsl.nodes p).level i) (x ∷ c) 0 0 0 b own.0
          (ap (λ n. 0 + n) own.1) lanes.1 in
      (found.0, found.1 ∙ omega arith)

  cut-Unlinked :
      (i : ℕ)
      → i < zsl.level
      → Unlinked
          (heights zsl.nodes)
          i
          (λ p. (zsl.nodes p).level i)
          (λ p. (cut p).level i)
          x
          c
          (stop i)
  cut-Unlinked i lt = record {
    others = λ p n. cut_lane_eq p ∙ if_false _ _ (and_false (ltb i zsl.level) _ (ground arith));
    tall = tall_lanes;
    low = low_lanes;
    own = λ t.
        (Lanes-after (heights zsl.nodes) i (λ p. (zsl.nodes p).level i) b (x ∷ c)
            (valid.lanes i lt).1).0
          t;
  }
    where
      cut_lane_eq :
          (p : ℕ)
          → (cut p).level i ≡ (
              if ltb i zsl.level && (stop i).0 == p
              then unlinked_lane x stop zsl.nodes stop-ne i
              else (zsl.nodes p).level i)
      cut_lane_eq p = unlink-level x stop zsl.nodes stop-ne zsl.level p i

      at_stop : (cut (stop i).0).level i ≡ unlinked_lane x stop zsl.nodes stop-ne i
      at_stop =
          cut_lane_eq (stop i).0
          ∙ if_true _ _ (both (ltb i zsl.level) _ (lt→ltb i zsl.level lt) (ground arith))

      sizes : length (b ++ x ∷ c) ≡ length b + suc (length c)
      sizes = length-append b (x ∷ c)

      short : (stop i).1 ≤ length b
      short = omega (arith, last_tall-le (heights zsl.nodes) i 0 0 0 b (omega arith))

      ahead :
          (((zsl.nodes (stop i).0).level i).forward ≡ (skip (heights zsl.nodes) i (x ∷ c)).0)
          × ((stop i).1 + ((zsl.nodes (stop i).0).level i).span
              ≡ length b + (skip (heights zsl.nodes) i (x ∷ c)).1)
      ahead = ahead_of i lt

      bounded : (skip (heights zsl.nodes) i c).1 ≤ length c
      bounded = skip-le (heights zsl.nodes) i c

      tall_lanes :
          i < (zsl.nodes x).height
          → (((cut (stop i).0).level i).forward ≡ ((zsl.nodes x).level i).forward)
            × (((cut (stop i).0).level i).span + 1
                ≡ ((zsl.nodes (stop i).0).level i).span + ((zsl.nodes x).level i).span)
      tall_lanes t =
          let next = skip_tall (heights zsl.nodes) i x c t in
          let to_x = ahead.0 ∙ ap (λ (q : Ptr × ℕ). q.0) next in
          let step = ap (λ (q : Ptr × ℕ). q.1) next in
          let own =
            (Lanes-after (heights zsl.nodes) i (λ p. (zsl.nodes p).level i) b (x ∷ c)
                (valid.lanes i lt).1).0
              t in
          let now =
            at_stop
            ∙ if_true {b = leads ((zsl.nodes (stop i).0).level i).forward x} _ _
                (ap (λ q. leads q x) to_x ∙ ground arith) in
          (
            ap (λ (q : Lane). q.forward) now,
            unfold sub32 in
                omega (
                  arith,
                  ap (λ (q : Lane). q.span) now,
                  own.1,
                  step,
                  ahead.1,
                  short,
                  bounded,
                  sizes,
                ),
          )

      low_lanes :
          (zsl.nodes x).height ≤ i
          → (((cut (stop i).0).level i).forward ≡ ((zsl.nodes (stop i).0).level i).forward)
            × (((cut (stop i).0).level i).span + 1 ≡ ((zsl.nodes (stop i).0).level i).span)
      low_lanes t =
          let next = skip_low (heights zsl.nodes) i x c t in
          let past_x = ahead.0 ∙ ap (λ (q : Ptr × ℕ). q.0) next in
          let step = ap (λ (q : Ptr × ℕ). q.1) next in
          let now =
            at_stop
            ∙ if_false {b = leads ((zsl.nodes (stop i).0).level i).forward x} _ _
                (ap (λ q. leads q x) past_x ∙ skip-leads (heights zsl.nodes) i x c (apart.1.0)) in
          let less =
            sub32_lem ((zsl.nodes (stop i).0).level i).span 1 (omega (arith, step, ahead.1, short))
              (omega (arith, step, ahead.1, short, bounded, sizes)) in
          (
            ap (λ (q : Lane). q.forward) now,
            omega (arith, ap (λ (q : Lane). q.span) now, less, step, ahead.1, short),
          )

  -- The lanes of every level are those of the list without the node.
  pub cut-Lanes :
      (i : ℕ) → i < zsl.level → Lanes (heights zsl.nodes) (λ p. (cut p).level i) i (0 ∷ (b ++ c))
  cut-Lanes i lt =
      unlinked-Lanes (heights zsl.nodes) i (λ p. (zsl.nodes p).level i) (λ p. (cut p).level i) x c
        (stop i) (cut-Unlinked i lt) (stop_apart i) 0 0 0 0 b valid.distinct (valid.lanes i lt) refl
        (λ t. (refl, refl))

  -- The lanes of the node itself, and those above the list, stay.
  pub cut_own : (i : ℕ) → (cut x).level i ≡ (zsl.nodes x).level i
  cut_own i =
      unlink-level x stop zsl.nodes stop-ne zsl.level x i
      ∙ if_false _ _ (and_false (ltb i zsl.level) _ (ground (arith, stop-ne i)))

  pub cut_above : (p i : ℕ) → zsl.level ≤ i → (cut p).level i ≡ (zsl.nodes p).level i
  cut_above p i le =
      unlink-level x stop zsl.nodes stop-ne zsl.level p i
      ∙ if_false {b = ltb i zsl.level && (stop i).0 == p} _ _ (rw (le→ltb i zsl.level le) refl)
