-- ===== src/Skiplist/Cut.antt =====
-- skiplist.c: what the loop of `zsl_delete` has to write into the lanes of one level.
use credish.Prelude.{
  ℕ, ◌+◌, ◌≤◌, ◌<◌, ◌≡◌, ◌≢◌, sym, ◌∙◌, ap, subst, List, [], ◌∷◌, ◌++◌, arith, if◌then◌else◌, ltb,
  Bool-cases, inl, inr, ltb→lt, lt→ltb, ltb→le, refl,
}
use credish.Skiplist.{Ptr, Lane}
use credish.Skiplist.Lanes.{skip, last_tall, Lanes}
use credish.Skiplist.Valid.{All, All-append, Distinct}
use credish.Skiplist.Splice.{
  any_tall, skip_tall, skip_low, skip-append, skip-append_low, last_tall_low, last_tall-Mem,
  Lanes-same,
}

module _ (height : ℕ → ℕ) (i : ℕ) (lane lane' : ℕ → Lane) (x : ℕ) (c : List ℕ) (stop : ℕ × ℕ) where
  -- What taking out `x` after the stop has to leave in the lanes.
  pub record Unlinked : Type 0 where
    pub others : (p : ℕ) → p ≢ stop.0 → lane' p ≡ lane p
    pub tall :
        i < height x
        → ((lane' stop.0).forward ≡ (lane x).forward)
          × ((lane' stop.0).span + 1 ≡ (lane stop.0).span + (lane x).span)
    pub low :
        height x ≤ i
        → ((lane' stop.0).forward ≡ (lane stop.0).forward)
          × ((lane' stop.0).span + 1 ≡ (lane stop.0).span)
    pub own :
        i < height x
        → ((lane x).forward ≡ (skip height i c).0) × ((lane x).span ≡ (skip height i c).1)

  cut_lane :
      Unlinked
      → (n k p r : ℕ) (ys : List ℕ) → All (λ q. n ≢ q) ys
      → ((lane n).forward ≡ (skip height i (ys ++ x ∷ c)).0)
        × ((lane n).span ≡ (skip height i (ys ++ x ∷ c)).1)
      → last_tall height i p r k ys ≡ stop
      → (p ≡ n) × (r ≡ k)
      → ((lane' n).forward ≡ (skip height i (ys ++ c)).0)
        × ((lane' n).span ≡ (skip height i (ys ++ c)).1)
  cut_lane l n k p r ys distinct own e at = elim (Bool-cases (any_tall height i ys)) [
    | inl t ↦
        let apart : n ≢ stop.0 =
          subst (λ (q : ℕ × ℕ). n ≢ q.0) e
            (last_tall-Mem height i (λ q. n ≢ q) p r k ys t distinct) in
        let same = skip-append height i ys (x ∷ c) t ∙ sym (skip-append height i ys c t) in
        rw (l.others n apart)
          (own.0 ∙ ap (λ (q : Ptr × ℕ). q.0) same, own.1 ∙ ap (λ (q : Ptr × ℕ). q.1) same)
    | inr t ↦
        let here : n ≡ stop.0 =
          sym at.0 ∙ ap (λ (q : ℕ × ℕ). q.0) (sym (last_tall_low height i p r k ys t) ∙ e) in
        let node : lane n ≡ lane stop.0 = ap lane here in
        let node' : lane' n ≡ lane' stop.0 = ap lane' here in
        let old = skip-append_low height i ys (x ∷ c) t in
        let new = skip-append_low height i ys c t in
        let span = ap (λ (q : Lane). q.span) node in
        let span' = ap (λ (q : Lane). q.span) node' in
        let forward' = ap (λ (q : Lane). q.forward) node' in
        elim (Bool-cases (ltb i (height x))) [
          | inl above ↦
              let now = l.tall (ltb→lt _ _ above) in
              let beyond = l.own (ltb→lt _ _ above) in
              let step = ap (λ (q : Ptr × ℕ). q.1) (skip_tall height i x c (ltb→lt _ _ above)) in
              (
                forward' ∙ now.0 ∙ beyond.0 ∙ sym new.0,
                omega (arith, span, span', now.1, beyond.1, step, old.1, new.1, own.1),
              )
          | inr below ↦
              let now = l.low (ltb→le _ _ below) in
              let next = skip_low height i x c (ltb→le _ _ below) in
              let step = ap (λ (q : Ptr × ℕ). q.1) next in
              (
                forward'
                    ∙ now.0
                    ∙ ap (λ (q : Lane). q.forward) (sym node)
                    ∙ own.0
                    ∙ old.0
                    ∙ ap (λ (q : Ptr × ℕ). q.0) next
                    ∙ sym new.0,
                omega (arith, span, span', now.1, step, old.1, new.1, own.1),
              )
        ]
  ]

  cut_tail : Unlinked → (c' : List ℕ) → All (λ p. p ≢ stop.0) c' → All (λ p. lane' p ≡ lane p) c'
  cut_tail l [] apart = tt
  cut_tail l (p ∷ c') apart = (l.others p apart.0, cut_tail l c' apart.1)

  -- The lanes of the level are those of the list without `x`.
  pub unlinked-Lanes :
      Unlinked
      → All (λ p. p ≢ stop.0) c
      → (n k p r : ℕ) (ys : List ℕ) → Distinct (n ∷ (ys ++ x ∷ c))
      → Lanes height lane i (n ∷ (ys ++ x ∷ c))
      → last_tall height i p r k ys ≡ stop
      → (i < height n → (p ≡ n) × (r ≡ k))
      → Lanes height lane' i (n ∷ (ys ++ c))
  unfolding last_tall
  unlinked-Lanes l apart n k p r [] distinct lanes e at = (
    λ t. cut_lane l n k p r [] tt (lanes.0 t) e (at t),
    Lanes-same height i lane lane' c (cut_tail l c apart) lanes.1.1,
  )
  unlinked-Lanes l apart n k p r (y ∷ ys) distinct lanes e at = (
    λ t.
        cut_lane l n k p r (y ∷ ys) (All-append (λ q. n ≢ q) (y ∷ ys) (x ∷ c) distinct.0).0
          (lanes.0 t) e (at t),
    unlinked-Lanes l apart y (k + 1) (if ltb i (height y) then y else p)
        (if ltb i (height y) then k + 1 else r) ys distinct.1 lanes.1 e
        (λ t. rw (lt→ltb _ _ t) (refl, refl)),
  )
