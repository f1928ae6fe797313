-- ===== src/Skiplist/Splice.antt =====
-- skiplist.c: what the loops that link a node in or take it out have to write into the lanes of one
-- level.
use mathlib.Core.Path.{ap₂}
use credish.Prelude.{
  ℕ, ◌+◌, ◌≤◌, ◌<◌, ◌≡◌, ◌≢◌, refl, sym, ◌∙◌, ap, subst, Bool, true, false, some, List, [], ◌∷◌,
  ◌++◌, arith, if◌then◌else◌, ltb, length, Bool-cases, inl, inr, ltb→lt, lt→ltb, le→ltb, ltb→le,
}
use credish.Skiplist.{Ptr, Lane}
use credish.Skiplist.Lanes.{skip, last_tall, Lanes}
use credish.Skiplist.Valid.{All, All-append, Distinct}

-- Whether a list has a node with more than `i` levels.
unfoldable pub any_tall : (ℕ → ℕ) → ℕ → List ℕ → Bool
any_tall height i [] = false
any_tall height i (y ∷ ys) = if ltb i (height y) then true else any_tall height i ys

module _ (height : ℕ → ℕ) (i : ℕ) where
  pub skip_tall : (x : ℕ) (c : List ℕ) → i < height x → skip height i (x ∷ c) ≡ (some x, 1)
  unfolding skip
  skip_tall x c t = rw (lt→ltb _ _ t) refl

  pub skip_low :
      (x : ℕ) (c : List ℕ)
      → height x ≤ i
      → skip height i (x ∷ c) ≡ ((skip height i c).0, (skip height i c).1 + 1)
  unfolding skip
  skip_low x c t = rw (le→ltb _ _ t) refl

  pub skip-append :
      (ys zs : List ℕ) → any_tall height i ys ≡ true → skip height i (ys ++ zs) ≡ skip height i ys
  unfolding skip any_tall
  skip-append [] zs h = cc
  skip-append (y ∷ ys) zs h = elim (Bool-cases (ltb i (height y))) [
    | inl t ↦ rw (t, skip) refl
    | inr t ↦ rw (t, skip) (ap (λ (q : Ptr × ℕ). (q.0, q.1 + 1)) (skip-append ys zs (rw t at h)))
  ]

  pub skip-append_low :
      (ys zs : List ℕ)
      → any_tall height i ys ≡ false
      → ((skip height i (ys ++ zs)).0 ≡ (skip height i zs).0)
        × ((skip height i (ys ++ zs)).1 ≡ length ys + (skip height i zs).1)
  unfolding skip any_tall
  skip-append_low [] zs h = (refl, omega arith)
  skip-append_low (y ∷ ys) zs h = elim (Bool-cases (ltb i (height y))) [
    | inl t ↦ cc (rw t at h)
    | inr t ↦
        let rest = skip-append_low ys zs (rw t at h) in
        rw (t, skip) (rest.0, ap (λ n. n + 1) rest.1 ∙ omega arith)
  ]

  pub last_tall_low :
      (x r k : ℕ) (ys : List ℕ)
      → any_tall height i ys ≡ false
      → last_tall height i x r k ys ≡ (x, r)
  unfolding last_tall any_tall
  last_tall_low x r k [] h = refl
  last_tall_low x r k (y ∷ ys) h = elim (Bool-cases (ltb i (height y))) [
    | inl t ↦ cc (rw t at h)
    | inr t ↦ rw (t, last_tall) (last_tall_low x r (k + 1) ys (rw t at h))
  ]

  -- The last such node is in the list, if it has one.
  pub last_tall-Mem :
      (P : ℕ → Type 0) (x r k : ℕ) (ys : List ℕ)
      → any_tall height i ys ≡ true
      → All P ys
      → P (last_tall height i x r k ys).0
  unfolding last_tall any_tall
  last_tall-Mem P x r k [] h all = cc
  last_tall-Mem P x r k (y ∷ ys) h all = elim (Bool-cases (any_tall height i ys)) [
    | inl t ↦
        last_tall-Mem P (if ltb i (height y) then y else x) (if ltb i (height y) then k + 1 else r)
          (k + 1) ys t all.1
    | inr t ↦ elim (Bool-cases (ltb i (height y))) [
      | inl here ↦ rw (here, last_tall) (rw (last_tall_low y (k + 1) (k + 1) ys t) all.0)
      | inr low ↦ cc (rw low at h)
    ]
  ]

  pub Lanes-same :
      (lane lane' : ℕ → Lane) (xs : List ℕ)
      → All (λ p. lane' p ≡ lane p) xs
      → Lanes height lane i xs
      → Lanes height lane' i xs
  Lanes-same lane lane' [] same lanes = tt
  Lanes-same lane lane' (n ∷ ns) same lanes =
      (rw same.0 lanes.0, Lanes-same lane lane' ns same.1 lanes.1)

  -- The stop of a search leads past the rest of the list `b`, of which the first `k` have been seen.
  pub stop_lane :
      (lane : ℕ → Lane) (c : List ℕ) (x r k : ℕ) (b : List ℕ)
      → ((lane x).forward ≡ (skip height i (b ++ c)).0)
      → (r + (lane x).span ≡ k + (skip height i (b ++ c)).1)
      → Lanes height lane i (b ++ c)
      → ((lane (last_tall height i x r k b).0).forward ≡ (skip height i c).0)
        × ((last_tall height i x r k b).1 + (lane (last_tall height i x r k b).0).span
            ≡ k + length b + (skip height i c).1)
  unfolding skip last_tall
  stop_lane lane c x r k [] f s lanes = (f, omega arith)
  stop_lane lane c x r k (y ∷ b) f s lanes = elim (Bool-cases (ltb i (height y))) [
    | inl t ↦
        let own = lanes.0 (ltb→lt _ _ t) in
        let rest = stop_lane lane c y (k + 1) (k + 1) b own.0 (ap (λ n. k + 1 + n) own.1) lanes.1 in
        rw (t, last_tall) (rest.0, rest.1 ∙ omega arith)
    | inr t ↦
        let rest = stop_lane lane c x r (k + 1) b (rw t at f) (rw t at s ∙ omega arith) lanes.1 in
        rw (t, last_tall) (rest.0, rest.1 ∙ omega arith)
  ]

  module _ (lane lane' : ℕ → Lane) (x : ℕ) (c : List ℕ) (stop : ℕ × ℕ) (total : ℕ) where
    -- What linking in `x` after the stop has to leave in the lanes.
    pub record Linked : Type 0 where
      pub others : (p : ℕ) → p ≢ stop.0 → p ≢ x → lane' p ≡ lane p
      pub place : stop.1 ≤ total
      pub ahead : (lane stop.0).forward ≡ (skip height i c).0
      pub distance : stop.1 + (lane stop.0).span ≡ total + (skip height i c).1
      pub tall :
          i < height x
          → ((lane' stop.0).forward ≡ some x)
            × (stop.1 + (lane' stop.0).span ≡ total + 1)
            × ((lane' x).forward ≡ (lane stop.0).forward)
            × ((lane' x).span + total ≡ (lane stop.0).span + stop.1)
      pub low :
          height x ≤ i
          → ((lane' stop.0).forward ≡ (lane stop.0).forward)
            × ((lane' stop.0).span ≡ (lane stop.0).span + 1)

    tail-Lanes :
        Linked
        → All (λ p. p ≢ stop.0) c
        → All (λ p. p ≢ x) c
        → Lanes height lane i c
        → Lanes height lane' i (x ∷ c)
    tail-Lanes l apart fresh lanes = (
      λ t. ((l.tall t).2 ∙ l.ahead, omega (arith, l.tall t, l.distance)),
      Lanes-same lane lane' c (keep c apart fresh) lanes,
    )
      where
        keep :
            (c' : List ℕ)
            → All (λ p. p ≢ stop.0) c'
            → All (λ p. p ≢ x) c'
            → All (λ p. lane' p ≡ lane p) c'
        keep [] a f = tt
        keep (p ∷ c') a f = (l.others p a.0 f.0, keep c' a.1 f.1)

    own_lane :
        Linked
        → (n k p r : ℕ) (ys : List ℕ) → n ≢ x
        → All (λ q. n ≢ q) ys
        → ((lane n).forward ≡ (skip height i (ys ++ c)).0)
          × ((lane n).span ≡ (skip height i (ys ++ c)).1)
        → last_tall height i p r k ys ≡ stop
        → k + length ys ≡ total
        → (p ≡ n) × (r ≡ k)
        → ((lane' n).forward ≡ (skip height i (ys ++ x ∷ c)).0)
          × ((lane' n).span ≡ (skip height i (ys ++ x ∷ c)).1)
    unfolding skip
    own_lane l n k p r ys fresh distinct own e place at = elim (Bool-cases (any_tall height i ys)) [
      | inl t ↦
          let apart : n ≢ stop.0 =
            subst (λ (q : ℕ × ℕ). n ≢ q.0) e (last_tall-Mem (λ q. n ≢ q) p r k ys t distinct) in
          let same = skip-append ys c t ∙ sym (skip-append ys (x ∷ c) t) in
          rw (l.others n apart fresh)
            (own.0 ∙ ap (λ (q : Ptr × ℕ). q.0) same, own.1 ∙ ap (λ (q : Ptr × ℕ). q.1) same)
      | inr t ↦
          let here : (n, k) ≡ stop =
            ap₂ (λ (a b : ℕ). (a, b)) (sym at.0) (sym at.1) ∙ sym (last_tall_low p r k ys t) ∙ e in
          let node : lane n ≡ lane stop.0 = ap (λ (q : ℕ × ℕ). lane q.0) here in
          let node' : lane' n ≡ lane' stop.0 = ap (λ (q : ℕ × ℕ). lane' q.0) here in
          let rank : k ≡ stop.1 = ap (λ (q : ℕ × ℕ). q.1) here in
          let old = skip-append_low ys c t in
          let new = skip-append_low ys (x ∷ c) t in
          let span = ap (λ (q : Lane). q.span) node' in
          let forward = ap (λ (q : Lane). q.forward) node' in
          elim (Bool-cases (ltb i (height x))) [
            | inl above ↦
                let now = l.tall (ltb→lt _ _ above) in
                let next = skip_tall x c (ltb→lt _ _ above) in
                let step = ap (λ (q : Ptr × ℕ). q.1) next in
                (
                  forward ∙ now.0 ∙ sym (new.0 ∙ ap (λ (q : Ptr × ℕ). q.0) next),
                  omega (arith, span, now, rank, step, new.1, place),
                )
            | inr below ↦
                let now = l.low (ltb→le _ _ below) in
                let next = skip_low x c (ltb→le _ _ below) in
                let step = ap (λ (q : Ptr × ℕ). q.1) next in
                (
                  forward ∙ now.0 ∙ l.ahead ∙ sym (new.0 ∙ ap (λ (q : Ptr × ℕ). q.0) next),
                  omega (arith, span, now.1, rank, step, new.1, place, l.distance),
                )
          ]
    ]

    pub link-Lanes :
        Linked
        → All (λ p. p ≢ stop.0) c
        → (n k p r : ℕ) (ys : List ℕ) → All (λ q. q ≢ x) (n ∷ (ys ++ c))
        → Distinct (n ∷ (ys ++ c))
        → Lanes height lane i (n ∷ (ys ++ c))
        → last_tall height i p r k ys ≡ stop
        → k + length ys ≡ total
        → (i < height n → (p ≡ n) × (r ≡ k))
        → Lanes height lane' i (n ∷ (ys ++ x ∷ c))
    unfolding last_tall
    link-Lanes l apart n k p r [] fresh distinct lanes e place at = (
      λ t. own_lane l n k p r [] fresh.0 tt (lanes.0 t) e place (at t),
      tail-Lanes l apart fresh.1 lanes.1,
    )
    link-Lanes l apart n k p r (y ∷ ys) fresh distinct lanes e place at = (
      λ t.
          own_lane l n k p r (y ∷ ys) fresh.0 (All-append (λ q. n ≢ q) (y ∷ ys) c distinct.0).0
            (lanes.0 t) e place (at t),
      link-Lanes l apart y (k + 1) (if ltb i (height y) then y else p)
          (if ltb i (height y) then k + 1 else r) ys fresh.1 distinct.1 lanes.1 e (omega arith)
          (λ t. rw (lt→ltb _ _ t) (refl, refl)),
    )
