-- ===== src/Skiplist/Lanes.antt =====
-- skiplist.c: what the forward pointers and spans of a level are on a list of nodes, and where the
-- search loops stop.
use native.Mathlib.Nat.{mod-eq_of_lt}
use credish.Prelude.{
  ℕ, zero, suc, ◌+◌, ◌%◌, ◌≤◌, ◌<◌, ◌≡◌, refl, sym, ◌∙◌, ap, subst, Bool, true, false, none, some,
  List, [], ◌∷◌, ◌++◌, arith, if◌then◌else◌, ltb, ◌==◌, ==_iff, length, length-append, Bool-cases,
  inl, inr, lt→ltb, ltb→lt,
}
use credish.Skiplist.{Ptr, Lane, ZskiplistNode, Nodes, walk, search_stops}

-- The first node of a list with more than `i` levels, and its place, from 1; where there is none,
-- the length of the list.
unfoldable pub skip : (ℕ → ℕ) → ℕ → List ℕ → Ptr × ℕ
skip height i [] = (none, 0)
skip height i (y ∷ ys) =
    if ltb i (height y) then (some y, 1) else ((skip height i ys).0, (skip height i ys).1 + 1)

-- The lanes of level `i` lead each node of the list that has them to the next one, with the number
-- of steps between the two.
abbrev pub Lanes : (ℕ → ℕ) → (ℕ → Lane) → ℕ → List ℕ → Type 0
Lanes height lane i [] = Unit {0}
Lanes height lane i (n ∷ ns) =
    (i < height n
      → ((lane n).forward ≡ (skip height i ns).0) × ((lane n).span ≡ (skip height i ns).1))
    × Lanes height lane i ns

-- The last node with more than `i` levels of a list whose first node has the rank `k + 1`, and its
-- rank; `x` of rank `r` where there is none.
unfoldable pub last_tall : (ℕ → ℕ) → ℕ → (x r k : ℕ) → List ℕ → ℕ × ℕ
last_tall height i x r k [] = (x, r)
last_tall height i x r k (y ∷ ys) =
    last_tall height i (if ltb i (height y) then y else x) (if ltb i (height y) then k + 1 else r)
      (k + 1) ys

-- The same, with the nodes after it.
prev_tall : (ℕ → ℕ) → ℕ → (x r : ℕ) → List ℕ → (k : ℕ) → List ℕ → ℕ × ℕ × List ℕ
prev_tall height i x r s k [] = (x, r, s)
prev_tall height i x r s k (y ∷ ys) =
    prev_tall height i (if ltb i (height y) then y else x) (if ltb i (height y) then k + 1 else r)
      (if ltb i (height y) then ys else s) (k + 1) ys

prev-last :
    (height : ℕ → ℕ) (i x r : ℕ) (s : List ℕ) (k : ℕ) (ys : List ℕ)
    → ((prev_tall height i x r s k ys).0, (prev_tall height i x r s k ys).1)
      ≡ last_tall height i x r k ys
unfolding prev_tall last_tall
prev-last height i x r s k [] = refl
prev-last height i x r s k (y ∷ ys) =
    prev-last height i (if ltb i (height y) then y else x) (if ltb i (height y) then k + 1 else r)
      (if ltb i (height y) then ys else s) (k + 1) ys

-- The nodes of a lower level that follow the stop at level `i` lead to the same stop there.
lower :
    (height : ℕ → ℕ) (i j : ℕ) (stop : ℕ × ℕ)
    → j ≤ i
    → (x r : ℕ) (s : List ℕ) (k q t : ℕ) (ys : List ℕ) → last_tall height j x r r s ≡ stop
    → last_tall height j q t k ys ≡ stop
    → last_tall height j
        (prev_tall height i x r s k ys).0
        (prev_tall height i x r s k ys).1
        (prev_tall height i x r s k ys).1
        (prev_tall height i x r s k ys).2
      ≡ stop
unfolding prev_tall last_tall
lower height i j stop le x r s k q t [] h h' = h
lower height i j stop le x r s k q t (y ∷ ys) h h' = elim (Bool-cases (ltb i (height y))) [
  | inl tall ↦
      let h'' = rw (lt→ltb j (height y) (omega (arith, ltb→lt i (height y) tall))) at h' in
      rw (tall, prev_tall) (lower height i j stop le y (k + 1) ys (k + 1) y (k + 1) ys h'' h'')
  | inr low ↦
      rw (low, prev_tall)
        (lower height i j stop le x r s (k + 1) (if ltb j (height y) then y else q)
          (if ltb j (height y) then k + 1 else t) ys h h')
]

module _ {D : Type 0} where
  abbrev pub heights : Nodes D → ℕ → ℕ
  heights nodes p = (nodes p).height

  abbrev pub LanesAt : Nodes D → ℕ → List ℕ → Type 0
  LanesAt nodes i xs = Lanes (heights nodes) (λ p. (nodes p).level i) i xs

  module _ (goes : ℕ → ZskiplistNode D → Bool) (nodes : Nodes D) where
    -- The test holds at each node of the list, the first of rank `k + 1`, or at none.
    abbrev pub GoesAt : Bool → ℕ → List ℕ → Type 0
    GoesAt b k [] = Unit {0}
    GoesAt b k (y ∷ ys) = (goes (k + 1) (nodes y) ≡ b) × GoesAt b (k + 1) ys

    module _ (m i : ℕ) where
      step-stops :
          (fuel x r y q : ℕ)
          → ((nodes x).level i).forward ≡ some y
          → (r + ((nodes x).level i).span) % m ≡ q
          → goes q (nodes y) ≡ false
          → walk goes m nodes i (suc fuel) x r ≡ (x, r)
      unfolding walk
      step-stops fuel x r y q f s g = rw (f, walk) (rw s (rw g refl))

      step-goes :
          (fuel x r y q : ℕ)
          → ((nodes x).level i).forward ≡ some y
          → (r + ((nodes x).level i).span) % m ≡ q
          → goes q (nodes y) ≡ true
          → walk goes m nodes i (suc fuel) x r ≡ walk goes m nodes i fuel y q
      unfolding walk
      step-goes fuel x r y q f s g = rw (f, walk) (rw s (rw g (rw s refl)))

      step-ends :
          (fuel x r : ℕ)
          → ((nodes x).level i).forward ≡ none
          → walk goes m nodes i fuel x r ≡ (x, r)
      unfolding walk
      step-ends zero x r f = refl
      step-ends (suc fuel) x r f = rw (f, walk) refl

      -- In a walk the rank does not wrap around.
      reached : {a : ℕ} (b : ℕ) → a ≡ b + 1 → b + 1 < m → a % m ≡ b + 1
      reached b e l = rw e (mod-eq_of_lt l)

      walk-stops :
          (fuel x r k : ℕ) (after : List ℕ)
          → ((nodes x).level i).forward ≡ (skip (heights nodes) i after).0
          → r + ((nodes x).level i).span ≡ k + (skip (heights nodes) i after).1
          → k + length after < m
          → GoesAt false k after
          → walk goes m nodes i fuel x r ≡ (x, r)
      unfolding skip
      walk-stops fuel x r k [] f s l g = step-ends fuel x r f
      walk-stops zero x r k (y ∷ ys) f s l g = unfold walk in refl
      walk-stops (suc fuel) x r k (y ∷ ys) f s l g = elim (Bool-cases (ltb i (nodes y).height)) [
        | inl t ↦
            step-stops fuel x r y (k + 1) (rw t at f) (reached k (rw t at s) (omega arith)) g.0
        | inr t ↦
            walk-stops (suc fuel) x r (k + 1) ys (rw t at f) (rw t at s ∙ omega arith) (omega arith)
              g.1
      ]

      -- A loop over one level stops at the last node of the level for which the test holds.
      walk_lem :
          (fuel x r k : ℕ) (before after : List ℕ)
          → ((nodes x).level i).forward ≡ (skip (heights nodes) i (before ++ after)).0
          → r + ((nodes x).level i).span ≡ k + (skip (heights nodes) i (before ++ after)).1
          → LanesAt nodes i (before ++ after)
          → k + length (before ++ after) < m
          → length before ≤ fuel
          → GoesAt true k before
          → GoesAt false (k + length before) after
          → walk goes m nodes i fuel x r ≡ last_tall (heights nodes) i x r k before
      unfolding skip last_tall
      walk_lem fuel x r k [] after f s lanes l enough g g' =
          walk-stops fuel x r k after f s l (subst (λ q. GoesAt false q after) (omega arith) g')
      walk_lem zero x r k (y ∷ ys) after f s lanes l enough g g' = absurd (omega arith)
      walk_lem (suc fuel) x r k (y ∷ ys) after f s lanes l enough g g' =
          elim (Bool-cases (ltb i (nodes y).height)) [
            | inl t ↦
                let own = lanes.0 (ltb→lt _ _ t) in
                let rest =
                  walk_lem fuel y (k + 1) (k + 1) ys after own.0 (ap (λ n. k + 1 + n) own.1) lanes.1
                    (omega arith) (omega arith) g.1
                    (subst (λ q. GoesAt false q after) (omega arith) g') in
                step-goes fuel x r y (k + 1) (rw t at f) (reached k (rw t at s) (omega arith)) g.0
                ∙ rest
                ∙ rw t refl
            | inr t ↦
                walk_lem (suc fuel) x r (k + 1) ys after (rw t at f) (rw t at s ∙ omega arith)
                  lanes.1 (omega arith) (omega arith) g.1
                  (subst (λ q. GoesAt false q after) (omega arith) g')
                ∙ rw t refl
          ]

    module _ (after : List ℕ) (total : ℕ) where
      -- At the node `x` of rank `r` the nodes `s` and `after` follow; the test holds at those of `s`.
      pub record IsAt (i x r : ℕ) (s : List ℕ) : Type 0 where
        pub tall : i ≤ (nodes x).height
        pub lanes : (j : ℕ) → j < i → LanesAt nodes j (x ∷ (s ++ after))
        pub place : r + length s ≡ total
        pub passes : GoesAt true r s

      lower-IsAt : {i x r : ℕ} {s : List ℕ} → IsAt (suc i) x r s → IsAt i x r s
      lower-IsAt {i} a = record {
        tall = omega (arith, a.tall);
        lanes = λ j l. a.lanes j (omega arith);
        place = a.place;
        passes = a.passes;
      }

      prev_tall-IsAt :
          (i x r : ℕ) (s : List ℕ) (k : ℕ) (ys : List ℕ)
          → IsAt i x r s
          → ((j : ℕ) → j < i → LanesAt nodes j (ys ++ after))
          → k + length ys ≡ total
          → GoesAt true k ys
          → IsAt i
              (prev_tall (heights nodes) i x r s k ys).0
              (prev_tall (heights nodes) i x r s k ys).1
              (prev_tall (heights nodes) i x r s k ys).2
      unfolding prev_tall
      prev_tall-IsAt i x r s k [] a lanes e g = a
      prev_tall-IsAt i x r s k (y ∷ ys) a lanes e g =
          let rest = λ (j : ℕ) (l : j < i). (lanes j l).1 in
          elim (Bool-cases (ltb i (nodes y).height)) [
            | inl t ↦
                rw (t, prev_tall)
                  (prev_tall-IsAt i y (k + 1) ys (k + 1) ys
                    (record {
                      tall = omega (arith, ltb→lt i (nodes y).height t);
                      lanes = lanes;
                      place = omega arith;
                      passes = g.1;
                    })
                    rest (omega arith) g.1)
            | inr t ↦ rw (t, prev_tall) (prev_tall-IsAt i x r s (k + 1) ys a rest (omega arith) g.1)
          ]

      -- The loop over the highest level.
      pub walk_here :
          (m fuel i x r : ℕ) (s : List ℕ)
          → IsAt (suc i) x r s
          → GoesAt false total after
          → total + length after < m
          → total ≤ fuel
          → walk goes m nodes i fuel x r ≡ last_tall (heights nodes) i x r r s
      walk_here m fuel i x r s a g l enough =
          let lanes = a.lanes i (omega arith) in
          let own = lanes.0 a.tall in
          walk_lem m i fuel x r r s after own.0 (ap (λ n. r + n) own.1) lanes.1
            (omega (arith, length-append s after, a.place)) (omega (arith, a.place)) a.passes
            (subst (λ q. GoesAt false q after) (sym a.place) g)

      -- The stop at a level is where the loop over the next one starts.
      pub next_start :
          (m fuel i x r : ℕ) (s : List ℕ) (stop : ℕ → ℕ × ℕ)
          → IsAt (suc i) x r s
          → GoesAt false total after
          → total + length after < m
          → total ≤ fuel
          → ((j : ℕ) → j < suc i → last_tall (heights nodes) j x r r s ≡ stop j)
          → (s' : List ℕ) × (walk goes m nodes i fuel x r ≡ stop i)
            × IsAt i (stop i).0 (stop i).1 s'
            × ((j : ℕ)
                → j < i
                → last_tall (heights nodes) j (stop i).0 (stop i).1 (stop i).1 s' ≡ stop j)
      next_start m fuel i x r s stop a g l enough stops =
          let p = prev_tall (heights nodes) i x r s r s in
          let e = prev-last (heights nodes) i x r s r s ∙ stops i (omega arith) in
          let moved =
            prev_tall-IsAt i x r s r s (lower-IsAt a) (λ j lt. (a.lanes j (omega arith)).1) a.place
              a.passes in
          (
            p.2,
            walk_here m fuel i x r s a g l enough ∙ stops i (omega arith),
            subst (λ (q : ℕ × ℕ). IsAt i q.0 q.1 p.2) e moved,
            λ j lt.
                subst (λ (q : ℕ × ℕ). last_tall (heights nodes) j q.0 q.1 q.1 p.2 ≡ stop j) e
                  (lower (heights nodes) i j (stop j) (omega arith) x r s r x r s
                    (stops j (omega arith)) (stops j (omega arith))),
          )

      -- The loop over the levels stops at each of them at the last node of the level for which the
      -- test holds.
      pub search_stops_lem :
          (m fuel i x r : ℕ) (s : List ℕ) (stop : ℕ → ℕ × ℕ)
          → IsAt i x r s
          → GoesAt false total after
          → total + length after < m
          → total ≤ fuel
          → ((j : ℕ) → j < i → last_tall (heights nodes) j x r r s ≡ stop j)
          → (j : ℕ) → j < i
          → search_stops goes m nodes fuel i x r j ≡ stop j
      unfolding search_stops
      search_stops_lem m fuel zero x r s stop a g l enough stops j lt = absurd (omega arith)
      search_stops_lem m fuel (suc i) x r s stop a g l enough stops j lt =
          let next = next_start m fuel i x r s stop a g l enough stops in
          rw next.1 (elim (Bool-cases (i == j)) [
            | inl e ↦ rw e (ap stop ((==_iff i j).0 e))
            | inr n ↦ rw n (
                search_stops_lem m fuel i (stop i).0 (stop i).1 next.0 stop next.2 g l enough next.3
                  j (ground arith))
          ])
