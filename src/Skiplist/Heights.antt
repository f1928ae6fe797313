-- ===== src/Skiplist/Heights.antt =====
-- skiplist.c: how the walk over a level depends on the heights of the nodes.
use credish.Prelude.{
  ℕ, ◌+◌, ◌≤◌, ◌<◌, ◌≡◌, refl, ◌∙◌, ap, subst, false, none, some, List, [], ◌∷◌, arith,
  if◌then◌else◌, ltb, length, lt→ltb, le→ltb,
}
use credish.Skiplist.{Ptr, Lane}
use credish.Skiplist.Lanes.{skip, last_tall, Lanes}
use credish.Skiplist.Valid.{All}
use credish.Skiplist.Splice.{any_tall}

module _ (height height' : ℕ → ℕ) (i : ℕ) where
  pub last_tall_agree :
      (x r k : ℕ) (ys : List ℕ)
      → All (λ y. height' y ≡ height y) ys
      → last_tall height' i x r k ys ≡ last_tall height i x r k ys
  unfolding last_tall
  last_tall_agree x r k [] same = refl
  last_tall_agree x r k (y ∷ ys) same =
      rw (same.0, last_tall)
        (last_tall_agree (if ltb i (height y) then y else x) (if ltb i (height y) then k + 1 else r)
          (k + 1) ys same.1)

  skip_agree :
      (ys : List ℕ) → All (λ y. height' y ≡ height y) ys → skip height' i ys ≡ skip height i ys
  unfolding skip
  skip_agree [] same = refl
  skip_agree (y ∷ ys) same = rw (same.0, skip_agree ys same.1, skip) refl

  pub Lanes-agree :
      (lane : ℕ → Lane) (ys : List ℕ)
      → All (λ y. height' y ≡ height y) ys
      → Lanes height lane i ys
      → Lanes height' lane i ys
  Lanes-agree lane [] same lanes = tt
  Lanes-agree lane (y ∷ ys) same lanes = (
    λ t. rw (skip_agree ys same.1) (lanes.0 (subst (λ n. i < n) same.0 t)),
    Lanes-agree lane ys same.1 lanes.1,
  )

module _ (height : ℕ → ℕ) (i : ℕ) where
  -- Where every node is in the level, the stop is the last one.
  pub last_tall_full :
      (x k : ℕ) (ys : List ℕ)
      → All (λ y. i < height y) ys
      → (last_tall height i x k k ys).1 ≡ k + length ys
  unfolding last_tall
  last_tall_full x k [] all = omega arith
  last_tall_full x k (y ∷ ys) all =
      rw (lt→ltb _ _ all.0, last_tall) (last_tall_full y (k + 1) ys all.1 ∙ omega arith)

  pub any_tall_low : (ys : List ℕ) → All (λ y. height y ≤ i) ys → any_tall height i ys ≡ false
  unfolding any_tall
  any_tall_low [] all = refl
  any_tall_low (y ∷ ys) all = rw (le→ltb _ _ all.0, any_tall) (any_tall_low ys all.1)

  pub skip-none : (ys : List ℕ) → All (λ y. height y ≤ i) ys → skip height i ys ≡ (none, length ys)
  unfolding skip
  skip-none [] all = refl
  skip-none (y ∷ ys) all =
      rw (le→ltb _ _ all.0, skip-none ys all.1, skip) (ap (λ (n : ℕ). (none, n)) (omega arith))

  pub skip-le : (ys : List ℕ) → (skip height i ys).1 ≤ length ys
  unfolding skip
  skip-le [] = omega arith
  skip-le (y ∷ ys) = ground (arith, skip-le ys)

  -- No node of the list is in the level.
  pub Lanes-low :
      (lane : ℕ → Lane) (ys : List ℕ) → All (λ y. height y ≤ i) ys → Lanes height lane i ys
  Lanes-low lane [] all = tt
  Lanes-low lane (y ∷ ys) all = (λ t. absurd (omega (arith, all.0)), Lanes-low lane ys all.1)

-- The first node of a list.
abbrev pub first_ptr : List ℕ → Ptr
first_ptr [] = none
first_ptr (x ∷ xs) = some x

pub skip_first :
    (height : ℕ → ℕ) (ys : List ℕ)
    → All (λ y. 1 ≤ height y) ys
    → (skip height 0 ys).0 ≡ first_ptr ys
unfolding skip
skip_first height [] all = refl
skip_first height (y ∷ ys) all = rw (lt→ltb 0 (height y) all.0) refl
