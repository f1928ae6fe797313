-- ===== src/Skiplist/Stops.antt =====
-- skiplist.c: where the searches for a node of the skip list stop at each level.
use credish.Prelude.{
  ℕ, ◌+◌, ◌≤◌, ◌≡◌, ◌∙◌, Bool, true, false, List, [], ◌∷◌, ◌++◌, arith, if◌then◌else◌, ltb, length,
}
use credish.Skiplist.{ZskiplistNode, Nodes, Zskiplist}
use credish.Skiplist.Lanes.{GoesAt, IsAt, last_tall}
use credish.Skiplist.Valid.{All, IsSkiplist}

pick : (P : ℕ → Type 0) (b : Bool) {x y : ℕ} → P x → P y → P (if b then x else y)
pick P true p q = p
pick P false p q = q

pub last_tall-All :
    (P : ℕ → Type 0) (height : ℕ → ℕ) (i x r k : ℕ) (ys : List ℕ)
    → P x
    → All P ys
    → P (last_tall height i x r k ys).0
unfolding last_tall
last_tall-All P height i x r k [] p all = p
last_tall-All P height i x r k (y ∷ ys) p all =
    last_tall-All P height i (if ltb i (height y) then y else x)
      (if ltb i (height y) then k + 1 else r) (k + 1) ys (pick P (ltb i (height y)) all.0 p) all.1

pub last_tall-le :
    (height : ℕ → ℕ) (i x r k : ℕ) (ys : List ℕ)
    → r ≤ k
    → (last_tall height i x r k ys).1 ≤ k + length ys
unfolding last_tall
last_tall-le height i x r k [] h = omega arith
last_tall-le height i x r k (y ∷ ys) h =
    let rest =
      last_tall-le height i (if ltb i (height y) then y else x)
        (if ltb i (height y) then k + 1 else r) (k + 1) ys (ground arith) in
    omega arith

-- The stop, where the last node of the list is in the level.
pub last_tall-snoc :
    (height : ℕ → ℕ) (i x r k : ℕ) (ys : List ℕ) (z : ℕ)
    → last_tall height i x r k (ys ++ z ∷ [])
      ≡ (if ltb i (height z) then (z, k + length ys + 1) else last_tall height i x r k ys)
unfolding last_tall
last_tall-snoc height i x r k [] z = ground arith
last_tall-snoc height i x r k (y ∷ ys) z =
    last_tall-snoc height i (if ltb i (height y) then y else x)
      (if ltb i (height y) then k + 1 else r) (k + 1) ys z
    ∙ ground arith

module _ {D : Type 0} where
  -- A test that does not read the rank.
  pub All-GoesAt :
      (test : ZskiplistNode D → Bool) (nodes : Nodes D) (b : Bool) (k : ℕ) (xs : List ℕ)
      → All (λ x. test (nodes x) ≡ b) xs
      → GoesAt (λ r y. test y) nodes b k xs
  All-GoesAt test nodes b k [] all = tt
  All-GoesAt test nodes b k (x ∷ xs) all = (all.0, All-GoesAt test nodes b (k + 1) xs all.1)

  -- The search starts at the header.
  pub start :
      (goes : ℕ → ZskiplistNode D → Bool) {zsl : Zskiplist D} (before after : List ℕ)
      → IsSkiplist zsl (before ++ after)
      → GoesAt goes zsl.nodes true 0 before
      → IsAt goes zsl.nodes after (length before) zsl.level 0 0 before
  start goes before after valid passes = record {
    tall = omega (arith, valid.levels, valid.header);
    lanes = valid.lanes;
    place = omega arith;
    passes = passes;
  }
