-- ===== src/Skiplist/Backward.antt =====
-- skiplist.c: the backward pointers and the tail, when a node is linked in or taken out.
use credish.Prelude.{
  ℕ, ◌+◌, ◌≤◌, if_false, lt→ltb, ◌≡◌, ◌≢◌, refl, sym, ◌∙◌, ap, none, some, List, [], ◌∷◌, ◌++◌,
  arith, if◌then◌else◌, ◌==◌, ==_iff, is_some, Bool-cases, inl, inr,
}
use credish.Skiplist.{Ptr, ZskiplistNode, Nodes, set_backward}
use credish.Skiplist.Lanes.{last_tall}
use credish.Skiplist.Stops.{last_tall-All}
use credish.Skiplist.Valid.{All, All-append, append-All, Distinct, Backs, last_ptr}
use credish.Skiplist.Heights.{first_ptr}

pub last_ptr-append : (p : Ptr) (b c : List ℕ) → last_ptr p (b ++ c) ≡ last_ptr (last_ptr p b) c
last_ptr-append p [] c = refl
last_ptr-append p (x ∷ b) c = last_ptr-append (some x) b c

module _ {D : Type 0} where
  pub set_backward-field :
      {B : Type 0} (field : ZskiplistNode D → B) (q p : Ptr) (nodes : Nodes D) (r : ℕ)
      → ((node : ZskiplistNode D) (back : Ptr)
          → field (record node { backward = back }) ≡ field node)
      → field (set_backward q p nodes r) ≡ field (nodes r)
  set_backward-field field none p nodes r h = refl
  set_backward-field field (some q) p nodes r h = elim (Bool-cases (q == r)) [
    | inl e ↦ rw e (h (nodes q) p ∙ ap (λ q. field (nodes q)) ((==_iff q r).0 e))
    | inr n ↦ rw n refl
  ]

  -- Where the pointers are read, the nodes have the same.
  pub Backs-same :
      (nodes nodes' : Nodes D) (p : Ptr) (xs : List ℕ)
      → All (λ x. (nodes' x).backward ≡ (nodes x).backward) xs
      → Backs nodes p xs
      → Backs nodes' p xs
  Backs-same nodes nodes' p [] same backs = tt
  Backs-same nodes nodes' p (x ∷ xs) same backs =
      (same.0 ∙ backs.0, Backs-same nodes nodes' (some x) xs same.1 backs.1)

  pub Backs-append :
      (nodes : Nodes D) (p : Ptr) (b c : List ℕ)
      → Backs nodes p (b ++ c)
      → Backs nodes p b × Backs nodes (last_ptr p b) c
  Backs-append nodes p [] c backs = (tt, backs)
  Backs-append nodes p (x ∷ b) c backs =
      let rest = Backs-append nodes (some x) b c backs.1 in ((backs.0, rest.0), rest.1)

  pub append-Backs :
      (nodes : Nodes D) (p : Ptr) (b c : List ℕ)
      → Backs nodes p b
      → Backs nodes (last_ptr p b) c
      → Backs nodes p (b ++ c)
  append-Backs nodes p [] c backs backs' = backs'
  append-Backs nodes p (x ∷ b) c backs backs' =
      (backs.0, append-Backs nodes (some x) b c backs.1 backs')

  -- Another pointer in front of a list.
  pub set_backward-Backs :
      (nodes : Nodes D) (p q : Ptr) (c : List ℕ)
      → Distinct c
      → Backs nodes p c
      → Backs (set_backward (first_ptr c) q nodes) q c
  set_backward-Backs nodes p q [] distinct backs = tt
  set_backward-Backs nodes p q (z ∷ c) distinct backs = (
    ground arith,
    Backs-same nodes (set_backward (some z) q nodes) (some z) c (apart c distinct.0) backs.1,
  )
    where
      apart :
          (c' : List ℕ)
          → All (λ y. z ≢ y) c'
          → All (λ y. (set_backward (some z) q nodes y).backward ≡ (nodes y).backward) c'
      apart [] all = tt
      apart (y ∷ c') all = (ground (arith, all.0), apart c' all.1)

  -- A node that is not in front of the list keeps its pointer.
  pub set_backward-other :
      (nodes : Nodes D) (q : Ptr) (c b : List ℕ)
      → All (λ y. All (λ z. y ≢ z) c) b
      → All (λ y. (set_backward (first_ptr c) q nodes y).backward ≡ (nodes y).backward) b
  set_backward-other nodes q [] [] all = tt
  set_backward-other nodes q [] (y ∷ b) all = (refl, set_backward-other nodes q [] b all.1)
  set_backward-other nodes q (z ∷ c) [] all = tt
  set_backward-other nodes q (z ∷ c) (y ∷ b) all =
      (ground (arith, all.0.0), set_backward-other nodes q (z ∷ c) b all.1)

pub Distinct-append :
    (b c : List ℕ) → Distinct (b ++ c) → Distinct b × Distinct c × All (λ y. All (λ z. y ≢ z) c) b
Distinct-append [] c d = (tt, d, tt)
Distinct-append (x ∷ b) c d =
    let rest = Distinct-append b c d.1 in
    let own = All-append (λ y. x ≢ y) b c d.0 in ((own.0, rest.0), rest.1, (own.1, rest.2))

pub append-Distinct :
    (b c : List ℕ) → Distinct b → Distinct c → All (λ y. All (λ z. y ≢ z) c) b → Distinct (b ++ c)
append-Distinct [] c d d' all = d'
append-Distinct (x ∷ b) c d d' all = (append-All _ b c d.0 all.0, append-Distinct b c d.1 d' all.1)

-- The stop where every node is in the level is the last node.
last_tall-last_ptr :
    (height : ℕ → ℕ) (x r k : ℕ) (ys : List ℕ)
    → All (λ y. 1 ≤ height y) ys
    → some (last_tall height 0 x r k ys).0 ≡ last_ptr (some x) ys
unfolding last_tall
last_tall-last_ptr height x r k [] all = refl
last_tall-last_ptr height x r k (y ∷ ys) all =
    rw (lt→ltb 0 (height y) all.0, last_tall) (last_tall-last_ptr height y (k + 1) (k + 1) ys all.1)

-- `(update[0] == zsl->header) ? NULL : update[0]`
pub stop-last_ptr :
    (height : ℕ → ℕ) (b : List ℕ)
    → All (λ y. 1 ≤ height y) b
    → All (λ y. 0 ≢ y) b
    → (if (last_tall height 0 0 0 0 b).0 == 0 then none else some (last_tall height 0 0 0 0 b).0)
      ≡ last_ptr none b
unfolding last_tall
stop-last_ptr height [] all nonzero = refl
stop-last_ptr height (y ∷ b) all nonzero =
    let stop = (last_tall height 0 y 1 1 b).0 in
    let there : 0 ≢ stop = last_tall-All (λ y. 0 ≢ y) height 0 y 1 1 b nonzero.0 nonzero.1 in
    let step : last_tall height 0 0 0 0 (y ∷ b) ≡ last_tall height 0 y 1 1 b =
      rw (lt→ltb 0 (height y) all.0, last_tall) refl in
    ap (λ (q : ℕ × ℕ). if q.0 == 0 then none else some q.0) step
    ∙ if_false {b = stop == 0} _ _ (ground arith)
    ∙ last_tall-last_ptr height y 1 1 b all.1

-- The tail, when a node is put behind `b`.
pub tail-append :
    (x : ℕ) (b c : List ℕ) {t : Ptr}
    → t ≡ last_ptr none (b ++ c)
    → (if is_some (first_ptr c) then t else some x) ≡ last_ptr none (b ++ x ∷ c)
tail-append x b [] h = sym (last_ptr-append none b (x ∷ []))
tail-append x b (z ∷ c) h =
    h ∙ last_ptr-append none b (z ∷ c) ∙ sym (last_ptr-append none b (x ∷ z ∷ c))
