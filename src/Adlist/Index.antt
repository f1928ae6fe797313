-- ===== src/Adlist/Index.antt =====
-- adlist.c: access by position, against the sequence that a list stands for.
use credish.Prelude.{
  ℕ, zero, suc, ◌-◌, ◌≡◌, refl, sym, ap, ◌∙◌, none, some, [], ◌∷◌, ◌++◌, arith, length,
  length-append, inl, inr, bind_some, take, drop, take-append, take-length-append, append-nil,
}
use credish.Prelude.Int.{pos, negsuc}
use credish.Adlist.{Ptr, Nodes, Adlist, walk_next, walk_prev, adlist_index}
use credish.Adlist.Linked.{
  Cells, Linked, IsList, first_or, last_or, split-Linked, last_or-append, last-cases,
}

module _ {A : Type 0} where
  walk_next_lem :
      (nodes : Nodes A) (prev : Ptr) (cells : Cells A) (i : ℕ)
      → Linked nodes prev none cells
      → walk_next i nodes (first_or none cells) ≡ some (first_or none (drop i cells))
  unfolding walk_next Linked
  walk_next_lem nodes prev [] zero l = refl
  walk_next_lem nodes prev [] (suc i) l = refl
  walk_next_lem nodes prev ((a, v) ∷ cells) zero l = refl
  walk_next_lem nodes prev ((a, v) ∷ cells) (suc i) l =
      bind_some _ l.0 ∙ walk_next_lem nodes (some a) cells i l.1

  stay : (nodes : Nodes A) (p : Ptr) → walk_prev zero nodes p ≡ some p
  unfolding walk_prev
  stay nodes none = refl
  stay nodes (some p) = refl

  take_nil : (n : ℕ) → take {A = ℕ × A} n [] ≡ []
  take_nil zero = refl
  take_nil (suc n) = refl

  take_all : (cells : Cells A) → take (length cells - 0) cells ≡ cells
  take_all cells =
      ap (λ n. take n cells) (omega arith)
      ∙ ap (take (length cells)) (sym (append-nil cells))
      ∙ take-length-append cells []

  -- All but the last cell and then some.
  take-snoc :
      (i : ℕ) (ys : Cells A) (c : ℕ × A)
      → take (length (ys ++ c ∷ []) - suc i) (ys ++ c ∷ []) ≡ take (length ys - i) ys
  take-snoc i ys c =
      ap (λ n. take n (ys ++ c ∷ [])) (omega (arith, length-append ys (c ∷ [])))
      ∙ take-append (length ys - i) ys (c ∷ []) (omega arith)

  walk_prev_lem :
      (nodes : Nodes A) (next : Ptr) (cells : Cells A) (i : ℕ)
      → Linked nodes none next cells
      → walk_prev i nodes (last_or none cells) ≡ some (last_or none (take (length cells - i) cells))
  unfolding walk_prev Linked
  walk_prev_lem nodes next cells zero l =
      stay nodes (last_or none cells) ∙ ap (λ c. some (last_or none c)) (sym (take_all cells))
  walk_prev_lem nodes next cells (suc i) l = elim (last-cases cells) [
    | inl e ↦ rw e (ap (λ c. some (last_or none c)) (sym (take_nil (0 - suc i))))
    | inr (ys, t, v, e) ↦
        let (front, back) = split-Linked nodes none next ys ((t, v) ∷ []) (rw e at l) in
        ap (λ c. walk_prev (suc i) nodes (last_or none c)) e
        ∙ ap (walk_prev (suc i) nodes) (last_or-append none ys ((t, v) ∷ []))
        ∙ bind_some _ back.0
        ∙ walk_prev_lem nodes (some t) ys i front
        ∙ ap (λ c. some (last_or none c)) (sym (take-snoc i ys (t, v)))
        ∙ ap (λ c. some (last_or none (take (length c - suc i) c))) (sym e)
  ]

  -- `adlist_index` finds the node at a position from either end, NULL beyond the other end.
  pub adlist_index_lem :
      {list : Adlist A} (cells : Cells A) (i : ℕ)
      → IsList list cells
      → (adlist_index list (pos i) ≡ some (first_or none (drop i cells)))
        × (adlist_index list (negsuc i) ≡ some (last_or none (take (length cells - i) cells)))
  unfolding adlist_index
  adlist_index_lem {list} cells i w = (
    ap (walk_next i list.nodes) w.head ∙ walk_next_lem list.nodes none cells i w.linked,
    ap (walk_prev i list.nodes) w.tail ∙ walk_prev_lem list.nodes none cells i w.linked,
  )
