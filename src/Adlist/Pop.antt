-- ===== src/Adlist/Pop.antt =====
-- adlist.c: removal at either end, against the sequence that a list stands for.
use credish.Prelude.{
  ℕ, ◌-◌, ◌≡◌, refl, ap, ◌∙◌, Option, none, some, [], ◌∷◌, ◌++◌, arith, length, length-append,
  update, is_some, if◌then◌else◌, inl, inr, bind_some, append-nil, take, drop, take-length-append,
}
use credish.Adlist.{Adlist, set_prev, pop_head_at, adlist_pop_head, pop_tail_at, adlist_pop_tail}
use credish.Adlist.Linked.{Cells, Linked, IsList, first_or, last_or, last_or-append, last-cases}
use credish.Adlist.Remove.{has-skip, first_without, last_without, close}

module _ {A : Type 0} where
  adlist_pop_head-nil :
      {list : Adlist A} → IsList list [] → adlist_pop_head list ≡ some (list, none)
  unfolding adlist_pop_head
  adlist_pop_head-nil {list} w = ap (pop_head_at list) w.head

  adlist_pop_head-cons :
      {list : Adlist A} (p : ℕ) (v : A) (back : Cells A)
      → IsList list ((p, v) ∷ back)
      → (list' : Adlist A) × (adlist_pop_head list ≡ some (list', some v)) × IsList list' back
  unfolding adlist_pop_head Linked
  adlist_pop_head-cons {list} p v back w =
      let (g, k, here, step, step', linked, apart) =
        close list.nodes [] back p v w.linked w.apart in
      (
        record {
          head = first_or none back;
          tail = if is_some (first_or none back) then list.tail else none;
          len = list.len - 1;
          nodes = update k p none;
          fresh = list.fresh;
        },
        ap (pop_head_at list) w.head
            ∙ bind_some _ here
            ∙ bind_some _ (bind_some (λ n. set_prev (first_or none back) none n) step ∙ step'),
        record {
          head = refl;
          tail = rw w.tail (last_without [] back p v);
          len = omega (arith, w.len);
          linked = linked;
          apart = apart;
          old = λ a h. w.old a (has-skip a p v [] back h);
        },
      )

  adlist_pop_tail-nil :
      {list : Adlist A} → IsList list [] → adlist_pop_tail list ≡ some (list, none)
  unfolding adlist_pop_tail
  adlist_pop_tail-nil {list} w = ap (pop_tail_at list) w.tail

  adlist_pop_tail-snoc :
      {list : Adlist A} (p : ℕ) (v : A) (front : Cells A)
      → IsList list (front ++ (p, v) ∷ [])
      → (list' : Adlist A) × (adlist_pop_tail list ≡ some (list', some v)) × IsList list' front
  unfolding adlist_pop_tail Linked
  adlist_pop_tail-snoc {list} p v front w =
      let (g, k, here, step, step', linked, apart) =
        close list.nodes front [] p v w.linked w.apart in
      (
        record {
          head = if is_some (last_or none front) then list.head else none;
          tail = last_or none front;
          len = list.len - 1;
          nodes = update k p none;
          fresh = list.fresh;
        },
        ap (pop_tail_at list) (w.tail ∙ last_or-append none front ((p, v) ∷ []))
            ∙ bind_some _ here
            ∙ bind_some _ (step ∙ step'),
        record {
          head = rw w.head (first_without front [] p v) ∙ ap (first_or none) (append-nil front);
          tail = refl;
          len = omega (arith, w.len, length-append front ((p, v) ∷ []));
          linked = rw (append-nil front) at linked;
          apart = rw (append-nil front) at apart;
          old = λ a h. w.old a (has-skip a p v front [] (rw (append-nil front) h));
        },
      )

  -- The value at the front, and that at the back or `o` without one.
  abbrev pub first_value : Cells A → Option A
  first_value [] = none
  first_value ((p, v) ∷ cells) = some v

  abbrev pub last_value : Option A → Cells A → Option A
  last_value o [] = o
  last_value o ((p, v) ∷ cells) = last_value (some v) cells

  last_value-snoc :
      (o : Option A) (front : Cells A) (p : ℕ) (v : A)
      → last_value o (front ++ (p, v) ∷ []) ≡ some v
  last_value-snoc o [] p v = refl
  last_value-snoc o ((q, w) ∷ front) p v = last_value-snoc (some w) front p v

  but_last :
      (front : Cells A) (c : ℕ × A) → take (length (front ++ c ∷ []) - 1) (front ++ c ∷ []) ≡ front
  but_last front c =
      ap (λ n. take n (front ++ c ∷ [])) (omega (arith, length-append front (c ∷ [])))
      ∙ take-length-append front (c ∷ [])

  adlist_pop_head_lem :
      {list : Adlist A} (cells : Cells A)
      → IsList list cells
      → (list' : Adlist A) × (adlist_pop_head list ≡ some (list', first_value cells))
        × IsList list' (drop 1 cells)
  adlist_pop_head_lem {list} [] w = (list, adlist_pop_head-nil w, w)
  adlist_pop_head_lem ((p, v) ∷ back) w = adlist_pop_head-cons p v back w

  adlist_pop_tail_lem :
      {list : Adlist A} (cells : Cells A)
      → IsList list cells
      → (list' : Adlist A) × (adlist_pop_tail list ≡ some (list', last_value none cells))
        × IsList list' (take (length cells - 1) cells)
  adlist_pop_tail_lem {list} cells w = elim (last-cases cells) [
    | inl e ↦ rw e (list, adlist_pop_tail-nil (rw e at w), no_cells (rw e at w))
    | inr (front, p, v, e) ↦
        rw (e, last_value-snoc none front p v, but_last front (p, v))
          (adlist_pop_tail-snoc p v front (rw e at w))
  ]
    where
      no_cells : IsList list [] → IsList list (take (0 - 1) [])
      no_cells w = w

  -- `adlist_pop_head` and `adlist_pop_tail` do not fault: they return the value at their end, NULL for
  -- an empty list, and leave the others in order.
  pub adlist_pop_head-adlist_pop_tail :
      {list : Adlist A} (cells : Cells A)
      → IsList list cells
      → ((list' : Adlist A) × (adlist_pop_head list ≡ some (list', first_value cells))
          × IsList list' (drop 1 cells))
        × ((list' : Adlist A) × (adlist_pop_tail list ≡ some (list', last_value none cells))
            × IsList list' (take (length cells - 1) cells))
  adlist_pop_head-adlist_pop_tail cells w =
      (adlist_pop_head_lem cells w, adlist_pop_tail_lem cells w)
