-- ===== src/Adlist/Push.antt =====
-- adlist.c: insertion at either end, against the sequence that a list stands for.
use credish.Prelude.{
  ℕ, ◌+◌, ◌≡◌, refl, sym, ap, ◌∙◌, false, Option, none, some, [], ◌∷◌, ◌++◌, arith, length-append,
  update, or_else, bind_some,
}
use credish.Adlist.{ListNode, Adlist, set_prev, set_next, adlist_push_head, adlist_push_tail}
use credish.Adlist.Linked.{
  Cells, Linked, IsList, first_or, last_or, has, frame-Linked, join-Linked, last_or-append,
  first_or-append, has-append, append-distinct, set_prev-first, set_next-last,
}

module _ {A : Type 0} where
  fresh-absent :
      {list : Adlist A} {cells : Cells A} → IsList list cells → has list.fresh cells ≡ false
  fresh-absent {list} {cells} v = ground (arith, v.old list.fresh)

  -- The new node does not disturb the others.
  with_node :
      {list : Adlist A} {cells : Cells A} (node : Option (ListNode A))
      → IsList list cells
      → Linked (update list.nodes list.fresh node) none none cells
  with_node {list} {cells} node v =
      frame-Linked (update list.nodes list.fresh node) none none cells v.linked
        (λ a h. ground (arith, v.old a h))

  tail_of_empty :
      (cells : Cells A) (a : ℕ) → or_else (last_or none cells) (some a) ≡ last_or (some a) cells
  tail_of_empty [] a = refl
  tail_of_empty ((b, v) ∷ cells) a = has_tail cells b
    where
      has_tail :
          (cells : Cells A) (b : ℕ)
          → or_else (last_or (some b) cells) (some a) ≡ last_or (some b) cells
      has_tail [] b = refl
      has_tail ((c, w) ∷ cells) b = has_tail cells c

  -- `adlist_push_head` puts a cell before the others.
  pub adlist_push_head_lem :
      {list : Adlist A} {cells : Cells A} (value : A)
      → IsList list cells
      → (list' : Adlist A) × (adlist_push_head list value ≡ some list')
        × IsList list' ((list.fresh, value) ∷ cells)
  unfolding adlist_push_head Linked
  adlist_push_head_lem {list} {cells} value v =
      let node : Option (ListNode A) =
        some (record { prev = none; next = list.head; value = value }) in
      let (g, step, linked, outside) =
        set_prev-first (update list.nodes list.fresh node) none (some list.fresh) none cells
          (with_node node v) v.apart in
      let absent = fresh-absent v in
      (
        record {
          head = some list.fresh;
          tail = or_else list.tail (some list.fresh);
          len = list.len + 1;
          nodes = g;
          fresh = list.fresh + 1;
        },
        bind_some _ (
            ap (λ p. set_prev p (some list.fresh) (update list.nodes list.fresh node)) v.head
            ∙ step),
        record {
          head = refl;
          tail = rw v.tail (tail_of_empty cells list.fresh);
          len = omega (arith, v.len);
          linked = (outside list.fresh absent ∙ ground (arith, v.head), linked);
          apart = ground (arith, absent, v.apart);
          old = λ a h. ground (arith, v.old a);
        },
      )

  -- `adlist_push_tail` puts a cell behind the others.
  pub adlist_push_tail_lem :
      {list : Adlist A} {cells : Cells A} (value : A)
      → IsList list cells
      → (list' : Adlist A) × (adlist_push_tail list value ≡ some list')
        × IsList list' (cells ++ (list.fresh, value) ∷ [])
  unfolding adlist_push_tail Linked
  adlist_push_tail_lem {list} {cells} value v =
      let node : Option (ListNode A) =
        some (record { prev = list.tail; next = none; value = value }) in
      let (g, step, linked, outside) =
        set_next-last (update list.nodes list.fresh node) (some list.fresh) none cells
          (with_node node v) v.apart in
      let absent = fresh-absent v in
      let last = (list.fresh, value) ∷ [] in
      (
        record {
          head = or_else list.head (some list.fresh);
          tail = some list.fresh;
          len = list.len + 1;
          nodes = g;
          fresh = list.fresh + 1;
        },
        bind_some _ (
            ap (λ p. set_next p (some list.fresh) (update list.nodes list.fresh node)) v.tail
            ∙ step),
        record {
          head =
              rw v.head (first_of_empty cells list.fresh ∙ sym (first_or-append none cells last));
          tail = sym (last_or-append none cells last);
          len = omega (arith, v.len, length-append cells last);
          linked =
              join-Linked g none none cells last linked
                (outside list.fresh absent ∙ ground (arith, v.tail), tt);
          apart = append-distinct cells last v.apart refl (λ a h. ground (arith, v.old a h));
          old = λ a h. ground (arith, v.old a, has-append a cells last);
        },
      )
    where
      first_of_empty :
          (cells : Cells A) (a : ℕ)
          → or_else (first_or none cells) (some a) ≡ first_or (some a) cells
      first_of_empty [] a = refl
      first_of_empty (c ∷ cells) a = refl
