-- ===== src/Adlist/Remove.antt =====
-- adlist.c: removal at either end and in between, against the sequence that a list stands for.
use credish.Prelude.{
  ℕ, ◌-◌, ◌≡◌, refl, sym, ◌∙◌, true, false, Option, none, some, [], ◌∷◌, ◌++◌, arith, ◌==◌,
  length-append, update, is_some, if◌then◌else◌, bind_some,
}
use credish.Adlist.{Ptr, ListNode, Nodes, Adlist, set_prev, set_next, adlist_delete_node}
use credish.Adlist.Linked.{
  Cells, Linked, IsList, first_or, last_or, has, distinct, frame-Linked, join-Linked, split-Linked,
  last_or-append, has-append, append-distinct, distinct-append, set_prev-first, set_next-last,
  cons-distinct, has-ne,
}

flip : (a p : ℕ) → (a == p) ≡ false → (p == a) ≡ false
flip a p h = ground arith

module _ {A : Type 0} where
  update_other :
      (f : Nodes A) (p a : ℕ) (v : Option (ListNode A)) → (p == a) ≡ false → update f p v a ≡ f a
  update_other f p a v h = rw h refl

  pub has-skip :
      (a p : ℕ) (v : A) (front back : Cells A)
      → has a (front ++ back) ≡ true
      → has a (front ++ (p, v) ∷ back) ≡ true
  has-skip a p v front back h =
      ground (arith, has-append a front back, has-append a front ((p, v) ∷ back))

  off_head : (a p : ℕ) (v : A) (cells : Cells A) → has a ((p, v) ∷ cells) ≡ false → (a == p) ≡ false
  off_head a p v cells h = ground arith

  off_tail :
      (a p : ℕ) (v : A) (cells : Cells A) → has a ((p, v) ∷ cells) ≡ false → has a cells ≡ false
  off_tail a p v cells h = ground arith

  some_last : (a : ℕ) (cells : Cells A) → is_some (last_or (some a) cells) ≡ true
  some_last a [] = refl
  some_last a ((b, w) ∷ cells) = some_last b cells

  pub first_without :
      (front back : Cells A) (p : ℕ) (v : A)
      → (if is_some (last_or none front)
          then first_or none (front ++ (p, v) ∷ back)
          else first_or none back)
        ≡ first_or none (front ++ back)
  first_without [] back p v = refl
  first_without ((a, w) ∷ front) back p v = rw (some_last a front) refl

  pub last_without :
      (front back : Cells A) (p : ℕ) (v : A)
      → (if is_some (first_or none back)
          then last_or none (front ++ (p, v) ∷ back)
          else last_or none front)
        ≡ last_or none (front ++ back)
  last_without front [] p v = sym (last_or-append none front [])
  last_without front (c ∷ back) p v =
      last_or-append none front ((p, v) ∷ c ∷ back) ∙ sym (last_or-append none front (c ∷ back))

  -- What is linked stays so when a node outside goes.
  drop_node :
      (f : Nodes A) (p : ℕ) (prev next : Ptr) (cells : Cells A)
      → has p cells ≡ false
      → Linked f prev next cells
      → Linked (update f p none) prev next cells
  drop_node f p prev next cells absent l =
      frame-Linked (update f p none) prev next cells l
        (λ a h. update_other f p a none (has-ne a p cells h absent))

  -- Two neighbours of a node that is gone are linked to each other.
  pub close :
      (nodes : Nodes A) (front back : Cells A) (p : ℕ) (v : A)
      → Linked nodes none none (front ++ (p, v) ∷ back)
      → distinct (front ++ (p, v) ∷ back) ≡ true
      → (g k : Nodes A) × (nodes p
          ≡ some (record { prev = last_or none front; next = first_or none back; value = v }))
        × (set_next (last_or none front) (first_or none back) nodes ≡ some g)
        × (set_prev (first_or none back) (last_or none front) g ≡ some k)
        × Linked (update k p none) none none (front ++ back)
        × (distinct (front ++ back) ≡ true)
  unfolding Linked
  close nodes front back p v l d =
      let (before, here) = split-Linked nodes none none front ((p, v) ∷ back) l in
      let (first, rest, apart) = distinct-append front ((p, v) ∷ back) d in
      let (absent, behind) = cons-distinct p v back rest in
      let (g, step, front', outside) =
        set_next-last nodes (first_or none back) (some p) front before first in
      let back' : Linked g (some p) none back =
        frame-Linked g (some p) none back here.1 (λ a h. outside a (not_front a h apart)) in
      let (k, step', linked, outside') =
        set_prev-first g (some p) (last_or none front) none back back' behind in
      let front'' : Linked k none (first_or none back) front =
        frame-Linked k none (first_or none back) front front'
          (λ a h. outside' a (off_tail a p v back (apart a h))) in
      (
        g,
        k,
        here.0,
        step,
        step',
        join-Linked (update k p none) none none front back
            (drop_node k p none (first_or none back) front (not_front_p apart) front'')
            (drop_node k p (last_or none front) none back absent linked),
        append-distinct front back first behind (λ a h. off_tail a p v back (apart a h)),
      )
    where
      not_front :
          (a : ℕ)
          → has a back ≡ true
          → ((b : ℕ) → has b front ≡ true → has b ((p, v) ∷ back) ≡ false)
          → has a front ≡ false
      not_front a h apart = ground (arith, apart a)

      not_front_p :
          ((b : ℕ) → has b front ≡ true → has b ((p, v) ∷ back) ≡ false) → has p front ≡ false
      not_front_p apart = ground (arith, apart p)

  -- `adlist_delete_node` takes the node out, wherever it stands, and keeps the others in order.
  pub adlist_delete_node_lem :
      {list : Adlist A} (front back : Cells A) (p : ℕ) (v : A)
      → IsList list (front ++ (p, v) ∷ back)
      → (list' : Adlist A) × (adlist_delete_node list p ≡ some list') × IsList list' (front ++ back)
  unfolding adlist_delete_node Linked
  adlist_delete_node_lem {list} front back p v w =
      let (g, k, here, step, step', linked, apart) =
        close list.nodes front back p v w.linked w.apart in
      (
        record {
          head = if is_some (last_or none front) then list.head else first_or none back;
          tail = if is_some (first_or none back) then list.tail else last_or none front;
          len = list.len - 1;
          nodes = update k p none;
          fresh = list.fresh;
        },
        bind_some _ here ∙ bind_some _ step ∙ bind_some _ step',
        record {
          head = rw w.head (first_without front back p v);
          tail = rw w.tail (last_without front back p v);
          len = omega (arith, w.len, length-append front ((p, v) ∷ back), length-append front back);
          linked = linked;
          apart = apart;
          old = λ a h. w.old a (has-skip a p v front back h);
        },
      )
