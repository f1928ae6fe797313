-- ===== src/Adlist/Linked.antt =====
-- adlist.c: what the nodes of a well-linked list look like, as the list of their addresses and
-- values, in parts and under writes.
use credish.Prelude.{
  ℕ, ◌<◌, ◌≡◌, refl, ap, ◌∙◌, Bool, true, false, ◌||◌, Option, none, some, List, [], ◌∷◌, ◌++◌,
  arith, ◌==◌, ◌&&◌, not, length, map, update, ◌⊎◌, inl, inr,
}
use credish.Adlist.{Ptr, ListNode, Nodes, Adlist, adlist_create, set_prev, set_next}

abbrev pub Cells : Type 0 → Type 0
Cells A = List (ℕ × A)

module _ {A : Type 0} where
  -- The address of the first cell, or `p` without one.
  abbrev pub first_or : Ptr → Cells A → Ptr
  first_or p [] = p
  first_or p ((a, v) ∷ cells) = some a

  -- The address of the last cell, or `p` without one.
  abbrev pub last_or : Ptr → Cells A → Ptr
  last_or p [] = p
  last_or p ((a, v) ∷ cells) = last_or (some a) cells

  abbrev pub has : ℕ → Cells A → Bool
  has p [] = false
  has p ((a, v) ∷ cells) = (p == a) || has p cells

  abbrev pub distinct : Cells A → Bool
  distinct [] = true
  distinct ((a, v) ∷ cells) = not (has a cells) && distinct cells

  -- The cells stand one after the other, the first after `prev` and the last before `next`.
  unfoldable pub Linked : Nodes A → Ptr → Ptr → Cells A → Type 0
  Linked nodes prev next [] = Unit
  Linked nodes prev next ((a, v) ∷ cells) =
      (nodes a ≡ some (record { prev = prev; next = first_or next cells; value = v }))
      × Linked nodes (some a) next cells

  -- Nodes that are not in the list do not matter.
  pub frame-Linked :
      {f : Nodes A} (g : Nodes A) (prev next : Ptr) (cells : Cells A)
      → Linked f prev next cells
      → ((a : ℕ) → has a cells ≡ true → g a ≡ f a)
      → Linked g prev next cells
  unfolding Linked
  frame-Linked g prev next [] l same = tt
  frame-Linked g prev next ((a, v) ∷ cells) l same = (
    same a (ground arith) ∙ l.0,
    frame-Linked g (some a) next cells l.1 (λ b h. same b (ground arith)),
  )

  pub first_or-append :
      (p : Ptr) (xs ys : Cells A) → first_or p (xs ++ ys) ≡ first_or (first_or p ys) xs
  first_or-append p [] ys = refl
  first_or-append p (x ∷ xs) ys = refl

  pub last_or-append :
      (p : Ptr) (xs ys : Cells A) → last_or p (xs ++ ys) ≡ last_or (last_or p xs) ys
  last_or-append p [] ys = refl
  last_or-append p ((a, v) ∷ xs) ys = last_or-append (some a) xs ys

  pub has-append : (p : ℕ) (xs ys : Cells A) → has p (xs ++ ys) ≡ (has p xs || has p ys)
  has-append p [] ys = refl
  has-append p (x ∷ xs) ys = ground (arith, has-append p xs ys)

  pub split-Linked :
      (nodes : Nodes A) (prev next : Ptr) (xs ys : Cells A)
      → Linked nodes prev next (xs ++ ys)
      → Linked nodes prev (first_or next ys) xs × Linked nodes (last_or prev xs) next ys
  unfolding Linked
  split-Linked nodes prev next [] ys l = (tt, l)
  split-Linked nodes prev next ((a, v) ∷ xs) ys l =
      let (front, back) = split-Linked nodes (some a) next xs ys l.1 in
      ((rw (first_or-append next xs ys) at (l.0), front), back)

  pub join-Linked :
      (nodes : Nodes A) (prev next : Ptr) (xs ys : Cells A)
      → Linked nodes prev (first_or next ys) xs
      → Linked nodes (last_or prev xs) next ys
      → Linked nodes prev next (xs ++ ys)
  unfolding Linked
  join-Linked nodes prev next [] ys front back = back
  join-Linked nodes prev next ((a, v) ∷ xs) ys front back = (
    rw (first_or-append next xs ys) (front.0),
    join-Linked nodes (some a) next xs ys front.1 back,
  )

  pub distinct-append :
      (xs ys : Cells A)
      → distinct (xs ++ ys) ≡ true
      → (distinct xs ≡ true) × (distinct ys ≡ true) × ((a : ℕ) → has a xs ≡ true → has a ys ≡ false)
  distinct-append [] ys d = (refl, d, λ a h. cc)
  distinct-append ((b, v) ∷ xs) ys d =
      let (front, back, apart) = distinct-append xs ys (ground arith) in
      (
        ground (arith, has-append b xs ys),
        back,
        λ a h. ground (arith, has-append b xs ys, apart a, equal_has a b ys),
      )
    where
      equal_has : (a b : ℕ) (ys : Cells A) → (a == b) ≡ true → has a ys ≡ has b ys
      equal_has a b ys h = ap (λ k. has k ys) (ground arith)

  pub cons-distinct :
      (a : ℕ) (v : A) (cells : Cells A)
      → distinct ((a, v) ∷ cells) ≡ true
      → (has a cells ≡ false) × (distinct cells ≡ true)
  cons-distinct a v cells d = ground arith

  pub has-ne :
      (a b : ℕ) (cells : Cells A) → has a cells ≡ true → has b cells ≡ false → (b == a) ≡ false
  has-ne a b cells h k = ground (arith, ap (λ c. has c cells))

  -- The other way round.
  pub append-distinct :
      (xs ys : Cells A)
      → distinct xs ≡ true
      → distinct ys ≡ true
      → ((a : ℕ) → has a xs ≡ true → has a ys ≡ false)
      → distinct (xs ++ ys) ≡ true
  append-distinct [] ys front back apart = back
  append-distinct ((b, v) ∷ xs) ys front back apart = ground (
    arith,
    has-append b xs ys,
    apart b,
    append-distinct xs ys (ground arith) back (λ a h. apart a (ground arith)),
  )

  -- A list is empty or has a last cell.
  pub last-cases :
      (xs : Cells A) → (xs ≡ []) ⊎ ((ys : Cells A) × (t : ℕ) × (v : A) × (xs ≡ ys ++ (t, v) ∷ []))
  last-cases [] = inl refl
  last-cases ((a, v) ∷ xs) = elim (last-cases xs) [
    | inl e ↦ inr ([], a, v, ap (λ l. (a, v) ∷ l) e)
    | inr (ys, t, w, e) ↦ inr ((a, v) ∷ ys, t, w, ap (λ l. (a, v) ∷ l) e)
  ]

  -- The nodes `g` differ from `f` at most in the list.
  abbrev pub SameOutside : Cells A → Nodes A → Nodes A → Type 0
  SameOutside cells f g = (a : ℕ) → has a cells ≡ false → g a ≡ f a

  -- The link before the first cell is set.
  pub set_prev-first :
      (nodes : Nodes A) (prev q next : Ptr) (cells : Cells A)
      → Linked nodes prev next cells
      → distinct cells ≡ true
      → (g : Nodes A) × (set_prev (first_or none cells) q nodes ≡ some g)
        × Linked g q next cells
        × SameOutside cells nodes g
  unfolding Linked
  set_prev-first nodes prev q next [] l d = (nodes, refl, tt, λ a h. refl)
  set_prev-first nodes prev q next ((a, v) ∷ cells) l d =
      let new : Option (ListNode A) =
        some (record { prev = q; next = first_or next cells; value = v }) in
      (
        update nodes a new,
        rw (l.0) refl,
        (
          ground arith,
          frame-Linked (update nodes a new) (some a) next cells l.1
              (λ b h. ground (arith, other b h)),
        ),
        λ b h. ground arith,
      )
    where
      other : (b : ℕ) → has b cells ≡ true → (a == b) ≡ false
      other b h = ground (arith, ap (λ k. has k cells))

  -- The link after the last cell is set.
  pub set_next-last :
      (nodes : Nodes A) (q next : Ptr) (cells : Cells A)
      → Linked nodes none next cells
      → distinct cells ≡ true
      → (g : Nodes A) × (set_next (last_or none cells) q nodes ≡ some g)
        × Linked g none q cells
        × SameOutside cells nodes g
  unfolding Linked
  set_next-last nodes q next cells l d = elim (last-cases cells) [
    | inl e ↦ (nodes, rw e refl, rw e tt, λ a h. refl)
    | inr (ys, t, v, e) ↦
        let (front, back) = split-Linked nodes none next ys ((t, v) ∷ []) (rw e at l) in
        let (first, single, apart) = distinct-append ys ((t, v) ∷ []) (rw e at d) in
        let new : Option (ListNode A) =
          some (record { prev = last_or none ys; next = q; value = v }) in
        let g = update nodes t new in
        (
          g,
          rw (e, last_or-append none ys ((t, v) ∷ []), back.0) refl,
          rw e (
              join-Linked g none q ys ((t, v) ∷ [])
                (frame-Linked g none (some t) ys front (λ b h. ground (arith, apart b h)))
                (ground arith, tt)),
          λ b h. ground (arith, ap (has b) e, has-append b ys ((t, v) ∷ []), h),
        )
  ]

  -- What a list stands for.
  unfoldable pub values : Cells A → List A
  values cells = map (λ c. c.1) cells

  -- The list is well linked through the cells, which lie below the next fresh address.
  pub record IsList (list : Adlist A) (cells : Cells A) : Type 0 where
    pub head : list.head ≡ first_or none cells
    pub tail : list.tail ≡ last_or none cells
    pub len : list.len ≡ length cells
    pub linked : Linked list.nodes none none cells
    pub apart : distinct cells ≡ true
    pub old : (a : ℕ) → has a cells ≡ true → a < list.fresh

  pub adlist_create-IsList : IsList adlist_create []
  unfolding adlist_create Linked
  adlist_create-IsList = record {
    head = refl;
    tail = refl;
    len = refl;
    linked = tt;
    apart = refl;
    old = λ a h. cc;
  }

  -- The list stands for the values.
  unfoldable pub Holds : Adlist A → List A → Type 0
  Holds list vals = (cells : Cells A) × IsList list cells × (values cells ≡ vals)
