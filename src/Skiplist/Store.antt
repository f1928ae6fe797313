-- ===== src/Skiplist/Store.antt =====
-- skiplist.c: what the loops over the levels write, at each node and level.
use mathlib.Core.Path.{ap₂}
use credish.Prelude.{
  ℕ, zero, suc, ◌+◌, ◌≡◌, ◌≢◌, refl, ◌∙◌, ap, ◌&&◌, some, arith, if◌then◌else◌, ltb, leb, ◌==◌,
  ==_iff, if_false, Bool-cases, inl, inr,
}
use credish.Sds.{u32}
use credish.Skiplist.Valid.{item}
use credish.Skiplist.{
  leads, Lane, ZskiplistNode, Nodes, set_level, sub32, raise, link, bump_spans, unlink,
}

module _ {D : Type 0} where
  -- The nodes are the same but for their levels.
  pub record Framed (nodes nodes' : Nodes D) : Type 0 where
    pub members : (p : ℕ) → (nodes' p).member ≡ (nodes p).member
    pub scores : (p : ℕ) → (nodes' p).score ≡ (nodes p).score
    pub backs : (p : ℕ) → (nodes' p).backward ≡ (nodes p).backward
    pub heights : (p : ℕ) → (nodes' p).height ≡ (nodes p).height

  pub Framed-item :
      {nodes nodes' : Nodes D} → Framed nodes nodes' → (p : ℕ) → item nodes' p ≡ item nodes p
  Framed-item f p = ap₂ (λ a b. (a, b)) (f.members p) (f.scores p)

  Framed-refl : (nodes : Nodes D) → Framed nodes nodes
  Framed-refl nodes = record {
    members = λ p. refl;
    scores = λ p. refl;
    backs = λ p. refl;
    heights = λ p. refl;
  }

  pub Framed-trans : {a b c : Nodes D} → Framed a b → Framed b c → Framed a c
  Framed-trans f g = record {
    members = λ p. g.members p ∙ f.members p;
    scores = λ p. g.scores p ∙ f.scores p;
    backs = λ p. g.backs p ∙ f.backs p;
    heights = λ p. g.heights p ∙ f.heights p;
  }

  set_level-field :
      {B : Type 0} (field : ZskiplistNode D → B) (nodes : Nodes D) (p i : ℕ) (lane : Lane) (q : ℕ)
      → ((node : ZskiplistNode D) (level : ℕ → Lane)
          → field (record node { level = level }) ≡ field node)
      → field (set_level nodes p i lane q) ≡ field (nodes q)
  set_level-field field nodes p i lane q h = elim (Bool-cases (p == q)) [
    | inl e ↦ rw e (h (nodes p) _ ∙ ap (λ q. field (nodes q)) ((==_iff p q).0 e))
    | inr n ↦ rw n refl
  ]

  set_level-Framed :
      (nodes : Nodes D) (p i : ℕ) (lane : Lane) → Framed nodes (set_level nodes p i lane)
  set_level-Framed nodes p i lane = record {
    members = λ q. set_level-field (λ n. n.member) nodes p i lane q (λ n l. refl);
    scores = λ q. set_level-field (λ n. n.score) nodes p i lane q (λ n l. refl);
    backs = λ q. set_level-field (λ n. n.backward) nodes p i lane q (λ n l. refl);
    heights = λ q. set_level-field (λ n. n.height) nodes p i lane q (λ n l. refl);
  }

  set_level_lem :
      (nodes : Nodes D) (p i : ℕ) (lane : Lane) (q j : ℕ)
      → (set_level nodes p i lane q).level j
        ≡ (if p == q && i == j then lane else (nodes q).level j)
  set_level_lem nodes p i lane q j = elim (Bool-cases (p == q)) [
    | inl e ↦ rw e (ap (λ q. if i == j then lane else (nodes q).level j) ((==_iff p q).0 e))
    | inr n ↦ rw n refl
  ]

  pub raise-Framed : (rounds i len : ℕ) (nodes : Nodes D) → Framed nodes (raise rounds i len nodes)
  unfolding raise
  raise-Framed zero i len nodes = Framed-refl nodes
  raise-Framed (suc rounds) i len nodes =
      Framed-trans (set_level-Framed nodes 0 i _) (raise-Framed rounds (i + 1) len _)

  pub raise-level :
      (rounds i len : ℕ) (nodes : Nodes D) (p j : ℕ)
      → (raise rounds i len nodes p).level j ≡ (
          if 0 == p && (leb i j && ltb j (i + rounds))
          then record { forward = ((nodes p).level j).forward; span = u32 len }
          else (nodes p).level j)
  unfolding raise
  raise-level zero i len nodes p j = ground arith
  raise-level (suc rounds) i len nodes p j =
      let lane : Lane = record { forward = ((nodes 0).level i).forward; span = u32 len } in
      raise-level rounds (i + 1) len (set_level nodes 0 i lane) p j
      ∙ rw (set_level_lem nodes 0 i lane p j) (ground arith)

  pub bump_spans-Framed :
      (rounds i : ℕ) (stops : ℕ → ℕ × ℕ) (nodes : Nodes D)
      → Framed nodes (bump_spans rounds i stops nodes)
  unfolding bump_spans
  bump_spans-Framed zero i stops nodes = Framed-refl nodes
  bump_spans-Framed (suc rounds) i stops nodes =
      Framed-trans (set_level-Framed nodes (stops i).0 i _)
        (bump_spans-Framed rounds (i + 1) stops _)

  pub bump_spans-level :
      (rounds i : ℕ) (stops : ℕ → ℕ × ℕ) (nodes : Nodes D) (p j : ℕ)
      → (bump_spans rounds i stops nodes p).level j ≡ (
          if (stops j).0 == p && (leb i j && ltb j (i + rounds))
          then record {
            forward = ((nodes p).level j).forward;
            span = u32 (((nodes p).level j).span + 1);
          }
          else (nodes p).level j)
  unfolding bump_spans
  bump_spans-level zero i stops nodes p j = ground arith
  bump_spans-level (suc rounds) i stops nodes p j =
      let u = (stops i).0 in
      let old = (nodes u).level i in
      let lane : Lane = record old { span = u32 (old.span + 1) } in
      bump_spans-level rounds (i + 1) stops (set_level nodes u i lane) p j
      ∙ rw (set_level_lem nodes u i lane p j) (ground arith)

  module _ (x : ℕ) (stops : ℕ → ℕ × ℕ) (nodes : Nodes D) (apart : (j : ℕ) → (stops j).0 ≢ x) where
    -- What `link` leaves in a lane that it has reached.
    abbrev pub linked_lane : (p j : ℕ) → Lane
    linked_lane p j =
        let before = (nodes (stops j).0).level j in
        let passed = sub32 (stops 0).1 (stops j).1 in
        if (stops j).0 == p
        then record { forward = some x; span = u32 (passed + 1) }
        else if x == p
        then record { forward = before.forward; span = sub32 before.span passed }
        else (nodes p).level j

    pub link-Framed : (n : ℕ) → Framed nodes (link n x stops nodes)
    unfolding link
    link-Framed zero = Framed-refl nodes
    link-Framed (suc i) =
        Framed-trans (Framed-trans (link-Framed i) (set_level-Framed _ x i _))
          (set_level-Framed _ (stops i).0 i _)

    pub link-level :
        (n p j : ℕ)
        → (link n x stops nodes p).level j
          ≡ (if ltb j n then linked_lane p j else (nodes p).level j)
    unfolding link
    link-level zero p j = ground arith
    link-level (suc i) p j =
        let u = (stops i).0 in
        let done = link i x stops nodes in
        let before = (done u).level i in
        let passed = sub32 (stops 0).1 (stops i).1 in
        let a : Lane = record { forward = before.forward; span = sub32 before.span passed } in
        let b : Lane = record { forward = some x; span = u32 (passed + 1) } in
        let own : before ≡ (nodes u).level i =
          link-level i u i ∙ if_false {b = ltb i i} _ _ (ground arith) in
        set_level_lem (set_level done x i a) u i b p j
        ∙ rw (set_level_lem done x i a p j, link-level i p j, own) (ground (arith, apart i))

    pub unlink-Framed : (n : ℕ) → Framed nodes (unlink n x stops nodes)
    unfolding unlink
    unlink-Framed zero = Framed-refl nodes
    unlink-Framed (suc i) = Framed-trans (unlink-Framed i) (set_level-Framed _ (stops i).0 i _)

    -- What `unlink` leaves in the lane before `x`.
    abbrev pub unlinked_lane : ℕ → Lane
    unlinked_lane j =
        let before = (nodes (stops j).0).level j in
        let own = (nodes x).level j in
        if leads before.forward x
        then record { forward = own.forward; span = u32 (before.span + sub32 own.span 1) }
        else record { forward = before.forward; span = sub32 before.span 1 }

    pub unlink-level :
        (n p j : ℕ)
        → (unlink n x stops nodes p).level j
          ≡ (if ltb j n && (stops j).0 == p then unlinked_lane j else (nodes p).level j)
    unfolding unlink
    unlink-level zero p j = ground arith
    unlink-level (suc i) p j =
        let u = (stops i).0 in
        let done = unlink i x stops nodes in
        let own : (done u).level i ≡ (nodes u).level i =
          unlink-level i u i ∙ if_false {b = ltb i i && (stops i).0 == u} _ _ (ground arith) in
        let own' : (done x).level i ≡ (nodes x).level i =
          unlink-level i x i ∙ if_false {b = ltb i i && (stops i).0 == x} _ _ (ground arith) in
        let written = λ (before own : Lane).
          let lane : Lane =
            if leads before.forward x
            then record { forward = own.forward; span = u32 (before.span + sub32 own.span 1) }
            else record { forward = before.forward; span = sub32 before.span 1 } in
          lane in
        set_level_lem done u i (written ((done u).level i) ((done x).level i)) p j
        ∙ rw (unlink-level i p j, own, own') (ground arith)
