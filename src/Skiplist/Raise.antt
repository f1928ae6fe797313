-- ===== src/Skiplist/Raise.antt =====
-- skiplist.c: the levels that `zsl_insert` adds to the header, before it links the new node in.
use native.Mathlib.Nat.{mod-eq_of_lt}
use credish.Prelude.{
  ℕ, ◌+◌, ◌-◌, ◌≤◌, ◌<◌, ◌≡◌, ◌≢◌, refl, sym, ◌∙◌, ap, Bool, true, false, ◌&&◌, List, ◌∷◌, arith,
  if◌then◌else◌, ltb, leb, ◌==◌, length, Bool-cases, inl, inr, update, if_true, if_false, ltb→lt,
  ltb→le,
}
use credish.Sds.{Bytes, u32}
use credish.Skiplist.{Ptr, Lane, ZskiplistNode, Nodes, Zskiplist, sub32, zsl_node_create, raise}
use credish.Skiplist.Lanes.{LanesAt, heights, skip, last_tall}
use credish.Skiplist.Valid.{item, All, All-map, IsSkiplist}
use credish.Skiplist.Splice.{Lanes-same}
use credish.Skiplist.Heights.{Lanes-agree, skip-none, Lanes-low}
use credish.Skiplist.Store.{Framed-item, raise-Framed, raise-level}

-- A difference that does not wrap around.
pub sub32_lem : (a b : ℕ) → b ≤ a → a < 4294967296 → sub32 a b ≡ a - b
unfolding sub32
sub32_lem a b h l = omega arith

not_raised : (y i l m : ℕ) → i < l → (0 == y && (leb l i && ltb i m)) ≡ false
not_raised y i l m h = ground arith

is_raised : (i l m : ℕ) → l ≤ i → i < m → (0 == 0 && (leb l i && ltb i m)) ≡ true
is_raised i l m h k = ground arith

module _ {D : Type 0} where
  -- The last node of the list in a level, with its rank.
  abbrev pub stop_at : Nodes D → List ℕ → ℕ → ℕ × ℕ
  stop_at nodes b j = last_tall (heights nodes) j 0 0 0 b

  -- The level of the list after the insertion.
  abbrev pub top : Zskiplist D → ℕ → ℕ
  top zsl level = if ltb zsl.level level then level else zsl.level

  -- The nodes when the new one has been made, and is not linked yet.
  abbrev pub made_nodes : Zskiplist D → ℕ → D → Bytes → Nodes D
  made_nodes zsl level score member =
      update (raise (level - zsl.level) zsl.level zsl.len zsl.nodes) zsl.fresh
        (zsl_node_create level score member)

  module _ {zsl : Zskiplist D} (xs : List ℕ) (valid : IsSkiplist zsl xs) (level : ℕ) (score : D)
      (member : Bytes) where
    abbrev made : Nodes D
    made = made_nodes zsl level score member

    pub fresh-All : All (λ y. y ≢ zsl.fresh) (0 ∷ xs)
    fresh-All = (
      omega (arith, valid.fresh),
      All-map (λ x. x < zsl.fresh) _ xs (λ y l. omega arith) valid.allocated,
    )

    pub made_old :
        (p : ℕ) → p ≢ zsl.fresh → made p ≡ raise (level - zsl.level) zsl.level zsl.len zsl.nodes p
    made_old p n = if_false {b = zsl.fresh == p} _ _ (ground arith)

    pub made-heights : All (λ y. heights made y ≡ heights zsl.nodes y) (0 ∷ xs)
    made-heights =
        All-map (λ y. y ≢ zsl.fresh) _ (0 ∷ xs)
          (λ y n.
            ap (λ (q : ZskiplistNode D). q.height) (made_old y n)
            ∙ (raise-Framed (level - zsl.level) zsl.level zsl.len zsl.nodes).heights y)
          fresh-All

    pub made_height : heights made zsl.fresh ≡ level
    made_height = ground arith

    pub made_lane :
        (p : ℕ)
        → p ≢ zsl.fresh
        → (i : ℕ)
        → (made p).level i ≡ (
            if 0 == p && (leb zsl.level i && ltb i (zsl.level + (level - zsl.level)))
            then record { forward = ((zsl.nodes p).level i).forward; span = u32 zsl.len }
            else (zsl.nodes p).level i)
    made_lane p n i =
        ap (λ (q : ZskiplistNode D). q.level i) (made_old p n)
        ∙ raise-level (level - zsl.level) zsl.level zsl.len zsl.nodes p i

    -- After the header has been raised, the lanes of every level are those of the list.
    pub made-Lanes : length xs < 4294967296 → (i : ℕ) → i < top zsl level → LanesAt made i (0 ∷ xs)
    made-Lanes small i lt =
        Lanes-agree (heights zsl.nodes) (heights made) i (λ p. (made p).level i) (0 ∷ xs)
          made-heights
          (elim (Bool-cases (ltb i zsl.level)) [
            | inl old ↦
                Lanes-same (heights zsl.nodes) i (λ p. (zsl.nodes p).level i)
                  (λ p. (made p).level i) (0 ∷ xs)
                  (All-map (λ y. y ≢ zsl.fresh) _ (0 ∷ xs)
                    (λ y n.
                      made_lane y n i
                      ∙ if_false _ _ (
                          not_raised y i zsl.level (zsl.level + (level - zsl.level))
                            (ltb→lt _ _ old)))
                    fresh-All)
                  (valid.lanes i (ltb→lt _ _ old))
            | inr new ↦ (
              λ t. header new,
              Lanes-low (heights zsl.nodes) i (λ p. (made p).level i) xs (low new),
            )
          ])
      where
        low : ltb i zsl.level ≡ false → All (λ y. heights zsl.nodes y ≤ i) xs
        low new = All-map _ _ xs (λ y h. omega (arith, h, ltb→le i zsl.level new)) valid.heights

        reach : ltb i zsl.level ≡ false → i < zsl.level + (level - zsl.level)
        reach new = ground arith

        header :
            ltb i zsl.level ≡ false
            → (((made 0).level i).forward ≡ (skip (heights zsl.nodes) i xs).0)
              × (((made 0).level i).span ≡ (skip (heights zsl.nodes) i xs).1)
        header new =
            let end = skip-none (heights zsl.nodes) i xs (low new) in
            let now =
              made_lane 0 (fresh-All.0) i
              ∙ if_true _ _ (
                  is_raised i zsl.level (zsl.level + (level - zsl.level)) (ltb→le _ _ new)
                    (reach new)) in
            (
              ap (λ (q : Lane). q.forward) now
                  ∙ valid.above i (ltb→le _ _ new)
                  ∙ sym (ap (λ (q : Ptr × ℕ). q.0) end),
              ap (λ (q : Lane). q.span) now
                  ∙ mod-eq_of_lt (omega (arith, valid.len))
                  ∙ valid.len
                  ∙ sym (ap (λ (q : Ptr × ℕ). q.1) end),
            )

    pub made_back : (y : ℕ) → y ≢ zsl.fresh → (made y).backward ≡ (zsl.nodes y).backward
    made_back y n =
        ap (λ (q : ZskiplistNode D). q.backward) (made_old y n)
        ∙ (raise-Framed (level - zsl.level) zsl.level zsl.len zsl.nodes).backs y

    pub made-item_old : (y : ℕ) → y ≢ zsl.fresh → item made y ≡ item zsl.nodes y
    made-item_old y n =
        ap (λ (q : ZskiplistNode D). (q.member, q.score)) (made_old y n)
        ∙ Framed-item (raise-Framed (level - zsl.level) zsl.level zsl.len zsl.nodes) y

    pub made-item : item made zsl.fresh ≡ (member, score)
    made-item =
        ap (λ (q : ZskiplistNode D). (q.member, q.score))
          (if_true {b = zsl.fresh == zsl.fresh} _ _ (ground arith))

    -- The forward pointers of the header stay.
    pub made_forward : (i : ℕ) → ((made 0).level i).forward ≡ ((zsl.nodes 0).level i).forward
    made_forward i =
        ap (λ (q : Lane). q.forward) (made_lane 0 (fresh-All.0) i)
        ∙ same (0 == 0 && (leb zsl.level i && ltb i (zsl.level + (level - zsl.level))))
      where
        same :
            (t : Bool)
            → (if t
                then (let lane : Lane = record {
                  forward = ((zsl.nodes 0).level i).forward;
                  span = u32 zsl.len;
                } in
                    lane)
                else (zsl.nodes 0).level i).forward
              ≡ ((zsl.nodes 0).level i).forward
        same true = refl
        same false = refl
