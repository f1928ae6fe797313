-- ===== src/Skiplist/DeleteNode.antt =====
-- skiplist.c: `zsl_delete` keeps a skip list well formed, from the stops of its search on.
use mathlib.Core.Path.{ap₂}
use credish.Prelude.{
  ℕ, ◌-◌, ◌≤◌, ◌<◌, ◌≡◌, refl, sym, ◌∙◌, ap, subst, none, some, List, [], ◌∷◌, ◌++◌, arith,
  if◌then◌else◌, ltb, length, length-append, is_some, Bool-cases, inl, inr, ltb→lt, ltb→le,
}
use credish.Skiplist.{Ptr, Lane, Nodes, Zskiplist, Doubles, set_backward, trim_level, delete_node}
use credish.Skiplist.Lanes.{LanesAt, heights}
use credish.Skiplist.Valid.{
  item, items, items-append, items-same, All, All-map, All-map₂, All_of, All-append, append-All,
  Distinct, IsSkiplist, Backs, last_ptr,
}
use credish.Skiplist.Order.{Holds}
use credish.Skiplist.Splice.{Lanes-same}
use credish.Skiplist.Heights.{Lanes-agree, first_ptr, skip_first}
use credish.Skiplist.Backward.{
  set_backward-field, Backs-same, Backs-append, append-Backs, set_backward-Backs,
  set_backward-other, append-Distinct, last_ptr-append,
}
use credish.Skiplist.Store.{Framed, Framed-item, unlink-Framed}
use credish.Skiplist.Raise.{stop_at}
use credish.Skiplist.Unlink.{
  trim_level_lem, skip_empty, Lanes-after, apart, stop-ne, stop, cut, cut-Lanes, cut_own, cut_above,
}

-- The list without an element.
cut-All :
    {A : Type 0} (P : A → Type 0) (b : List A) (x : A) (c : List A)
    → All P (b ++ x ∷ c)
    → All P (b ++ c)
cut-All P b x c all = let parts = All-append P b (x ∷ c) all in append-All P b c parts.0 parts.1.1

-- The tail, when the node behind `b` is taken out.
tail-cut :
    (x : ℕ) (b c : List ℕ) {t : Ptr}
    → t ≡ last_ptr none (b ++ x ∷ c)
    → (if is_some (first_ptr c) then t else last_ptr none b) ≡ last_ptr none (b ++ c)
tail-cut x b [] h = sym (last_ptr-append none b [])
tail-cut x b (z ∷ c) h =
    h ∙ last_ptr-append none b (x ∷ z ∷ c) ∙ sym (last_ptr-append none b (z ∷ c))

module _ {D : Type 0} {zsl : Zskiplist D} (b : List ℕ) (x : ℕ) (c : List ℕ)
    (valid : IsSkiplist zsl (b ++ x ∷ c)) (small : length (b ++ x ∷ c) < 4294967296) where
  abbrev remains : Nodes D
  remains = cut b x c valid small

  abbrev final : Nodes D
  final = set_backward (first_ptr c) (last_ptr none b) remains

  abbrev left : ℕ
  left = trim_level final zsl.level

  frame : Framed zsl.nodes remains
  frame = unlink-Framed x (stop b x c valid small) zsl.nodes (stop-ne b x c valid small) zsl.level

  final-level : (p : ℕ) → (final p).level ≡ (remains p).level
  final-level p =
      set_backward-field (λ n. n.level) (first_ptr c) (last_ptr none b) remains p (λ n q. refl)

  final-height : (p : ℕ) → (final p).height ≡ (zsl.nodes p).height
  final-height p =
      set_backward-field (λ n. n.height) (first_ptr c) (last_ptr none b) remains p (λ n q. refl)
      ∙ frame.heights p

  final-item : (p : ℕ) → item final p ≡ item zsl.nodes p
  final-item p =
      set_backward-field (λ n. (n.member, n.score)) (first_ptr c) (last_ptr none b) remains p
        (λ n q. refl)
      ∙ Framed-item frame p

  trimmed :
      (left ≤ zsl.level)
      × (1 ≤ zsl.level → 1 ≤ left)
      × ((i : ℕ) → left ≤ i → i < zsl.level → ((final 0).level i).forward ≡ none)
  trimmed = trim_level_lem final zsl.level

  all-Lanes : (i : ℕ) → i < zsl.level → LanesAt final i (0 ∷ (b ++ c))
  all-Lanes i lt =
      let xs = 0 ∷ (b ++ c) in
      Lanes-agree (heights zsl.nodes) (heights final) i (λ p. (final p).level i) xs
        (All_of _ xs final-height)
        (Lanes-same (heights zsl.nodes) i (λ p. (remains p).level i) (λ p. (final p).level i) xs
          (All_of _ xs (λ p. ap (λ (l : ℕ → Lane). l i) (final-level p)))
          (cut-Lanes b x c valid small i lt))

  -- No node that is left reaches a level that has been dropped.
  final-heights : All (λ y. (1 ≤ (final y).height) × ((final y).height ≤ left)) (b ++ c)
  final-heights =
      All-map₂ (λ y. (1 ≤ (zsl.nodes y).height) × ((zsl.nodes y).height ≤ zsl.level))
        (λ y. (final y).height ≤ left) _ (b ++ c)
        (λ y h k. (subst (λ n. 1 ≤ n) (sym (final-height y)) h.0, k))
        (cut-All _ b x c valid.heights)
        (elim (Bool-cases (ltb left zsl.level)) [
          | inl less ↦
              let lt = ltb→lt left zsl.level less in
              let own =
                (all-Lanes left lt).0 (omega (arith, final-height 0, valid.header, valid.levels)) in
              skip_empty (heights final) left (b ++ c) (sym own.0 ∙ trimmed.2 left (omega arith) lt)
          | inr all ↦
              All-map _ _ (b ++ c)
                (λ y h. omega (arith, h.1, final-height y, ltb→le left zsl.level all))
                (cut-All _ b x c valid.heights)
        ])

  final-above : (i : ℕ) → left ≤ i → ((final 0).level i).forward ≡ none
  final-above i le = elim (Bool-cases (ltb i zsl.level)) [
    | inl below ↦ trimmed.2 i le (ltb→lt i zsl.level below)
    | inr above ↦
        ap (λ (l : ℕ → Lane). (l i).forward) (final-level 0)
        ∙ ap (λ (l : Lane). l.forward) (cut_above b x c valid small 0 i (ltb→le i zsl.level above))
        ∙ valid.above i (ltb→le i zsl.level above)
  ]

  final-Distinct : Distinct (0 ∷ (b ++ c))
  final-Distinct =
      let parts = apart b x c valid small in
      (
        cut-All _ b x c valid.distinct.0,
        append-Distinct b c parts.0 parts.1.1 (All-map _ _ b (λ y h. h.1) parts.2),
      )

  final-Backs : Backs final none (b ++ c)
  final-Backs =
      let parts = apart b x c valid small in
      let olds = Backs-append zsl.nodes none b (x ∷ c) valid.backs in
      let same = λ (xs : List ℕ).
        All_of (λ y. (remains y).backward ≡ (zsl.nodes y).backward) xs frame.backs in
      append-Backs final none b c
        (Backs-same remains final none b
          (set_backward-other remains (last_ptr none b) c b (All-map _ _ b (λ y h. h.1) parts.2))
          (Backs-same zsl.nodes remains none b (same b) olds.0))
        (set_backward-Backs remains (some x) (last_ptr none b) c parts.1.1
          (Backs-same zsl.nodes remains (some x) c (same c) olds.1.1))

  -- What `zsl_delete` leaves, with the neighbours of the node.
  abbrev pub deleted : (next back : Ptr) → Zskiplist D
  deleted next back = record zsl {
    nodes = set_backward next back remains;
    tail = if is_some next then zsl.tail else back;
    level = trim_level (set_backward next back remains) zsl.level;
    len = zsl.len - 1;
  }

  deleted-IsSkiplist : IsSkiplist (deleted (first_ptr c) (last_ptr none b)) (b ++ c)
  deleted-IsSkiplist = record {
    lanes = λ i lt. all-Lanes i (omega (arith, trimmed.0));
    above = final-above;
    header = final-height 0 ∙ valid.header;
    levels = (trimmed.1 valid.levels.0, omega (arith, trimmed.0, valid.levels));
    heights = final-heights;
    allocated = cut-All _ b x c valid.allocated;
    distinct = final-Distinct;
    fresh = valid.fresh;
    backs = final-Backs;
    tail = tail-cut x b c valid.tail;
    len = omega (arith, valid.len, length-append b c, length-append b (x ∷ c));
  }

  pub deleted-Holds :
      Holds (deleted (first_ptr c) (last_ptr none b)) (items zsl.nodes b ++ items zsl.nodes c)
  deleted-Holds = record {
    places = b ++ c;
    valid = deleted-IsSkiplist;
    shows =
        items-append final b c
        ∙ ap₂ (λ p q. p ++ q) (items-same zsl.nodes final b (All_of _ b final-item))
            (items-same zsl.nodes final c (All_of _ c final-item));
  }

  pub delete_node_lem :
      (doubles : Doubles D)
      → delete_node doubles zsl (stop_at zsl.nodes b) x ≡ deleted (first_ptr c) (last_ptr none b)
  unfolding delete_node
  delete_node_lem doubles =
      let own =
        (Lanes-after (heights zsl.nodes) 0 (λ p. (zsl.nodes p).level 0) b (x ∷ c)
          (valid.lanes 0 (omega (arith, valid.levels))).1).0 in
      let rest = (All-append _ b (x ∷ c) valid.heights).1 in
      let next =
        ap (λ (l : Lane). l.forward) (cut_own b x c valid small 0)
        ∙ (own (omega (arith, rest.0))).0
        ∙ skip_first (heights zsl.nodes) c (All-map _ _ c (λ y h. h.0) rest.1) in
      let back = frame.backs x ∙ (Backs-append zsl.nodes none b (x ∷ c) valid.backs).1.0 in
      ap₂ deleted next back
