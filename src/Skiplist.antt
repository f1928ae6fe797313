-- ===== src/Skiplist.antt =====
-- skiplist.c and skiplist.h: the skip list of a sorted set, on a store of nodes. The header is the
-- node 0, the only one whose member is NULL, which is the empty string here. `height` is the number
-- of entries that `level` is allocated with. A loop over one level has the length of the list as
-- fuel.

pub mod Lanes
pub mod Valid
pub mod Splice
pub mod Raise
pub mod Link
pub mod Unlink
pub mod DeleteNode
pub mod InsertNode
pub mod Insert
pub mod Delete
pub mod Heights
pub mod Backward
pub mod Store
pub mod Cut
pub mod Stops
pub mod Rank
pub mod Element
pub mod Create
pub mod Tests
pub mod Order
use Prim.Native.Nat.{Ordering}
use credish.Prelude.{
  ℕ, zero, suc, ◌+◌, ◌-◌, ◌%◌, ◌^◌, Bool, true, false, not, ◌&&◌, ◌||◌, Option, none, some, List,
  [], ◌∷◌, if◌then◌else◌, ltb, leb, ◌==◌, update, is_some, min,
}
use credish.Sds.{Bytes, u32, sds_cmp}

-- What the code does with the `double`s other than NaN: zero, the comparison by `==`, `<` and `>`,
-- and the sum, which is `none` where it is NaN.
pub record Doubles (D : Type 0) : Type 0 where
  pub zero_point : D
  pub cmp : D → D → Ordering
  pub add : D → D → Option D

abbrev pub is_lt : Ordering → Bool
is_lt Ordering.lt = true
is_lt _ = false

abbrev pub is_eq : Ordering → Bool
is_eq Ordering.eq = true
is_eq _ = false

abbrev pub is_gt : Ordering → Bool
is_gt Ordering.gt = true
is_gt _ = false

-- `NULL` is `none`.
abbrev pub Ptr : Type 0
Ptr = Option ℕ

-- Whether a pointer is that to the node `x`.
abbrev pub leads : Ptr → ℕ → Bool
leads none x = false
leads (some y) x = y == x

pub record Lane : Type 0 where
  pub forward : Ptr
  pub span : ℕ

-- `zskiplistNode`
pub record ZskiplistNode (D : Type 0) : Type 0 where
  pub member : Bytes
  pub score : D
  pub backward : Ptr
  pub height : ℕ
  pub level : ℕ → Lane

abbrev pub Nodes : Type 0 → Type 0
Nodes D = ℕ → ZskiplistNode D

-- `zskiplist`, with its nodes and the address that `malloc` returns next.
pub record Zskiplist (D : Type 0) : Type 0 where
  pub nodes : Nodes D
  pub tail : Ptr
  pub len : ℕ
  pub level : ℕ
  pub fresh : ℕ

abbrev pub zskiplist_maxlevel : ℕ
zskiplist_maxlevel = 32

-- The loop of `zsl_random_level`, on the results of `rand` up to the one that ends it;
-- `(int)(ZSKIPLIST_P * 0xFFFF)` is 16383.
unfoldable pub count_levels : ℕ → List ℕ → ℕ
count_levels level [] = level
count_levels level (r ∷ rands) =
    if ltb (r % 65536) 16383 then count_levels (level + 1) rands else level

pub zsl_random_level : List ℕ → ℕ
unfolding count_levels
zsl_random_level rands =
    let level = count_levels 1 rands in
    if ltb level zskiplist_maxlevel then level else zskiplist_maxlevel

-- `(uint32_t)(a - b)`
pub sub32 : ℕ → ℕ → ℕ
sub32 a b = u32 (a + 4294967296 - b)

module _ {D : Type 0} where
  abbrev pub zsl_node_create : (height : ℕ) → (score : D) → (member : Bytes) → ZskiplistNode D
  zsl_node_create height score member = record {
    member = member;
    score = score;
    backward = none;
    height = height;
    level = λ i. record { forward = none; span = 0 };
  }

  abbrev pub set_level : Nodes D → ℕ → ℕ → Lane → Nodes D
  set_level nodes p i lane =
      update nodes p (record (nodes p) { level = update (nodes p).level i lane })

  -- `while (x->level[i].forward && goes)`, where the test is on the rank that the step would give,
  -- in unsigned integers below `m`, and on the next node.
  unfoldable pub walk :
      (goes : ℕ → ZskiplistNode D → Bool)
      → (m : ℕ) → Nodes D
      → (i : ℕ) → (fuel : ℕ) → (x rank : ℕ) → ℕ × ℕ
  walk goes m nodes i zero x rank = (x, rank)
  walk goes m nodes i (suc fuel) x rank = elim ((nodes x).level i).forward [
    | none ↦ (x, rank)
    | some y ↦ elim (goes ((rank + ((nodes x).level i).span) % m) (nodes y)) [
      | true ↦ walk goes m nodes i fuel y ((rank + ((nodes x).level i).span) % m)
      | false ↦ (x, rank)
    ]
  ]

  -- The loop over the levels: `update` and `rank`, which are not written above the level of the list.
  unfoldable pub search_stops :
      (goes : ℕ → ZskiplistNode D → Bool)
      → (m : ℕ) → Nodes D
      → (fuel : ℕ) → (i : ℕ) → (x rank : ℕ) → ℕ
      → ℕ × ℕ
  search_stops goes m nodes fuel zero x rank = λ j. (0, 0)
  search_stops goes m nodes fuel (suc i) x rank =
      let stop = walk goes m nodes i fuel x rank in
      update (search_stops goes m nodes fuel i stop.0 stop.1) i stop

  -- `for (int i = zsl->level; i < level; i++)`, with the rounds that are left; `update` and `rank`
  -- are the header and 0 there.
  pub raise : (rounds : ℕ) → (i : ℕ) → (len : ℕ) → Nodes D → Nodes D
  raise zero i len nodes = nodes
  raise (suc rounds) i len nodes =
      raise rounds (i + 1) len
        (set_level nodes 0 i (record { forward = ((nodes 0).level i).forward; span = u32 len }))

  -- The first `n` rounds of the loop that links `x` in.
  pub link : (n : ℕ) → (x : ℕ) → (stops : ℕ → ℕ × ℕ) → Nodes D → Nodes D
  link zero x stops nodes = nodes
  link (suc i) x stops nodes =
      let done = link i x stops nodes in
      let before = (done (stops i).0).level i in
      let passed = sub32 (stops 0).1 (stops i).1 in
      set_level
        (set_level done x i (record { forward = before.forward; span = sub32 before.span passed }))
        (stops i).0 i (record { forward = some x; span = u32 (passed + 1) })

  -- `update[i]->level[i].span++` from the level `i` on.
  pub bump_spans : (rounds : ℕ) → (i : ℕ) → (stops : ℕ → ℕ × ℕ) → Nodes D → Nodes D
  bump_spans zero i stops nodes = nodes
  bump_spans (suc rounds) i stops nodes =
      let lane = (nodes (stops i).0).level i in
      bump_spans rounds (i + 1) stops
        (set_level nodes (stops i).0 i (record lane { span = u32 (lane.span + 1) }))

  -- `if (p) p->backward = q`
  abbrev pub set_backward : Ptr → Ptr → Nodes D → Nodes D
  set_backward none q nodes = nodes
  set_backward (some p) q nodes = update nodes p (record (nodes p) { backward = q })

  -- The first `n` rounds of the loop of `zsl_delete` that takes `x` out.
  pub unlink : (n : ℕ) → (x : ℕ) → (stops : ℕ → ℕ × ℕ) → Nodes D → Nodes D
  unlink zero x stops nodes = nodes
  unlink (suc i) x stops nodes =
      let done = unlink i x stops nodes in
      let before = (done (stops i).0).level i in
      let own = (done x).level i in
      set_level done (stops i).0 i (
        if leads before.forward x
        then record { forward = own.forward; span = u32 (before.span + sub32 own.span 1) }
        else record before { span = sub32 before.span 1 })

  -- `while (zsl->level > 1 && !zsl->header->level[zsl->level - 1].forward)`
  pub trim_level : Nodes D → ℕ → ℕ
  trim_level nodes zero = 0
  trim_level nodes (suc level) =
      let rest = trim_level nodes level in
      if ltb 1 (suc level) && not (is_some ((nodes 0).level level).forward) then rest else suc level

module _ {D : Type 0} (doubles : Doubles D) where
  pub zsl_create : Zskiplist D
  zsl_create = record {
    nodes = λ p. zsl_node_create zskiplist_maxlevel doubles.zero_point [];
    tail = none;
    len = 0;
    level = 1;
    fresh = 1;
  }

  -- The order of `node_lt` and `node_gt`: by score, then by member.
  unfoldable pub node_cmp : D → Bytes → D → Bytes → Ordering
  node_cmp score1 member1 score2 member2 = elim (doubles.cmp score1 score2) [
    | Ordering.lt ↦ Ordering.lt
    | Ordering.eq ↦ sds_cmp member1 member2
    | Ordering.gt ↦ Ordering.gt
  ]

  unfoldable pub node_gt : D → Bytes → D → Bytes → Bool
  unfolding node_cmp
  node_gt score1 member1 score2 member2 = is_gt (node_cmp score1 member1 score2 member2)

  unfoldable pub node_lt : D → Bytes → D → Bytes → Bool
  unfolding node_cmp
  node_lt score1 member1 score2 member2 = is_lt (node_cmp score1 member1 score2 member2)

  -- The nodes before the new one, from the last at each level, and their ranks.
  pub insert_stops : Zskiplist D → D → Bytes → ℕ → ℕ × ℕ
  unfolding search_stops
  insert_stops zsl score member =
      search_stops (λ rank y. node_lt y.score y.member score member) 4294967296 zsl.nodes zsl.len
        zsl.level 0 0

  -- From the random level on.
  pub insert_node : Zskiplist D → (stops : ℕ → ℕ × ℕ) → (level : ℕ) → D → Bytes → Zskiplist D
  unfolding raise link bump_spans
  insert_node zsl stops level score member =
      let x = zsl.fresh in
      let top = if ltb zsl.level level then level else zsl.level in
      let raised = raise (level - zsl.level) zsl.level zsl.len zsl.nodes in
      let made = update raised x (zsl_node_create level score member) in
      let linked = bump_spans (top - level) level stops (link level x stops made) in
      let back = if (stops 0).0 == 0 then none else some (stops 0).0 in
      let next = ((linked x).level 0).forward in
      record {
        nodes = set_backward next (some x) (set_backward (some x) back linked);
        tail = if is_some next then zsl.tail else some x;
        len = zsl.len + 1;
        level = top;
        fresh = x + 1;
      }

  pub zsl_insert : List ℕ → Zskiplist D → D → Bytes → Zskiplist D
  unfolding insert_node insert_stops zsl_random_level
  zsl_insert rands zsl score member =
      insert_node zsl (insert_stops zsl score member) (zsl_random_level rands) score member

  -- From the loop that takes the node out on.
  pub delete_node : Zskiplist D → (stops : ℕ → ℕ × ℕ) → (x : ℕ) → Zskiplist D
  unfolding unlink trim_level
  delete_node zsl stops x =
      let cut = unlink zsl.level x stops zsl.nodes in
      let next = ((cut x).level 0).forward in
      let nodes = set_backward next (cut x).backward cut in
      record zsl {
        nodes = nodes;
        tail = if is_some next then zsl.tail else (cut x).backward;
        level = trim_level nodes zsl.level;
        len = zsl.len - 1;
      }

  -- From `x = x->level[0].forward` on, for that node. The node is freed, and the result is whether
  -- the source returns 1.
  pub delete_at : Zskiplist D → (stops : ℕ → ℕ × ℕ) → D → Bytes → (found : Ptr) → Zskiplist D × Bool
  unfolding delete_node
  delete_at zsl stops score member none = (zsl, false)
  delete_at zsl stops score member (some x) =
      if is_eq (doubles.cmp (zsl.nodes x).score score)
        && is_eq (sds_cmp (zsl.nodes x).member member)
      then (delete_node zsl stops x, true)
      else (zsl, false)

  pub zsl_delete : Zskiplist D → D → Bytes → Zskiplist D × Bool
  unfolding delete_at insert_stops
  zsl_delete zsl score member =
      let stops = insert_stops zsl score member in
      delete_at zsl stops score member ((zsl.nodes (stops 0).0).level 0).forward

  -- The loop over the levels, with its return.
  unfoldable pub rank_from : Zskiplist D → D → Bytes → (i : ℕ) → (x rank : ℕ) → ℕ
  unfolding walk
  rank_from zsl score member zero x rank = 0
  rank_from zsl score member (suc i) x rank =
      let stop =
        walk (λ r y. not (node_gt y.score y.member score member)) (2 ^ 64) zsl.nodes i zsl.len x
          rank in
      elim (not (stop.0 == 0) && is_eq (sds_cmp (zsl.nodes stop.0).member member)) [
        | true ↦ stop.1
        | false ↦ rank_from zsl score member i stop.0 stop.1
      ]

  pub zsl_get_rank : Zskiplist D → D → Bytes → ℕ
  unfolding rank_from
  zsl_get_rank zsl score member = rank_from zsl score member zsl.level 0 0

-- The loop over the levels, with its return.
unfoldable pub element_from : {D : Type 0} → Zskiplist D → ℕ → (i : ℕ) → (x traversed : ℕ) → Ptr
unfolding walk
element_from zsl rank zero x traversed = none
element_from zsl rank (suc i) x traversed =
    let stop = walk (λ r y. leb r rank) (2 ^ 64) zsl.nodes i zsl.len x traversed in
    elim (stop.1 == rank) [ true ↦ some stop.0 | false ↦ element_from zsl rank i stop.0 stop.1 ]

pub zsl_get_element_by_rank : {D : Type 0} → Zskiplist D → ℕ → Ptr
unfolding element_from
zsl_get_element_by_rank zsl rank = element_from zsl rank zsl.level 0 0
