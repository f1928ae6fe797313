-- ===== src/Adlist.antt =====
-- adlist.c and adlist.h: the doubly linked list, on a store of nodes. No node belongs to two lists,
-- so that a list is given with the store that holds its nodes. A result `none` is a fault: the
-- access of a node through a pointer that leads to none.
pub mod Linked
pub mod Push
pub mod Remove
pub mod Pop
pub mod Index
mod Tests
use credish.Prelude.{
  ℕ, zero, suc, ◌+◌, ◌-◌, Bool, true, false, Option, none, some, List, [], ◌∷◌, if◌then◌else◌, ◌==◌,
  ◌>>=◌, update, or_else, is_some,
}
use credish.Prelude.Int.{ℤ, pos, negsuc}

-- `NULL` is `none`.
abbrev pub Ptr : Type 0
Ptr = Option ℕ

-- `listNode`
pub record ListNode (A : Type 0) : Type 0 where
  pub prev : Ptr
  pub next : Ptr
  pub value : A

abbrev pub Nodes : Type 0 → Type 0
Nodes A = ℕ → Option (ListNode A)

-- `adlist`, with the nodes and the address that `bufpool_alloc` returns next.
pub record Adlist (A : Type 0) : Type 0 where
  pub head : Ptr
  pub tail : Ptr
  pub len : ℕ
  pub nodes : Nodes A
  pub fresh : ℕ

module _ {A : Type 0} where
  pub adlist_create : Adlist A
  adlist_create = record { head = none; tail = none; len = 0; nodes = λ p. none; fresh = 0 }

  -- `if (p) p->prev = q`
  abbrev pub set_prev : Ptr → Ptr → Nodes A → Option (Nodes A)
  set_prev none q nodes = some nodes
  set_prev (some p) q nodes = do
    node ← nodes p
    some (update nodes p (some (record node { prev = q })))

  -- `if (p) p->next = q`
  abbrev pub set_next : Ptr → Ptr → Nodes A → Option (Nodes A)
  set_next none q nodes = some nodes
  set_next (some p) q nodes = do
    node ← nodes p
    some (update nodes p (some (record node { next = q })))

  pub adlist_push_head : Adlist A → A → Option (Adlist A)
  adlist_push_head list value = do
    nodes ← set_prev list.head (some list.fresh) (
        update list.nodes list.fresh
          (some (record { prev = none; next = list.head; value = value })))
    some (record {
      head = some list.fresh;
      tail = or_else list.tail (some list.fresh);
      len = list.len + 1;
      nodes = nodes;
      fresh = list.fresh + 1;
    })

  pub adlist_push_tail : Adlist A → A → Option (Adlist A)
  adlist_push_tail list value = do
    nodes ← set_next list.tail (some list.fresh) (
        update list.nodes list.fresh
          (some (record { prev = list.tail; next = none; value = value })))
    some (record {
      head = or_else list.head (some list.fresh);
      tail = some list.fresh;
      len = list.len + 1;
      nodes = nodes;
      fresh = list.fresh + 1;
    })

  -- The list after the removal of the head, and the value that it held, NULL for an empty list.
  pub pop_head_at : Adlist A → Ptr → Option (Adlist A × Option A)
  pop_head_at list none = some (list, none)
  pop_head_at list (some p) = do
    node ← list.nodes p
    nodes ← set_prev node.next none list.nodes
    some (
      record {
        head = node.next;
        tail = if is_some node.next then list.tail else none;
        len = list.len - 1;
        nodes = update nodes p none;
        fresh = list.fresh;
      },
      some node.value,
    )

  pub adlist_pop_head : Adlist A → Option (Adlist A × Option A)
  unfolding pop_head_at
  adlist_pop_head list = pop_head_at list list.head

  pub pop_tail_at : Adlist A → Ptr → Option (Adlist A × Option A)
  pop_tail_at list none = some (list, none)
  pop_tail_at list (some p) = do
    node ← list.nodes p
    nodes ← set_next node.prev none list.nodes
    some (
      record {
        head = if is_some node.prev then list.head else none;
        tail = node.prev;
        len = list.len - 1;
        nodes = update nodes p none;
        fresh = list.fresh;
      },
      some node.value,
    )

  pub adlist_pop_tail : Adlist A → Option (Adlist A × Option A)
  unfolding pop_tail_at
  adlist_pop_tail list = pop_tail_at list list.tail

  -- `while (node && index--) node = node->next`
  pub walk_next : ℕ → Nodes A → Ptr → Option Ptr
  walk_next index nodes none = some none
  walk_next zero nodes (some p) = some (some p)
  walk_next (suc index) nodes (some p) = do node ← nodes p; walk_next index nodes node.next

  -- `while (node && index--) node = node->prev`
  pub walk_prev : ℕ → Nodes A → Ptr → Option Ptr
  walk_prev index nodes none = some none
  walk_prev zero nodes (some p) = some (some p)
  walk_prev (suc index) nodes (some p) = do node ← nodes p; walk_prev index nodes node.prev

  -- The second case counts from the tail: -1 is the last node.
  pub adlist_index : Adlist A → ℤ → Option Ptr
  unfolding walk_next walk_prev
  adlist_index list (pos index) = walk_next index list.nodes list.head
  adlist_index list (negsuc index) = walk_prev index list.nodes list.tail

  -- `adlist_delete_node`: `p` leads to the node.
  pub adlist_delete_node : Adlist A → ℕ → Option (Adlist A)
  adlist_delete_node list p = do
    node ← list.nodes p
    nodes ← set_next node.prev node.next list.nodes
    nodes' ← set_prev node.next node.prev nodes
    some (record {
      head = if is_some node.prev then list.head else node.next;
      tail = if is_some node.next then list.tail else node.prev;
      len = list.len - 1;
      nodes = update nodes' p none;
      fresh = list.fresh;
    })
