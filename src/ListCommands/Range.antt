-- ===== src/ListCommands/Range.antt =====
-- credish_module.c: LRANGE and LLEN, against the sequences under the keys.
use credish.Prelude.{
  ℕ, zero, suc, ◌+◌, ◌-◌, ◌<◌, ◌≤◌, ◌≡◌, refl, sym, ◌∙◌, ap, min, true, false, none, some, List, [],
  ◌∷◌, length, take, drop, length-drop, arith, ltb, leb, bind_some, if_true, if_false, ◌⊎◌, inl,
  inr, Bool-cases,
}
use credish.Prelude.Int.{ℤ, pos, negsuc, pos_part, sub_ℕ, ◌+ℤ◌, ◌-ℤ◌, ltb_ℤ, is_int, to_int_lem}
use credish.Sds.{Bytes}
use credish.Adlist.{Ptr, Nodes, Adlist}
use credish.Adlist.Linked.{Cells, Linked, IsList, Holds, first_or, values}
use credish.Adlist.Index.{adlist_index_lem}
use credish.ListCommands.{range_values, range_start, range_stop, range_between, lrange_of}
use credish.ListCommands.Push.{length-Holds}

-- Where a range starts, and where it has ended, as positions in a sequence of length `len`; a negative
-- position counts from the end.
unfoldable pub from_position : (len : ℕ) → ℤ → ℕ
from_position len (pos n) = n
from_position len (negsuc n) = len - suc n

unfoldable pub to_position : (len : ℕ) → ℤ → ℕ
to_position len (pos n) = suc n
to_position len (negsuc n) = len - n

-- The part of the sequence from `start` to `stop`, both included.
unfoldable pub slice : {A : Type 0} → (start stop : ℤ) → List A → List A
slice start stop xs =
    let first = from_position (length xs) start in
    take (to_position (length xs) stop - first) (drop first xs)

pub range_start_lem :
    (len : ℕ) (start : ℤ)
    → len < 2147483648
    → is_int start ≡ true
    → range_start len start ≡ from_position len start
unfolding range_start from_position is_int ◌+ℤ◌
range_start_lem len (pos n) h i = ground arith
range_start_lem len (negsuc n) h i = ground (arith, to_int_lem (sub_ℕ len (suc n)))

sub_ℕ-cases :
    (a b : ℕ)
    → ((m : ℕ) × (sub_ℕ a b ≡ pos m) × (m + b ≡ a)) ⊎ ((m : ℕ) × (sub_ℕ a b ≡ negsuc m) × (a < b))
sub_ℕ-cases a b = elim (Bool-cases (leb b a)) [
  | inl e ↦ inl (a - b, rw e refl, ground arith)
  | inr e ↦ inr (b - a - 1, rw e refl, ground arith)
]

stop_inside : (len n : ℕ) → n < len → range_stop len (pos n) ≡ pos n
unfolding range_stop
stop_inside len n h = ground arith

stop_beyond : (len n : ℕ) → len < 2147483648 → len ≤ n → range_stop len (pos n) ≡ sub_ℕ len 1
unfolding range_stop is_int ◌-ℤ◌
stop_beyond len n h k = ground (arith, to_int_lem (pos len))

stop_from_end :
    (len n : ℕ) → len < 2147483648 → n < 2147483648 → range_stop len (negsuc n) ≡ sub_ℕ len (suc n)
unfolding range_stop is_int ◌+ℤ◌
stop_from_end len n h k = ground (arith, to_int_lem (sub_ℕ len (suc n)))

-- The last index that `range_stop` leaves, or none.
pub range_stop-cases :
    (len : ℕ) (stop : ℤ)
    → len < 2147483648
    → is_int stop ≡ true
    → ((m : ℕ) × (range_stop len stop ≡ pos m) × (suc m ≡ min len (to_position len stop)))
      ⊎ ((m : ℕ) × (range_stop len stop ≡ negsuc m) × (min len (to_position len stop) ≡ 0))
unfolding to_position is_int
range_stop-cases len (pos n) h i = elim (Bool-cases (ltb n len)) [
  | inl e ↦ inl (n, stop_inside len n (ground arith), ground arith)
  | inr e ↦ elim (sub_ℕ-cases len 1) [
    | inl (m, s, k) ↦ inl (m, stop_beyond len n h (ground arith) ∙ s, ground arith)
    | inr (m, s, k) ↦ inr (m, stop_beyond len n h (ground arith) ∙ s, ground arith)
  ]
]
range_stop-cases len (negsuc n) h i = elim (sub_ℕ-cases len (suc n)) [
  | inl (m, s, k) ↦ inl (m, stop_from_end len n h (ground arith) ∙ s, ground arith)
  | inr (m, s, k) ↦ inr (m, stop_from_end len n h (ground arith) ∙ s, ground arith)
]

range_values_lem :
    (count : ℕ) (nodes : Nodes Bytes) (prev : Ptr) (cells : Cells Bytes)
    → Linked nodes prev none cells
    → range_values count nodes (first_or none cells) ≡ some (take count (values cells))
unfolding range_values Linked values
range_values_lem zero nodes prev cells l = refl
range_values_lem (suc count) nodes prev [] l = refl
range_values_lem (suc count) nodes prev ((a, v) ∷ cells) l =
    bind_some _ l.0 ∙ bind_some _ (range_values_lem count nodes (some a) cells l.1)

drop-Linked :
    (i : ℕ) (nodes : Nodes Bytes) (prev : Ptr) (cells : Cells Bytes)
    → Linked nodes prev none cells
    → (prev' : Ptr) × Linked nodes prev' none (drop i cells)
unfolding Linked
drop-Linked zero nodes prev cells l = (prev, l)
drop-Linked (suc i) nodes prev [] l = (prev, l)
drop-Linked (suc i) nodes prev ((a, v) ∷ cells) l = drop-Linked i nodes (some a) cells l.1

drop-values : (i : ℕ) (cells : Cells Bytes) → values (drop i cells) ≡ drop i (values cells)
unfolding values
drop-values zero cells = refl
drop-values (suc i) [] = refl
drop-values (suc i) (c ∷ cells) = drop-values i cells

take-min : {A : Type 0} (n : ℕ) (xs : List A) → take (min (length xs) n) xs ≡ take n xs
take-min zero xs =
    let none_left : min (length xs) 0 ≡ 0 = omega arith in ap (λ k. take k xs) none_left
take-min (suc n) [] =
    let none_left : min 0 (suc n) ≡ 0 = omega arith in ap (λ k. take k []) none_left
take-min (suc n) (x ∷ xs) =
    let one : min (suc (length xs)) (suc n) ≡ suc (min (length xs) n) = omega arith in
    ap (λ k. take k (x ∷ xs)) one ∙ ap (λ l. x ∷ l) (take-min n xs)

-- An end beyond the end of the sequence is the end.
pub take-end :
    {A : Type 0} (n i : ℕ) (xs : List A)
    → take (min (length xs) n - i) (drop i xs) ≡ take (n - i) (drop i xs)
take-end n i xs =
    ap (λ k. take k (drop i xs)) (omega (arith, length-drop i xs)) ∙ take-min (n - i) (drop i xs)

between-none : (l : Adlist Bytes) (first m : ℕ) → range_between l first (negsuc m) ≡ some []
unfolding range_between
between-none l first m = ground arith

pub past_end : (m first : ℕ) → ltb_ℤ (pos m) (pos first) ≡ true → suc m - first ≡ 0
past_end m first e = ground (arith, e)

pub rounds :
    (m first : ℕ)
    → ltb_ℤ (pos m) (pos first) ≡ false
    → pos_part (pos m -ℤ pos first) + 1 ≡ suc m - first
unfolding ◌-ℤ◌
rounds m first e = ground (arith, e)

between-some :
    {l : Adlist Bytes} (cells : Cells Bytes) (first m : ℕ)
    → IsList l cells
    → range_between l first (pos m) ≡ some (take (suc m - first) (drop first (values cells)))
unfolding range_between ◌-ℤ◌
between-some {l} cells first m v = elim (Bool-cases (ltb_ℤ (pos m) (pos first))) [
  | inl e ↦
      if_true _ _ e ∙ ap (λ k. some (take k (drop first (values cells)))) (sym (past_end m first e))
  | inr e ↦
      let (prev, l') = drop-Linked first l.nodes none cells v.linked in
      if_false _ _ e
      ∙ bind_some _ (adlist_index_lem cells first v).0
      ∙ range_values_lem (pos_part (pos m -ℤ pos first) + 1) l.nodes prev (drop first cells) l'
      ∙ ap some (ap (take (pos_part (pos m -ℤ pos first) + 1)) (drop-values first cells))
      ∙ ap (λ k. some (take k (drop first (values cells)))) (rounds m first e)
]

pub lrange_of_lem :
    (l : Adlist Bytes) (xs : List Bytes) (start stop : ℤ)
    → Holds l xs
    → l.len < 2147483648
    → is_int start ≡ true
    → is_int stop ≡ true
    → lrange_of l start stop ≡ some (slice start stop xs)
unfolding lrange_of slice Holds
lrange_of_lem l xs start stop (cells, v, e) small is is' =
    let same : l.len ≡ length xs = length-Holds l xs (cells, v, e) in
    let end : ℕ = to_position (length xs) stop in
    let first : ℕ = from_position (length xs) start in
    ap (λ k. range_between l k (range_stop l.len stop)) (range_start_lem l.len start small is)
    ∙ ap (λ k. range_between l (from_position k start) (range_stop l.len stop)) same
    ∙ elim (range_stop-cases l.len stop small is') [
      | inl (m, s, k) ↦
          ap (range_between l first) s
          ∙ between-some cells first m v
          ∙ ap (λ ys. some (take (suc m - first) (drop first ys))) e
          ∙ ap (λ n. some (take (n - first) (drop first xs)))
              (k ∙ ap (λ n. min n (to_position n stop)) same)
          ∙ ap some (take-end end first xs)
      | inr (m, s, k) ↦
          ap (range_between l first) s
          ∙ between-none l first m
          ∙ ap (λ n. some (take n (drop first xs)))
              (nothing first (sym (ap (λ n. min n (to_position n stop)) same) ∙ k))
          ∙ ap some (take-end end first xs)
    ]
  where
    nothing : {a : ℕ} (i : ℕ) → a ≡ 0 → 0 ≡ a - i
    nothing i h = omega (arith, h)
