-- ===== src/Skiplist/Valid.antt =====
-- skiplist.c: when a skip list is well formed, and in order.
use Prim.Native.Nat.{Ordering}
use credish.Prelude.{
  ℕ, ◌≤◌, ◌<◌, ◌≡◌, ◌≢◌, refl, ap, none, some, List, [], ◌∷◌, ◌++◌, arith, length,
}
use mathlib.Core.Path.{ap₂}
use credish.Sds.{Bytes}
use credish.Sds.Order.{flip, sds_cmp_eq, sds_cmp-flip, sds_cmp_trans}
use credish.Skiplist.{Ptr, Nodes, Zskiplist, zskiplist_maxlevel, Doubles, node_cmp}
use credish.Skiplist.Lanes.{LanesAt}

-- A predicate of each element.
abbrev pub All {ℓ κ} : {A : Type ℓ} → (A → Type κ) → List A → Type κ
All P [] = Unit
All P (x ∷ xs) = P x × All P xs

module _ {ℓ κ} {A : Type ℓ} (P : A → Type κ) where
  pub All-map {υ} : (Q : A → Type υ) (xs : List A) → ((a : A) → P a → Q a) → All P xs → All Q xs
  All-map Q [] f all = tt
  All-map Q (x ∷ xs) f all = (f x all.0, All-map Q xs f all.1)

  pub All_of : (xs : List A) → ((a : A) → P a) → All P xs
  All_of [] f = tt
  All_of (x ∷ xs) f = (f x, All_of xs f)

  pub All-append : (xs ys : List A) → All P (xs ++ ys) → All P xs × All P ys
  All-append [] ys all = (tt, all)
  All-append (x ∷ xs) ys all = let rest = All-append xs ys all.1 in ((all.0, rest.0), rest.1)

  pub append-All : (xs ys : List A) → All P xs → All P ys → All P (xs ++ ys)
  append-All [] ys all all' = all'
  append-All (x ∷ xs) ys all all' = (all.0, append-All xs ys all.1 all')

module _ {ℓ} {A : Type ℓ} (P : A → Type 0) where
  pub All-map₂ :
      (Q R : A → Type 0) (xs : List A)
      → ((a : A) → P a → Q a → R a)
      → All P xs
      → All Q xs
      → All R xs
  All-map₂ Q R [] f all all' = tt
  All-map₂ Q R (x ∷ xs) f all all' = (f x all.0 all'.0, All-map₂ Q R xs f all.1 all'.1)

  -- One element more.
  pub insert-All :
      (xs : List A) (x : A) (ys : List A) → All P (xs ++ ys) → P x → All P (xs ++ x ∷ ys)
  insert-All [] x ys all p = (p, all)
  insert-All (a ∷ xs) x ys all p = (all.0, insert-All xs x ys all.1 p)

-- No element twice.
abbrev pub Distinct : List ℕ → Type 0
Distinct [] = Unit {0}
Distinct (x ∷ xs) = All (λ y. x ≢ y) xs × Distinct xs

-- The last node of a list, `p` where it is empty.
abbrev pub last_ptr : Ptr → List ℕ → Ptr
last_ptr p [] = p
last_ptr p (x ∷ xs) = last_ptr (some x) xs

module _ {D : Type 0} where
  abbrev pub item : Nodes D → ℕ → Bytes × D
  item nodes p = ((nodes p).member, (nodes p).score)

  -- The members with their scores, in the order of the nodes.
  abbrev pub items : Nodes D → List ℕ → List (Bytes × D)
  items nodes [] = []
  items nodes (x ∷ xs) = item nodes x ∷ items nodes xs

  pub items-append :
      (nodes : Nodes D) (xs ys : List ℕ) → items nodes (xs ++ ys) ≡ items nodes xs ++ items nodes ys
  items-append nodes [] ys = refl
  items-append nodes (x ∷ xs) ys = ap (λ l. item nodes x ∷ l) (items-append nodes xs ys)

  pub items-same :
      (nodes nodes' : Nodes D) (xs : List ℕ)
      → All (λ x. item nodes' x ≡ item nodes x) xs
      → items nodes' xs ≡ items nodes xs
  items-same nodes nodes' [] same = refl
  items-same nodes nodes' (x ∷ xs) same =
      ap₂ (λ a l. a ∷ l) same.0 (items-same nodes nodes' xs same.1)

  -- Each `backward` is the node before, `p` that of the first.
  abbrev pub Backs : Nodes D → Ptr → List ℕ → Type 0
  Backs nodes p [] = Unit {0}
  Backs nodes p (x ∷ xs) = ((nodes x).backward ≡ p) × Backs nodes (some x) xs

  -- The nodes behind the header are those of the list, in this order.
  pub record IsSkiplist (zsl : Zskiplist D) (xs : List ℕ) : Type 0 where
    pub lanes : (i : ℕ) → i < zsl.level → LanesAt zsl.nodes i (0 ∷ xs)
    pub above : (i : ℕ) → zsl.level ≤ i → ((zsl.nodes 0).level i).forward ≡ none
    pub header : (zsl.nodes 0).height ≡ zskiplist_maxlevel
    pub levels : (1 ≤ zsl.level) × (zsl.level ≤ zskiplist_maxlevel)
    pub heights : All (λ x. (1 ≤ (zsl.nodes x).height) × ((zsl.nodes x).height ≤ zsl.level)) xs
    pub allocated : All (λ x. x < zsl.fresh) xs
    pub distinct : Distinct (0 ∷ xs)
    pub fresh : 0 < zsl.fresh
    pub backs : Backs zsl.nodes none xs
    pub tail : zsl.tail ≡ last_ptr none xs
    pub len : zsl.len ≡ length xs

-- What the code relies on in the comparison of two `double`s that are not NaN: it is a total order,
-- in which two values that are equal need not be the same (0.0 and -0.0).
pub record IsOrder {D : Type 0} (doubles : Doubles D) : Type 0 where
  pub cmp_refl : (a : D) → doubles.cmp a a ≡ Ordering.eq
  pub cmp_flip : (a b : D) → doubles.cmp b a ≡ flip (doubles.cmp a b)
  pub cmp_trans :
      (a b c : D)
      → doubles.cmp a b ≡ Ordering.lt
      → doubles.cmp b c ≡ Ordering.lt
      → doubles.cmp a c ≡ Ordering.lt
  pub cmp_eq : (a b c : D) → doubles.cmp a b ≡ Ordering.eq → doubles.cmp a c ≡ doubles.cmp b c

module _ {D : Type 0} (doubles : Doubles D) where
  -- The order of two items.
  abbrev pub item_cmp : Bytes × D → Bytes × D → Ordering
  item_cmp a b = node_cmp doubles a.1 a.0 b.1 b.0

  -- Each item stands before all that follow it.
  abbrev pub Ascending : List (Bytes × D) → Type 0
  Ascending [] = Unit {0}
  Ascending (a ∷ l) = All (λ b. item_cmp a b ≡ Ordering.lt) l × Ascending l

module _ {D : Type 0} {doubles : Doubles D} (order : IsOrder doubles) where
  pub node_cmp_refl :
      (score : D) (member : Bytes) → node_cmp doubles score member score member ≡ Ordering.eq
  unfolding node_cmp
  node_cmp_refl score member =
      rw (order.cmp_refl score, node_cmp) ((sds_cmp_eq member member).1 refl)

  pub node_cmp-flip :
      (a : D) (m : Bytes) (b : D) (n : Bytes)
      → node_cmp doubles b n a m ≡ flip (node_cmp doubles a m b n)
  unfolding node_cmp
  node_cmp-flip a m b n = ground (arith, order.cmp_flip a b, sds_cmp-flip m n)

  pub node_cmp_trans :
      (a : D) (m : Bytes) (b : D) (n : Bytes) (c : D) (o : Bytes)
      → node_cmp doubles a m b n ≡ Ordering.lt
      → node_cmp doubles b n c o ≡ Ordering.lt
      → node_cmp doubles a m c o ≡ Ordering.lt
  unfolding node_cmp
  node_cmp_trans a m b n c o h k = ground (
    arith,
    order.cmp_trans a b c,
    order.cmp_eq a b c,
    order.cmp_eq c b a,
    order.cmp_flip a b,
    order.cmp_flip b c,
    order.cmp_flip a c,
    sds_cmp_trans m n o,
  )
