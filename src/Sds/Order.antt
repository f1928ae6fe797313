-- ===== src/Sds/Order.antt =====
-- sds.c: `sds_cmp` is the lexicographic order of the bytes.
use Prim.Native.Nat.{Ordering, compare}
use credish.Prelude.{ℕ, suc, min, ◌≡◌, refl, ◌↔◌, [], ◌∷◌, arith, length}
use credish.Sds.{Bytes, sds_cmp}

-- The dictionary order: a proper prefix comes first.
unfoldable pub lexicographic : Bytes → Bytes → Ordering
lexicographic [] [] = Ordering.eq
lexicographic [] (y ∷ b) = Ordering.lt
lexicographic (x ∷ a) [] = Ordering.gt
lexicographic (x ∷ a) (y ∷ b) = elim (compare x y) [
  | Ordering.lt ↦ Ordering.lt
  | Ordering.eq ↦ lexicographic a b
  | Ordering.gt ↦ Ordering.gt
]

min-suc : (m n : ℕ) → min (suc m) (suc n) ≡ suc (min m n)
min-suc m n = omega arith

-- `sds_cmp`, which compares the common length first and then the lengths, decides the lexicographic
-- order, as `lexicographic` defines it by recursion on both strings.
pub sds_cmp-lexicographic : (a b : Bytes) → sds_cmp a b ≡ lexicographic a b
unfolding sds_cmp lexicographic
sds_cmp-lexicographic [] [] = refl
sds_cmp-lexicographic [] (y ∷ b) = ground arith
sds_cmp-lexicographic (x ∷ a) [] = ground arith
sds_cmp-lexicographic (x ∷ a) (y ∷ b) =
    rw (min-suc (length a) (length b), sds_cmp) (ground (arith, sds_cmp-lexicographic a b))

pub lexicographic-eq : (a b : Bytes) → lexicographic a b ≡ Ordering.eq → a ≡ b
unfolding lexicographic
lexicographic-eq [] [] h = refl
lexicographic-eq [] (y ∷ b) h = cc
lexicographic-eq (x ∷ a) [] h = cc
lexicographic-eq (x ∷ a) (y ∷ b) h = ground (arith, lexicographic-eq a b)

lexicographic_refl : (a : Bytes) → lexicographic a a ≡ Ordering.eq
unfolding lexicographic
lexicographic_refl [] = refl
lexicographic_refl (x ∷ a) = ground (arith, lexicographic_refl a)

-- The result of a comparison the other way round.
abbrev pub flip : Ordering → Ordering
flip Ordering.lt = Ordering.gt
flip Ordering.eq = Ordering.eq
flip Ordering.gt = Ordering.lt

lexicographic-flip : (a b : Bytes) → lexicographic b a ≡ flip (lexicographic a b)
unfolding lexicographic
lexicographic-flip [] [] = refl
lexicographic-flip [] (y ∷ b) = refl
lexicographic-flip (x ∷ a) [] = refl
lexicographic-flip (x ∷ a) (y ∷ b) = ground (arith, lexicographic-flip a b)

lexicographic_trans :
    (a b c : Bytes)
    → lexicographic a b ≡ Ordering.lt
    → lexicographic b c ≡ Ordering.lt
    → lexicographic a c ≡ Ordering.lt
unfolding lexicographic
lexicographic_trans [] [] c h k = cc
lexicographic_trans [] (y ∷ b) [] h k = cc
lexicographic_trans [] (y ∷ b) (z ∷ c) h k = refl
lexicographic_trans (x ∷ a) [] c h k = cc
lexicographic_trans (x ∷ a) (y ∷ b) [] h k = cc
lexicographic_trans (x ∷ a) (y ∷ b) (z ∷ c) h k = ground (arith, lexicographic_trans a b c)

-- `sds_cmp` returns 0 exactly for equal contents.
pub sds_cmp_eq : (a b : Bytes) → (sds_cmp a b ≡ Ordering.eq) ↔ (a ≡ b)
sds_cmp_eq a b = (
  λ h. lexicographic-eq a b (rw sds_cmp-lexicographic at h),
  λ e. rw (sds_cmp-lexicographic, e) (lexicographic_refl b),
)

pub sds_cmp-flip : (a b : Bytes) → sds_cmp b a ≡ flip (sds_cmp a b)
sds_cmp-flip a b = simp sds_cmp-lexicographic (lexicographic-flip a b)

-- If `sds_cmp` puts `a` before `b` and `b` before `c`, it puts `a` before `c`.
pub sds_cmp_trans :
    (a b c : Bytes)
    → sds_cmp a b ≡ Ordering.lt
    → sds_cmp b c ≡ Ordering.lt
    → sds_cmp a c ≡ Ordering.lt
sds_cmp_trans a b c h k =
    rw sds_cmp-lexicographic
      (lexicographic_trans a b c (rw sds_cmp-lexicographic at h) (rw sds_cmp-lexicographic at k))
