-- ===== src/Sds.antt =====
-- sds.c and sds.h: length-prefixed strings, their buffers and their order. A byte is a number below
-- 256. What `memcpy` and `memcmp` do is written out over lists.
pub mod Order
pub mod Buffer
mod Tests
use Prim.Native.Nat.{Ordering, compare}
use credish.Prelude.{
  ℕ, zero, suc, ◌+◌, ◌*◌, ◌%◌, ◌^◌, min, Bool, true, false, List, [], ◌∷◌, ◌++◌, if◌then◌else◌, ltb,
  leb, ◌==◌, length, take, drop, replicate, set,
}

abbrev pub Bytes : Type 0
Bytes = List ℕ

-- `(uint32_t)n`
abbrev pub u32 : ℕ → ℕ
u32 n = n % 2 ^ 32

-- `sdshdr`: `buf` has `alloc + 1` bytes.
pub record Sds : Type 0 where
  pub len : ℕ
  pub alloc : ℕ
  pub buf : Bytes

-- The bytes that the string holds.
abbrev pub contents : Sds → Bytes
contents s = take s.len s.buf

-- `memcpy(dst + at, src, length src)`, where it stays inside `dst`.
unfoldable pub copy_at : ℕ → Bytes → Bytes → Bytes
copy_at at src dst = take at dst ++ src ++ drop (at + length src) dst

-- `sds_newlen` on the bytes of `init`; a fresh buffer is filled with zeros here.
unfoldable pub sds_newlen : Bytes → Sds
sds_newlen init =
    let n = length init in
    record { len = u32 n; alloc = u32 n; buf = set (copy_at 0 init (replicate (n + 1) 0)) n 0 }

pub sds_empty : Sds
sds_empty = sds_newlen []

pub sds_dup : Sds → Sds
sds_dup s = sds_newlen (contents s)

pub sds_clear : Sds → Sds
sds_clear s = record s { len = 0; buf = set s.buf 0 0 }

-- `while (new_alloc < needed) new_alloc *= 2`, on fuel.
double_alloc : ℕ → ℕ → ℕ → ℕ
double_alloc zero needed a = a
double_alloc (suc fuel) needed a =
    let more = double_alloc fuel needed (a * 2) in if ltb a needed then more else a

-- `needed` rounds are enough, since each of them adds one at least.
pub sds_grow : Sds → ℕ → Sds
unfolding double_alloc
sds_grow s addlen =
    let needed = s.len + addlen in
    let new_alloc = double_alloc needed needed (if s.alloc == 0 then 1 else s.alloc) in
    if leb needed s.alloc then s else record {
      len = s.len;
      alloc = u32 new_alloc;
      buf = copy_at 0 (take (s.len + 1) s.buf) (replicate (new_alloc + 1) 0);
    }

pub sds_cat : Sds → Bytes → Sds
sds_cat dest bytes =
    let grown = sds_grow dest (length bytes) in
    record grown {
      len = u32 (dest.len + length bytes);
      buf = set (copy_at dest.len bytes grown.buf) (dest.len + length bytes) 0;
    }

-- The sign of `memcmp(a, b, n)`.
memcmp : ℕ → Bytes → Bytes → Ordering
memcmp zero a b = Ordering.eq
memcmp (suc n) [] b = Ordering.eq
memcmp (suc n) (x ∷ a) [] = Ordering.eq
memcmp (suc n) (x ∷ a) (y ∷ b) = elim (compare x y) [
  | Ordering.lt ↦ Ordering.lt
  | Ordering.eq ↦ memcmp n a b
  | Ordering.gt ↦ Ordering.gt
]

-- The sign of `sds_cmp`, on the contents of the two strings.
unfoldable pub sds_cmp : Bytes → Bytes → Ordering
unfolding memcmp
sds_cmp a b = elim (memcmp (min (length a) (length b)) a b) [
  | Ordering.lt ↦ Ordering.lt
  | Ordering.gt ↦ Ordering.gt
  | Ordering.eq ↦
      if ltb (length a) (length b)
      then Ordering.lt
      else if ltb (length b) (length a)
      then Ordering.gt
      else Ordering.eq
]
