-- ===== src/Sds/Buffer.antt =====
-- sds.c: the buffer of a string holds its contents and a final zero byte, and appending and growing
-- keep it so.
use credish.Prelude.{
  ℕ, zero, suc, ◌+◌, ◌*◌, ◌^◌, ◌≤◌, ◌<◌, ◌≡◌, refl, sym, subst, ◌∙◌, ap, ◌++◌, arith, if◌then◌else◌,
  leb, ◌==◌, length, take, drop, set, replicate, get_or, length-append, length-set,
  length-replicate, take-length-append, take-take, take-set, length-take, get_or-take, length-drop,
  get_or-set, Bool-cases, inl, inr,
}
use credish.Sds.{Bytes, Sds, u32, contents, copy_at, sds_newlen, double_alloc, sds_grow, sds_cat}

-- `buf` has room for `alloc` bytes and a zero byte after the `len` bytes in use.
pub record IsSds (s : Sds) : Type 0 where
  pub fits : s.len ≤ s.alloc
  pub room : length s.buf ≡ s.alloc + 1
  pub small : s.alloc < 2 ^ 32
  pub ended : get_or s.buf s.len 1 ≡ 0

length-copy_at :
    (at : ℕ) (src dst : Bytes)
    → at + length src ≤ length dst
    → length (copy_at at src dst) ≡ length dst
unfolding copy_at
length-copy_at at src dst h =
    rw (length-append, length-append, length-drop, length-take at dst (omega arith)) (omega arith)

-- What a copy leaves below its end: the old bytes, then the new ones.
take-copy_at :
    (at n : ℕ) (src dst : Bytes)
    → at ≤ length dst
    → n ≡ at + length src
    → take n (copy_at at src dst) ≡ take at dst ++ src
unfolding copy_at
take-copy_at at n src dst h e =
    subst (λ k. take k ((take at dst ++ src) ++ drop (at + length src) dst) ≡ take at dst ++ src)
      (length-append (take at dst) src ∙ whole)
      (take-length-append (take at dst ++ src) (drop (at + length src) dst))
  where
    whole : length (take at dst) + length src ≡ n
    whole = omega (arith, length-take at dst h)

-- A buffer after `src` has been copied in at `at` and the zero byte set behind it.
copy_end :
    (at n : ℕ) (src dst : Bytes)
    → n < length dst
    → n ≡ at + length src
    → (length (set (copy_at at src dst) n 0) ≡ length dst)
      × (get_or (set (copy_at at src dst) n 0) n 1 ≡ 0)
      × (take n (set (copy_at at src dst) n 0) ≡ take at dst ++ src)
copy_end at n src dst h e =
    let sized = length-copy_at at src dst (omega arith) in
    (
      length-set (copy_at at src dst) n 0 ∙ sized,
      rw (get_or-set (copy_at at src dst) n n 0 1 (omega (arith, sized))) (ground arith),
      take-set n n (copy_at at src dst) 0 (omega arith) ∙ take-copy_at at n src dst (omega arith) e,
    )

-- A new string of fewer than 2 ^ 32 bytes is well formed and holds the bytes that it was made from.
pub sds_newlen_lem :
    (init : Bytes)
    → length init < 2 ^ 32
    → IsSds (sds_newlen init) × (contents (sds_newlen init) ≡ init)
unfolding sds_newlen
sds_newlen_lem init h =
    let n : u32 (length init) ≡ length init = omega arith in
    let fresh = length-replicate (length init + 1) 0 in
    let (sized, ended, kept) =
      copy_end 0 (length init) init (replicate (length init + 1) 0) (omega (arith, fresh))
        (omega arith) in
    (
      record {
        fits = omega arith;
        room = rw n (sized ∙ fresh);
        small = omega arith;
        ended = rw n ended;
      },
      rw n kept,
    )

double_alloc-ge :
    (fuel needed a : ℕ) → 0 < a → needed ≤ a + fuel → needed ≤ double_alloc fuel needed a
unfolding double_alloc
double_alloc-ge zero needed a pos h = omega arith
double_alloc-ge (suc f) needed a pos h = ground (arith, double_alloc-ge f needed (a * 2))

-- Doubling stops below twice what is needed.
double_alloc-lt : (fuel needed a : ℕ) → a < 2 * needed → double_alloc fuel needed a < 2 * needed
unfolding double_alloc
double_alloc-lt zero needed a h = omega arith
double_alloc-lt (suc f) needed a h = ground (arith, double_alloc-lt f needed (a * 2))

-- The copy of a string in a larger buffer.
module _ (s : Sds) (v : IsSds s) (a : ℕ) (larger : s.len ≤ a) (small : a < 2 ^ 32) where
  abbrev used : Bytes
  used = take (s.len + 1) s.buf

  abbrev copied : Bytes
  copied = copy_at 0 used (replicate (a + 1) 0)

  length-used : length used ≡ s.len + 1
  length-used = length-take (s.len + 1) s.buf (omega (arith, v.room, v.fits))

  take-copied : take (s.len + 1) copied ≡ used
  take-copied =
      take-copy_at 0 (s.len + 1) used (replicate (a + 1) 0) (omega arith)
        (omega (arith, length-used))

  copied-IsSds : IsSds (record { len = s.len; alloc = a; buf = copied })
  copied-IsSds = record {
    fits = larger;
    room =
        length-copy_at 0 used (replicate (a + 1) 0)
          (omega (arith, length-used, length-replicate {A = ℕ} (a + 1) 0))
        ∙ length-replicate (a + 1) 0;
    small = small;
    ended =
        sym (get_or-take (s.len + 1) s.len copied 1 (omega arith))
        ∙ ap (λ b. get_or b s.len 1) take-copied
        ∙ get_or-take (s.len + 1) s.len s.buf 1 (omega arith)
        ∙ v.ended;
  }

  contents-copied : take s.len copied ≡ contents s
  contents-copied =
      sym (take-take s.len (s.len + 1) copied (omega arith))
      ∙ ap (take s.len) take-copied
      ∙ take-take s.len (s.len + 1) s.buf (omega arith)

-- The size that `sds_grow` asks for is enough and does not overflow.
grown_size :
    (s : Sds) (needed : ℕ)
    → s.alloc < needed
    → needed < 2 ^ 31
    → (needed ≤ double_alloc needed needed (if s.alloc == 0 then 1 else s.alloc))
      × (double_alloc needed needed (if s.alloc == 0 then 1 else s.alloc) < 2 ^ 32)
grown_size s needed h small =
    let start : ℕ = if s.alloc == 0 then 1 else s.alloc in
    let pos : 0 < start = ground arith in
    let low : start < 2 * needed = ground arith in
    (
      double_alloc-ge needed needed start pos (omega arith),
      omega (arith, double_alloc-lt needed needed start low),
    )

-- Growing keeps a well-formed buffer well formed, keeps its length and contents, and leaves room
-- for `addlen` more bytes, when these end below 2 ^ 31.
pub sds_grow_lem :
    (s : Sds) (addlen : ℕ)
    → IsSds s
    → s.len + addlen < 2 ^ 31
    → IsSds (sds_grow s addlen)
      × (s.len + addlen ≤ (sds_grow s addlen).alloc)
      × ((sds_grow s addlen).len ≡ s.len)
      × (contents (sds_grow s addlen) ≡ contents s)
unfolding sds_grow
sds_grow_lem s addlen v small = elim (Bool-cases (leb (s.len + addlen) s.alloc)) [
  | inl enough ↦ rw enough (v, ground arith, refl, refl)
  | inr short ↦
      let needed = s.len + addlen in
      let a = double_alloc needed needed (if s.alloc == 0 then 1 else s.alloc) in
      let (enough, fits) = grown_size s needed (ground arith) small in
      let exact : u32 a ≡ a = omega arith in
      rw (short, exact)
        (
          copied-IsSds s v a (omega arith) fits,
          enough,
          refl,
          contents-copied s v a (omega arith) fits,
        )
]

-- Appending puts the bytes behind the contents, and keeps the buffer well formed, when the buffer
-- is well formed and the result is shorter than 2 ^ 31 bytes.
pub sds_cat_lem :
    (dest : Sds) (bytes : Bytes)
    → IsSds dest
    → dest.len + length bytes < 2 ^ 31
    → IsSds (sds_cat dest bytes) × (contents (sds_cat dest bytes) ≡ contents dest ++ bytes)
unfolding sds_cat
sds_cat_lem dest bytes v small =
    let (valid, enough, same_len, same) = sds_grow_lem dest (length bytes) v small in
    let g = sds_grow dest (length bytes) in
    let n : u32 (dest.len + length bytes) ≡ dest.len + length bytes = omega arith in
    let (sized, ended, kept) =
      copy_end dest.len (dest.len + length bytes) bytes g.buf (omega (arith, valid.room)) refl in
    (
      record {
        fits = rw n enough;
        room = sized ∙ valid.room;
        small = valid.small;
        ended = rw n ended;
      },
      rw n (kept ∙ ap (λ b. b ++ bytes) (rw same_len at same)),
    )
