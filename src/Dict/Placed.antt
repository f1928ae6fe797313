-- ===== src/Dict/Placed.antt =====
-- dict.c: where the entries of a table stand, what a dictionary stands for, and what a write to one
-- bucket does to both.
use credish.Prelude.{
  ℕ, ◌+◌, ◌-◌, ◌≤◌, ◌<◌, ◌≡◌, ◌≢◌, sym, ◌∙◌, ap, Option, none, some, [], ◌∷◌, flatten, arith,
  if◌then◌else◌, ◌==◌, or_else, length, get_or, set, length-set, get_or-set, get_or-ge,
  length-flatten-set, length-get_or-le, length-eq-zero,
}
use credish.Prelude.Bits.{bit_and-le_right}
use credish.Dict.{DictTable, Dict, bucket_idx, link}
use credish.Dict.Entry.{DictType, DictEntry, Chain, find_entry, count}

module _ {K V : Type 0} ⦃type : DictType K⦄ where
  -- The bucket that a key belongs to.
  abbrev pub chain_of : K → DictTable K V → Chain K V
  chain_of q t = get_or t.buckets (bucket_idx q t) []

  -- The bookkeeping of a table fits its buckets, and every entry stands in the bucket of its key.
  pub record IsTable (t : DictTable K V) : Type 0 where
    pub sized : t.size ≡ length t.buckets
    pub masked : t.size_mask ≡ t.size - 1
    pub counted : t.used ≡ length (flatten t.buckets)
    pub placed : (q : K) (i : ℕ) → bucket_idx q t ≢ i → count q (get_or t.buckets i []) ≡ 0

  -- A dictionary outside an operation: no key occurs twice in the two tables, the second table is
  -- in use only while rehashing, and then the buckets below `rehash_idx` have been moved.
  pub record IsValid (d : Dict K V) : Type 0 where
    pub first : IsTable d.ht0
    pub second : IsTable d.ht1
    pub once : (q : K) → count q (chain_of q d.ht0) + count q (chain_of q d.ht1) ≤ 1
    pub idle : d.rehash_idx ≡ none → d.ht1.size ≡ 0
    pub busy :
        (j : ℕ)
        → d.rehash_idx ≡ some j
        → (0 < d.ht0.size) × (0 < d.ht1.size) × ((i : ℕ) → i < j → get_or d.ht0.buckets i [] ≡ [])

  -- The finite map that a dictionary stands for.
  unfoldable pub view : Dict K V → K → Option V
  view d q = or_else (find_entry q (chain_of q d.ht0)) (find_entry q (chain_of q d.ht1))

  pub bucket_idx-lt : (q : K) {t : DictTable K V} → IsTable t → 0 < t.size → bucket_idx q t < t.size
  unfolding bucket_idx
  bucket_idx-lt q {t} valid pos =
      omega (arith, bit_and-le_right (type.hash q) t.size_mask, valid.masked)

  -- An empty table has no entries.
  pub chain_of-empty : (q : K) {t : DictTable K V} → IsTable t → t.size ≡ 0 → chain_of q t ≡ []
  chain_of-empty q {t} valid e =
      get_or-ge t.buckets (bucket_idx q t) [] (omega (arith, valid.sized))

  pub chain_of-unused :
      {t : DictTable K V} (valid : IsTable t) → t.used ≡ 0 → (i : ℕ) → get_or t.buckets i [] ≡ []
  chain_of-unused {t} valid e i =
      length-eq-zero (get_or t.buckets i [])
        (omega (arith, length-get_or-le t.buckets i, valid.counted))

  -- The table with other contents in one bucket.
  abbrev pub with_bucket : DictTable K V → ℕ → Chain K V → ℕ → DictTable K V
  with_bucket t idx c used = record t { buckets = set t.buckets idx c; used = used }

  module _ {t : DictTable K V} (valid : IsTable t) {idx : ℕ} (inside : idx < t.size)
      (c : Chain K V) where
    in_range : idx < length t.buckets
    in_range = omega (arith, valid.sized)

    pub with_bucket-IsTable :
        (used : ℕ)
        → used + length (get_or t.buckets idx []) ≡ t.used + length c
        → ((q : K) → bucket_idx q t ≢ idx → count q c ≡ 0)
        → IsTable (with_bucket t idx c used)
    unfolding bucket_idx
    with_bucket-IsTable used balance home = record {
      sized = valid.sized ∙ sym (length-set t.buckets idx c);
      masked = valid.masked;
      counted = omega (arith, length-flatten-set t.buckets idx c in_range, valid.counted);
      placed = λ q i away.
          rw (get_or-set t.buckets idx i c [] in_range) (ground (arith, valid.placed q i, home q));
    }

    pub chain_of-with_bucket :
        (used : ℕ) (q : K)
        → chain_of q (with_bucket t idx c used)
          ≡ (if idx == bucket_idx q t then c else chain_of q t)
    unfolding bucket_idx
    chain_of-with_bucket used q = get_or-set t.buckets idx (bucket_idx q t) c [] in_range

  -- A new entry in front of its bucket.
  module _ {t : DictTable K V} (valid : IsTable t) (pos : 0 < t.size) (e : DictEntry K V) where
    pub link-IsTable : IsTable (link t e)
    unfolding link count
    link-IsTable =
        with_bucket-IsTable valid (bucket_idx-lt e.0 valid pos) (e ∷ chain_of e.0 t) (t.used + 1)
          (omega arith)
          λ q away. ground (
            arith,
            valid.placed q (bucket_idx e.0 t),
            type.key_cmp_iff e.0 q,
            ap (λ k. bucket_idx k t),
          )

    pub find_entry-link :
        (q : K)
        → find_entry q (chain_of q (link t e))
          ≡ (if type.key_cmp e.0 q then some e.1 else find_entry q (chain_of q t))
    unfolding link find_entry
    find_entry-link q =
        rw (chain_of-with_bucket valid (bucket_idx-lt e.0 valid pos) _ (t.used + 1) q)
          (ground (arith, type.key_cmp_iff e.0 q, ap (λ k. bucket_idx k t)))

    pub count-link :
        (q : K)
        → count q (chain_of q (link t e))
          ≡ (if type.key_cmp e.0 q then 1 else 0) + count q (chain_of q t)
    unfolding link count
    count-link q =
        rw (chain_of-with_bucket valid (bucket_idx-lt e.0 valid pos) _ (t.used + 1) q)
          (ground (arith, type.key_cmp_iff e.0 q, ap (λ k. bucket_idx k t)))

  -- A write to the home bucket of `key` that sets what is found under `key` to `v`.
  module _ {t : DictTable K V} (valid : IsTable t) (pos : 0 < t.size) (key : K) (v : Option V)
      (c : Chain K V) (used : ℕ) (balance : used + length (chain_of key t) ≡ t.used + length c)
      (few : (q : K) → count q c ≤ count q (chain_of key t))
      (reads : (q : K)
        → find_entry q c ≡ (if type.key_cmp key q then v else find_entry q (chain_of key t))) where
    pub home-IsTable : IsTable (with_bucket t (bucket_idx key t) c used)
    home-IsTable =
        with_bucket-IsTable valid (bucket_idx-lt key valid pos) c used balance
          λ q away. omega (arith, few q, valid.placed q (bucket_idx key t) away)

    pub home-count :
        (q : K)
        → count q (chain_of q (with_bucket t (bucket_idx key t) c used)) ≤ count q (chain_of q t)
    home-count q =
        rw (chain_of-with_bucket valid (bucket_idx-lt key valid pos) c used q)
          (ground (arith, few q, ap (λ i. count q (get_or t.buckets i []))))

    pub home-find_entry :
        (q : K)
        → find_entry q (chain_of q (with_bucket t (bucket_idx key t) c used))
          ≡ (if type.key_cmp key q then v else find_entry q (chain_of q t))
    home-find_entry q =
        rw (chain_of-with_bucket valid (bucket_idx-lt key valid pos) c used q)
          (ground (arith, reads q, type.key_cmp_iff key q, ap (λ k. bucket_idx k t)))
