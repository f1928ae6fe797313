-- ===== src/Rdb/Hashes.antt =====
-- persistence/rdb.c: a hash that was saved is loaded.
use credish.Prelude.{
  suc, ◌+◌, ◌%◌, ◌<◌, ◌≤◌, ◌≡◌, refl, sym, ◌∙◌, ap, Bool, true, ◌&&◌, Option, none, some, List, [],
  ◌∷◌, ◌++◌, length, arith, ltb, bind_some, append_assoc, append-nil, or_else, Bool-cases, inl, inr,
}
use credish.Sds.{Bytes}
use credish.Keys.{sds_dict_type, dict_cmp_sds}
use credish.Dict.{Dict, dict_create, dict_size, dict_replace}
use credish.Dict.Entry.{find_entry, count, find_entry_absent}
use credish.Dict.Placed.{IsValid, view}
use credish.Dict.Find.{dict_create_lem}
use credish.Dict.Insert.{dict_replace_lem}
use credish.Dict.Iterator.{dict_entries}
use credish.Dict.Iterator.Entries.{dict_entries_lem}
use credish.Hash.Fields.{written}
use credish.Rdb.{
  Out, w_bytes, u32_bytes, w_u32, w_sds, save_entries, save_hash, r_sds, load_fields, load_hash,
}
use credish.Rdb.Words.{r_u32-u32_bytes, sds_bytes, file-w_sds, r_sds-sds_bytes}

-- The lengths of the fields and values fit 32 bits.
unfoldable pub fit_entries : List (Bytes × Bytes) → Bool
fit_entries [] = true
fit_entries ((key, val) ∷ entries) =
    ltb (length key) 4294967296 && ltb (length val) 4294967296 && fit_entries entries

entries_bytes : List (Bytes × Bytes) → Bytes
entries_bytes [] = []
entries_bytes ((key, val) ∷ entries) = sds_bytes key ++ (sds_bytes val ++ entries_bytes entries)

file-save_entries :
    (entries : List (Bytes × Bytes)) (out : Out)
    → fit_entries entries ≡ true
    → (save_entries out entries).file ≡ out.file ++ entries_bytes entries
unfolding save_entries entries_bytes fit_entries
file-save_entries [] out h = sym (append-nil out.file)
file-save_entries ((key, val) ∷ entries) out h =
    file-save_entries entries (w_sds (w_sds out key) val) (ground arith)
    ∙ ap (λ f. f ++ entries_bytes entries) (file-w_sds (w_sds out key) val (ground arith))
    ∙ ap (λ f. f ++ sds_bytes val ++ entries_bytes entries) (file-w_sds out key (ground arith))
    ∙ simp append_assoc refl

load_entries :
    (entries : List (Bytes × Bytes)) (d : Dict Bytes Bytes) (rest : Bytes)
    → fit_entries entries ≡ true
    → IsValid d
    → (d' : Dict Bytes Bytes) × (load_fields (length entries) d (entries_bytes entries ++ rest)
        ≡ some (d', rest))
      × IsValid d'
      × ((q : Bytes) → view d' q ≡ written entries q (view d q))
unfolding load_fields entries_bytes fit_entries written
load_entries [] d rest h v = (d, refl, v, λ q. refl)
load_entries ((key, val) ∷ entries) d rest h v =
    let (done, u) = dict_replace_lem key val v in
    let (d', step, v', w) =
      load_entries entries (dict_replace d key val).0 rest (ground arith) u.valid in
    (
      d',
      ap (load_fields (suc (length entries)) d)
            (append_assoc (sds_bytes key) (sds_bytes val ++ entries_bytes entries) rest)
          ∙ bind_some _ (
              r_sds-sds_bytes key ((sds_bytes val ++ entries_bytes entries) ++ rest) (ground arith))
          ∙ bind_some _ (
              ap r_sds (append_assoc (sds_bytes val) (entries_bytes entries) rest)
              ∙ r_sds-sds_bytes val (entries_bytes entries ++ rest) (ground arith))
          ∙ step,
      v',
      λ q. w q ∙ ap (written entries q) (u.same q),
    )

-- Where no key has two entries, the last one written is the first one found.
written-find_entry :
    (entries : List (Bytes × Bytes)) (q : Bytes) (old : Option Bytes)
    → count q entries ≤ 1
    → written entries q old ≡ or_else (find_entry q entries) old
unfolding written count find_entry
written-find_entry [] q old h = refl
written-find_entry ((key, val) ∷ entries) q old h = elim (Bool-cases (dict_cmp_sds key q)) [
  | inl e ↦
      let once : 1 + count q entries ≤ 1 = rw e at h in
      rw e (
        written-find_entry entries q (some val) (omega (arith, once))
        ∙ ap (λ m. or_else m (some val)) (find_entry_absent q entries (omega (arith, once))))
  | inr e ↦
      let once : 0 + count q entries ≤ 1 = rw e at h in
      rw e (written-find_entry entries q old (omega (arith, once)))
]

or_none : (m : Option Bytes) → or_else m none ≡ m
or_none none = refl
or_none (some v) = refl

-- A hash that `save_hash` wrote is read by the case `OBJ_HASH` of `rdb_load`, whatever follows: the
-- dictionary that it makes is valid and stands for the same map, and the rest of the file is left. The
-- dictionary is valid, and its size and the lengths of its strings fit 32 bits.
pub load_hash-save_hash :
    (out : Out) (d : Dict Bytes Bytes) (rest : Bytes)
    → IsValid d
    → dict_size d < 4294967296
    → fit_entries (dict_entries d) ≡ true
    → (bytes : Bytes) × (d' : Dict Bytes Bytes) × ((save_hash out d).file ≡ out.file ++ bytes)
      × (load_hash (bytes ++ rest) ≡ some (d', rest))
      × IsValid d'
      × ((q : Bytes) → view d' q ≡ view d q)
unfolding load_hash save_hash w_u32 w_bytes
load_hash-save_hash out d rest v h fit =
    let (all, each) = dict_entries_lem v in
    let same : dict_size d % 4294967296 ≡ length (dict_entries d) = omega (arith, all, h) in
    let (empty, nothing) = dict_create_lem {K = Bytes} {V = Bytes} in
    let (d', read, v', w) = load_entries (dict_entries d) dict_create rest fit empty in
    (
      u32_bytes (length (dict_entries d)) ++ entries_bytes (dict_entries d),
      d',
      file-save_entries (dict_entries d) (w_u32 out (dict_size d % 4294967296)) fit
          ∙ ap (λ n. (out.file ++ u32_bytes n) ++ entries_bytes (dict_entries d)) same
          ∙ append_assoc out.file (u32_bytes (length (dict_entries d)))
              (entries_bytes (dict_entries d)),
      ap load_hash (
            append_assoc (u32_bytes (length (dict_entries d))) (entries_bytes (dict_entries d))
              rest)
          ∙ bind_some (λ x. load_fields x.0 dict_create x.1)
              (r_u32-u32_bytes (length (dict_entries d)) (entries_bytes (dict_entries d) ++ rest)
                (omega (arith, all, h)))
          ∙ read,
      v',
      λ q.
          w q
          ∙ ap (written (dict_entries d) q) (nothing q)
          ∙ written-find_entry (dict_entries d) q none (each q).0
          ∙ or_none (find_entry q (dict_entries d))
          ∙ (each q).1,
    )
