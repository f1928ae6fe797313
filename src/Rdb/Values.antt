-- ===== src/Rdb/Values.antt =====
-- persistence/rdb.c: a list or a hash that was saved is loaded.
use credish.Prelude.{
  suc, ◌%◌, ◌<◌, ◌≡◌, refl, sym, ◌∙◌, ap, Bool, true, ◌&&◌, none, some, List, [], ◌∷◌, ◌++◌, length,
  arith, ltb, bind_some, append_assoc, append-nil,
}
use credish.Sds.{Bytes}
use credish.Keys.{sds_dict_type}
use credish.Adlist.{Ptr, Nodes, Adlist, adlist_create}
use credish.Adlist.Linked.{Cells, Linked, Holds, first_or, values}
use credish.ListCommands.Push.{adlist_push_tail-Adds, length-Holds, no_list}
use credish.Hash.Fields.{written}
use credish.Rdb.{
  Out, w_bytes, u32_bytes, w_u32, w_sds, save_nodes, save_list, load_elems, load_list,
}
use credish.Rdb.Words.{r_u32-u32_bytes, sds_bytes, file-w_sds, r_sds-sds_bytes}

-- Lengths fit 32 bits.
unfoldable pub fit_u32 : List Bytes → Bool
fit_u32 [] = true
fit_u32 (s ∷ strings) = ltb (length s) 4294967296 && fit_u32 strings

strings_bytes : List Bytes → Bytes
strings_bytes [] = []
strings_bytes (s ∷ strings) = sds_bytes s ++ strings_bytes strings

save_nodes_lem :
    (nodes : Nodes Bytes) (prev : Ptr) (cells : Cells Bytes) (out : Out)
    → Linked nodes prev none cells
    → fit_u32 (values cells) ≡ true
    → (out' : Out) × (save_nodes (length cells) nodes (first_or none cells) out ≡ some out')
      × (out'.file ≡ out.file ++ strings_bytes (values cells))
unfolding save_nodes Linked values fit_u32 strings_bytes
save_nodes_lem nodes prev [] out l h = (out, refl, sym (append-nil out.file))
save_nodes_lem nodes prev ((a, s) ∷ cells) out l h =
    let (out', step, written) =
      save_nodes_lem nodes (some a) cells (w_sds out s) l.1 (ground arith) in
    (
      out',
      bind_some _ l.0 ∙ step,
      written
          ∙ ap (λ f. f ++ strings_bytes (values cells)) (file-w_sds out s (ground arith))
          ∙ append_assoc out.file (sds_bytes s) (strings_bytes (values cells)),
    )

load_strings :
    (xs : List Bytes) (l : Adlist Bytes) (ys : List Bytes) (rest : Bytes)
    → fit_u32 xs ≡ true
    → Holds l ys
    → (l' : Adlist Bytes) × (load_elems (length xs) l (strings_bytes xs ++ rest) ≡ some (l', rest))
      × Holds l' (ys ++ xs)
unfolding load_elems strings_bytes fit_u32
load_strings [] l ys rest h held = (l, refl, rw (append-nil ys) held)
load_strings (x ∷ xs) l ys rest h held =
    let (l', step, held') = adlist_push_tail-Adds l ys x held in
    let (l'', more, held'') = load_strings xs l' (ys ++ x ∷ []) rest (ground arith) held' in
    (
      l'',
      ap (load_elems (suc (length xs)) l) (append_assoc (sds_bytes x) (strings_bytes xs) rest)
          ∙ bind_some _ (r_sds-sds_bytes x (strings_bytes xs ++ rest) (ground arith))
          ∙ bind_some _ step
          ∙ more,
      rw (append_assoc ys (x ∷ []) xs) at held'',
    )

save_list_lem :
    (out : Out) (l : Adlist Bytes) (xs : List Bytes)
    → Holds l xs
    → length xs < 4294967296
    → fit_u32 xs ≡ true
    → (out' : Out) × (save_list out l ≡ some out')
      × (out'.file ≡ out.file ++ (u32_bytes (length xs) ++ strings_bytes xs))
unfolding save_list w_u32 w_bytes Holds
save_list_lem out l xs (cells, v, e) h fit =
    let (out', step, wrote) =
      save_nodes_lem l.nodes none cells (w_u32 out (length xs)) v.linked (rw e fit) in
    let size : l.len ≡ length xs = length-Holds l xs (cells, v, e) in
    let same : l.len % 4294967296 ≡ length xs = omega (arith, size, h) in
    (
      out',
      ap (λ n. save_nodes n l.nodes l.head (w_u32 out (l.len % 4294967296))) v.len
          ∙ ap (λ p. save_nodes (length cells) l.nodes p (w_u32 out (l.len % 4294967296))) v.head
          ∙ ap (λ n. save_nodes (length cells) l.nodes (first_or none cells) (w_u32 out n)) same
          ∙ step,
      wrote
          ∙ ap (λ ys. (w_u32 out (length xs)).file ++ strings_bytes ys) e
          ∙ append_assoc out.file (u32_bytes (length xs)) (strings_bytes xs),
    )

-- A list that `save_list` wrote is read by the case `OBJ_LIST` of `rdb_load`, whatever follows: the list that
-- it makes stands for the same sequence, and the rest of the file is left. The lengths fit 32 bits.
pub load_list-save_list :
    (out : Out) (l : Adlist Bytes) (xs : List Bytes) (rest : Bytes)
    → Holds l xs
    → length xs < 4294967296
    → fit_u32 xs ≡ true
    → (bytes : Bytes) × (out' : Out) × (l' : Adlist Bytes) × (save_list out l ≡ some out')
      × (out'.file ≡ out.file ++ bytes)
      × (load_list (bytes ++ rest) ≡ some (l', rest))
      × Holds l' xs
unfolding load_list
load_list-save_list out l xs rest held h fit =
    let (out', step, wrote) = save_list_lem out l xs held h fit in
    let (l', read, held') = load_strings xs adlist_create [] rest fit no_list in
    (
      u32_bytes (length xs) ++ strings_bytes xs,
      out',
      l',
      step,
      wrote,
      ap load_list (append_assoc (u32_bytes (length xs)) (strings_bytes xs) rest)
          ∙ bind_some _ (r_u32-u32_bytes (length xs) (strings_bytes xs ++ rest) h)
          ∙ read,
      held',
    )
