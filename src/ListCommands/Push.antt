-- ===== src/ListCommands/Push.antt =====
-- credish_module.c: LPUSH and RPUSH, against the map from keys to sequences.
use credish.Prelude.{
  ◌≡◌, refl, sym, ◌∙◌, ap, true, false, Option, none, some, List, [], ◌∷◌, ◌++◌, map, length,
  if◌then◌else◌, is_some, bind_some,
}
use credish.Sds.{Bytes}
use credish.Keys.{sds_dict_type}
use credish.Dict.Placed.{view}
use credish.Adlist.{Adlist, adlist_create, adlist_push_head, adlist_push_tail}
use credish.Adlist.Linked.{Cells, Holds, values, adlist_create-IsList}
use credish.Adlist.Push.{adlist_push_head_lem, adlist_push_tail_lem}
use credish.Object.{obj_string, obj_list, obj_set, obj_zset, obj_hash}
use credish.Db.{CredishDb, db_lookup, write_object, db_set}
use credish.Db.Refines.{IsDb, live, db_set_lem, Writes-at}
use credish.Db.Lookup.{db_lookup_lem, found-Same, live_object, write_object-Writes}
use credish.Commands.{Clock, Store}
use credish.Commands.Set.{Touches, Touches-trans, Purges-Touches, Writes-Touches, purged_deadline}
use credish.ListCommands.{
  ListReply, length_reply, Value, converted, push_all, log_pushed, obj_create_list, push_to,
}

map-append {ℓ κ} :
    {A : Type ℓ} {B : Type κ} (f : A → B) (xs ys : List A) → map f (xs ++ ys) ≡ map f xs ++ map f ys
map-append f [] ys = refl
map-append f (x ∷ xs) ys = ap (λ l. f x ∷ l) (map-append f xs ys)

pub length-values : {A : Type 0} (cells : Cells A) → length (values cells) ≡ length cells
unfolding values
length-values [] = refl
length-values (c ∷ cells) = rw (length-values cells) refl

-- The sequence after the values are added one after the other.
unfoldable pub added : (Bytes → List Bytes → List Bytes) → List Bytes → List Bytes → List Bytes
added add [] xs = xs
added add (val ∷ vals) xs = added add vals (add val xs)

-- To the front, so that the last value comes first; and to the back.
abbrev pub to_front : Bytes → List Bytes → List Bytes
to_front val xs = val ∷ xs

abbrev pub to_back : Bytes → List Bytes → List Bytes
to_back val xs = xs ++ val ∷ []

-- An insertion that does not fault, and adds a value to the sequence.
abbrev pub Adds :
    (Adlist Bytes → Bytes → Option (Adlist Bytes)) → (Bytes → List Bytes → List Bytes) → Type 0
Adds push add =
    (l : Adlist Bytes) (xs : List Bytes) (val : Bytes)
    → Holds l xs
    → (l' : Adlist Bytes) × (push l val ≡ some l') × Holds l' (add val xs)

pub adlist_push_head-Adds : Adds adlist_push_head to_front
unfolding Holds values
adlist_push_head-Adds l xs val (cells, v, e) =
    let (l', step, v') = adlist_push_head_lem val v in (l', step, (_, v', ap (λ xs. val ∷ xs) e))

pub adlist_push_tail-Adds : Adds adlist_push_tail to_back
unfolding Holds values
adlist_push_tail-Adds l xs val (cells, v, e) =
    let (l', step, v') = adlist_push_tail_lem val v in
    (
      l',
      step,
      (_, v', map-append (λ c. c.1) cells ((l.fresh, val) ∷ []) ∙ ap (λ xs. xs ++ val ∷ []) e),
    )

push_all_lem :
    {push : Adlist Bytes → Bytes → Option (Adlist Bytes)} (add : Bytes → List Bytes → List Bytes)
    → Adds push add
    → (vals : List (Option Bytes)) (l : Adlist Bytes) (xs : List Bytes) → Holds l xs
    → (l' : Adlist Bytes) × (push_all push l vals ≡ some l')
      × Holds l' (added add (converted vals) xs)
unfolding push_all converted added
push_all_lem add adds [] l xs h = (l, refl, h)
push_all_lem add adds (none ∷ vals) l xs h = push_all_lem add adds vals l xs h
push_all_lem {push} add adds (some val ∷ vals) l xs h =
    let (l', step, h') = adds l xs val h in
    let (l'', rest, h'') = push_all_lem add adds vals l' _ h' in
    (l'', bind_some (λ k. push_all push k vals) step ∙ rest, h'')

pub length-Holds : (l : Adlist Bytes) (xs : List Bytes) → Holds l xs → l.len ≡ length xs
unfolding Holds
length-Holds l xs (cells, v, e) = v.len ∙ sym (length-values cells) ∙ ap length e

pub no_list : Holds {A = Bytes} adlist_create []
unfolding Holds values
no_list = ([], adlist_create-IsList, refl)

module _ {Z : Type 0} where
  -- The lists of the database stand for sequences.
  unfoldable pub ListsAreValid : CredishDb (Value Z) → Type 0
  ListsAreValid db =
      (q : Bytes) (l : Adlist Bytes)
      → view db.keys q ≡ some (obj_list l)
      → (xs : List Bytes) × Holds l xs

  -- The sequence of what is live under a key, `[]` without a key.
  unfoldable pub Sequence : Option (Value Z) → List Bytes → Type 0
  Sequence none xs = xs ≡ []
  Sequence (some (obj_list l)) xs = Holds l xs
  Sequence (some _) xs = true ≡ false

  -- `cmd` has put the sequence `xs` under the key, whose object was `o`, and logged the values.
  pub record Pushed (store : Store (Adlist Bytes) Z) (cmd key : Bytes) (vals : List (Option Bytes))
      (xs : List Bytes) (o : Option (Value Z)) (r : Store (Adlist Bytes) Z × ListReply)
      : Type 0 where
    pub touches : Touches store.db key r.0.db
    pub list : Adlist Bytes
    pub stored : view r.0.db.keys key ≡ some (obj_list list)
    pub holds : Holds list xs
    pub answer : r.1 ≡ length_reply vals (length xs)
    pub deadline : view r.0.db.expires key ≡ (if is_some o then view store.db.expires key else none)
    pub logged : r.0.aof_file ≡ log_pushed store.aof_file cmd key (converted vals)

  module _ {push : Adlist Bytes → Bytes → Option (Adlist Bytes)}
      (add : Bytes → List Bytes → List Bytes) (adds : Adds push add) (cmd : Bytes) where
    push_to-list-Pushed :
        (store : Store (Adlist Bytes) Z) {db : CredishDb (Value Z)} (key : Bytes)
        (vals : List (Option Bytes)) (l : Adlist Bytes) (xs : List Bytes)
        → Touches store.db key db
        → (view db.expires key ≡ view store.db.expires key)
        → view db.keys key ≡ some (obj_list l)
        → Holds l xs
        → (r : Store (Adlist Bytes) Z × ListReply) × (push_to store db cmd key push vals
              (some (obj_list l))
            ≡ some r)
          × Pushed store cmd key vals (added add (converted vals) xs) (some (obj_list l)) r
    unfolding push_to
    push_to-list-Pushed store {db} key vals l xs t same present h =
        let (l', step, h') = push_all_lem add adds vals l xs h in
        let w = write_object-Writes key (obj_list l') t.valid present in
        (
          (
            record {
              db = write_object db key (obj_list l');
              aof_file = log_pushed store.aof_file cmd key (converted vals);
            },
            length_reply vals l'.len,
          ),
          bind_some _ step,
          record {
            touches = Touches-trans t (Writes-Touches w);
            list = l';
            stored = (Writes-at w).0;
            holds = h';
            answer = ap (length_reply vals) (length-Holds l' _ h');
            deadline = (Writes-at w).1 ∙ same;
            logged = refl;
          },
        )

    push_to-none-Pushed :
        (store : Store (Adlist Bytes) Z) {db : CredishDb (Value Z)} (key : Bytes)
        (vals : List (Option Bytes))
        → Touches store.db key db
        → view db.expires key ≡ none
        → (r : Store (Adlist Bytes) Z × ListReply) × (push_to store db cmd key push vals none
            ≡ some r)
          × Pushed store cmd key vals (added add (converted vals) []) none r
    unfolding push_to obj_create_list
    push_to-none-Pushed store {db} key vals t fresh =
        let (l', step, h') = push_all_lem add adds vals adlist_create [] no_list in
        let new = db_set_lem key obj_create_list t.valid in
        let w = write_object-Writes key (obj_list l') new.valid (Writes-at new).0 in
        (
          (
            record {
              db = write_object (db_set db key obj_create_list) key (obj_list l');
              aof_file = log_pushed store.aof_file cmd key (converted vals);
            },
            length_reply vals l'.len,
          ),
          bind_some _ step,
          record {
            touches = Touches-trans t (Touches-trans (Writes-Touches new) (Writes-Touches w));
            list = l';
            stored = (Writes-at w).0;
            holds = h';
            answer = ap (length_reply vals) (length-Holds l' _ h');
            deadline = (Writes-at w).1 ∙ (Writes-at new).1 ∙ fresh;
            logged = refl;
          },
        )

    pub push_to-Pushed :
        (clock : Clock) (store : Store (Adlist Bytes) Z) (key : Bytes) (vals : List (Option Bytes))
        (o : Option (Value Z)) (xs : List Bytes)
        → IsDb store.db
        → live (clock 0) store.db key ≡ o
        → Sequence o xs
        → (r : Store (Adlist Bytes) Z × ListReply) × (push_to store
              (db_lookup (clock 0) store.db key).0
              cmd
              key
              push
              vals
              o
            ≡ some r)
          × Pushed store cmd key vals (added add (converted vals) xs) o r
    unfolding Sequence
    push_to-Pushed clock store key vals none xs v e s =
        let p = (db_lookup_lem (clock 0) key v).0 in
        rw s (
          push_to-none-Pushed store key vals (Purges-Touches p)
            (purged_deadline v p (ap is_some e)))
    push_to-Pushed clock store key vals (some (obj_list l)) xs v e s =
        let same = (found-Same (clock 0) key v (ap is_some e)).0 in
        let p = (db_lookup_lem (clock 0) key v).0 in
        push_to-list-Pushed store key vals l xs (Purges-Touches p) (same.deadlines key)
          (same.objects key ∙ live_object (clock 0) store.db key e) s
    push_to-Pushed clock store key vals (some (obj_string _ _)) xs v e s = cc
    push_to-Pushed clock store key vals (some (obj_hash _)) xs v e s = cc
    push_to-Pushed clock store key vals (some (obj_set _)) xs v e s = cc
    push_to-Pushed clock store key vals (some (obj_zset _)) xs v e s = cc
