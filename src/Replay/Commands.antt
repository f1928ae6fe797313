-- ===== src/Replay/Commands.antt =====
-- aof.c, credish_module.c and hash.c: the replay of the record of a command against the command.
use credish.Prelude.{
  ◌≡◌, refl, sym, ◌∙◌, ap, true, false, Option, none, some, List, [], ◌∷◌, map, ◌>>=◌,
}
use credish.Prelude.Int.{ℤ, pos, is_int}
use credish.Sds.{Bytes}
use credish.Keys.{sds_dict_type}
use credish.Adlist.{Adlist, adlist_create, adlist_push_head, adlist_push_tail}
use credish.Object.{
  obj_string, obj_list, obj_hash, obj_set, obj_zset, obj_create_string_encoded,
  obj_steal_string_encoded,
}
use credish.Aof.{print_ℤ}
use credish.Aof.Read.Digits.{atoi-print_ℤ}
use credish.Db.{db_lookup, db_lookup_write, db_set, write_object}
use credish.Commands.{Clock, Store, py_set, set_allowed, set_expire_if}
use credish.ListCommands.{Value, converted, push_all, push_to, py_lpush, py_rpush, obj_create_list}
use credish.Replay.{
  ListDb, replay_cmd, replay_set, find_encoding, replay_expires, push_into, replay_push,
}

bind-same :
    {A B : Type 0} (m : Option A) {f g : A → Option B}
    → ((a : A) → f a ≡ g a)
    → (m >>= f) ≡ (m >>= g)
bind-same none h = refl
bind-same (some a) h = h a

push_all-converted :
    (push : Adlist Bytes → Bytes → Option (Adlist Bytes)) (l : Adlist Bytes)
    (vals : List (Option Bytes))
    → push_all push l (map some (converted vals)) ≡ push_all push l vals
unfolding push_all converted
push_all-converted push l [] = refl
push_all-converted push l (none ∷ vals) = push_all-converted push l vals
push_all-converted push l (some val ∷ vals) =
    bind-same (push l val) (λ k. push_all-converted push k vals)

module _ {Z : Type 0} where
  -- The database that a command leaves.
  abbrev pub left : {R : Type 0} → Option (Store (Adlist Bytes) Z × R) → Option (ListDb Z)
  left none = none
  left (some r) = some r.0.db

  left-bind :
      {A R : Type 0} (m : Option A) (f : A → Option (Store (Adlist Bytes) Z × R))
      → left (m >>= f) ≡ (m >>= (λ a. left (f a)))
  left-bind none f = refl
  left-bind (some a) f = refl

  push_into-push_to :
      (store : Store (Adlist Bytes) Z) (db : ListDb Z) (cmd key : Bytes)
      (push : Adlist Bytes → Bytes → Option (Adlist Bytes)) (vals : List (Option Bytes))
      (o : Option (Value Z))
      → push_into db key push (converted vals) o ≡ left (push_to store db cmd key push vals o)
  unfolding push_into push_to
  push_into-push_to store db cmd key push vals none =
      ap (λ m. m >>= (λ l. some (write_object (db_set db key obj_create_list) key (obj_list l))))
        (push_all-converted push adlist_create vals)
      ∙ sym (left-bind (push_all push adlist_create vals) _)
  push_into-push_to store db cmd key push vals (some (obj_list l)) =
      ap (λ m. m >>= (λ k. some (write_object db key (obj_list k))))
        (push_all-converted push l vals)
      ∙ sym (left-bind (push_all push l vals) _)
  push_into-push_to store db cmd key push vals (some (obj_string _ _)) = refl
  push_into-push_to store db cmd key push vals (some (obj_hash _)) = refl
  push_into-push_to store db cmd key push vals (some (obj_set _)) = refl
  push_into-push_to store db cmd key push vals (some (obj_zset _)) = refl

  pub replay_push_lem :
      (store : Store (Adlist Bytes) Z) (db : ListDb Z) (clock : Clock) (cmd key : Bytes)
      (push : Adlist Bytes → Bytes → Option (Adlist Bytes)) (vals : List (Option Bytes))
      {val : Bytes} {more : List Bytes}
      → converted vals ≡ val ∷ more
      → replay_push push clock db (key ∷ converted vals)
        ≡ left (
            push_to store
              (db_lookup (clock 0) db key).0
              cmd
              key
              push
              vals
              (db_lookup (clock 0) db key).1)
  unfolding replay_push
  replay_push_lem store db clock cmd key push vals e =
      ap (λ c. replay_push push clock db (key ∷ c)) e
      ∙ ap (λ c. push_into (db_lookup (clock 0) db key).0 key push c (db_lookup (clock 0) db key).1)
          (sym e)
      ∙ push_into-push_to store (db_lookup (clock 0) db key).0 cmd key push vals
          (db_lookup (clock 0) db key).1

  pub replay_set_lem :
      (clock clock' : Clock) (store : Store (Adlist Bytes) Z) (key val : Bytes) (encoding : ℤ)
      → is_int encoding ≡ true
      → replay_set clock' store.db (key ∷ val ∷ (70 ∷ 77 ∷ 84 ∷ []) ∷ print_ℤ encoding ∷ [])
        ≡ (py_set clock store key val (pos 0) (pos 0) false false encoding).0.db
  unfolding replay_set find_encoding replay_expires py_set set_allowed set_expire_if
      obj_create_string_encoded obj_steal_string_encoded
  replay_set_lem clock clock' store key val encoding h =
      ap (λ n. db_set store.db key (obj_string n val)) (atoi-print_ℤ encoding h)

  module _ (replay_zadd replay_zrem : Clock → ListDb Z → List Bytes → Option (ListDb Z)) where
    -- The replay of the record of SET without conditions and expiry, of LPUSH and of RPUSH leaves the
    -- database in the very state in which the command left it, from the same state. For the last two
    -- the clock reads the same time, and a value converts; the encoding is of type `int`.
    pub replay_cmd-commands :
        (clock : Clock) (store : Store (Adlist Bytes) Z) (key val : Bytes) (encoding : ℤ)
        (vals : List (Option Bytes)) {first : Bytes} {more : List Bytes}
        → is_int encoding ≡ true
        → converted vals ≡ first ∷ more
        → (replay_cmd replay_zadd replay_zrem clock store.db
              ((83 ∷ 69 ∷ 84 ∷ []) ∷ key ∷ val ∷ (70 ∷ 77 ∷ 84 ∷ []) ∷ print_ℤ encoding ∷ [])
            ≡ some (py_set clock store key val (pos 0) (pos 0) false false encoding).0.db)
          × (replay_cmd replay_zadd replay_zrem clock store.db
                ((76 ∷ 80 ∷ 85 ∷ 83 ∷ 72 ∷ []) ∷ key ∷ converted vals)
              ≡ left (py_lpush clock store key vals))
          × (replay_cmd replay_zadd replay_zrem clock store.db
                ((82 ∷ 80 ∷ 85 ∷ 83 ∷ 72 ∷ []) ∷ key ∷ converted vals)
              ≡ left (py_rpush clock store key vals))
    unfolding replay_cmd py_lpush py_rpush db_lookup_write
    replay_cmd-commands clock store key val encoding vals h e = (
      ap some (replay_set_lem clock clock store key val encoding h),
      replay_push_lem store store.db clock (76 ∷ 80 ∷ 85 ∷ 83 ∷ 72 ∷ []) key adlist_push_head vals
          e,
      replay_push_lem store store.db clock (82 ∷ 80 ∷ 85 ∷ 83 ∷ 72 ∷ []) key adlist_push_tail vals
          e,
    )
