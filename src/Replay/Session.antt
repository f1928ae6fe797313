-- ===== src/Replay/Session.antt =====
-- aof.c, db.c and credish_module.c: the commands of a session, as steps between stores, and what the
-- append-only file is worth after each.
use credish.Prelude.{
  ◌≡◌, refl, ◌∙◌, Bool, true, false, Option, none, some, List, [], ◌∷◌, is_some, Bool-cases, inl,
  inr, if◌then◌else◌,
}
use credish.Prelude.Int.{is_long, ℤ, pos, is_int, ◌+ℤ◌}
use credish.Sds.{Bytes}
use credish.Keys.{sds_dict_type, dict_cmp_sds, dict_cmp_sds_iff}
use credish.Dict.Placed.{view}
use credish.Adlist.{Adlist}
use credish.Object.{obj_string, obj_list, obj_set, obj_zset, obj_hash}
use credish.Aof.{print_ℤ}
use credish.Aof.Read.RoundTrip.{fits}
use credish.Db.{db_create}
use credish.Db.Refines.{IsDb, live, db_create_lem, db_create-empty}
use credish.Db.Lookup.{live_object}
use credish.Commands.{Clock, Store, py_set}
use credish.ListCommands.{ListReply, Value, converted, py_lpush, py_rpush}
use credish.ListCommands.Push.{ListsAreValid, Sequence, Pushed}
use credish.ListCommands.Reads.{is_other}
use credish.Counters.{CountReply, py_incrby}
use credish.Counters.Strings.{Counts}
use credish.Commands.Set.{Touches}
use credish.Prelude.{sym}
use credish.Replay.{ListDb}

abbrev pub set_cmd : Bytes
set_cmd = 83 ∷ 69 ∷ 84 ∷ []

abbrev pub lpush_cmd : Bytes
lpush_cmd = 76 ∷ 80 ∷ 85 ∷ 83 ∷ 72 ∷ []

abbrev pub rpush_cmd : Bytes
rpush_cmd = 82 ∷ 80 ∷ 85 ∷ 83 ∷ 72 ∷ []

abbrev pub incrby_cmd : Bytes
incrby_cmd = 73 ∷ 78 ∷ 67 ∷ 82 ∷ 66 ∷ 89 ∷ []

abbrev pub set_argv : Bytes → Bytes → ℤ → List Bytes
set_argv key val encoding = key ∷ val ∷ (70 ∷ 77 ∷ 84 ∷ []) ∷ print_ℤ encoding ∷ []

abbrev pub FitsOne : Bytes → List Bytes → Type 0
FitsOne cmd argv = fits ((cmd, argv) ∷ []) ≡ true

module _ {Z : Type 0} where
  -- A command of the session: SET without conditions and expiry; LPUSH and RPUSH under a key that is
  -- not live or is a list, with a value that converts; INCRBY under a key that is not live or holds a
  -- number, with an amount and a sum of type `long long`. What is logged has lengths of type `int`.
  pub data Step (s : Store (Adlist Bytes) Z) : Store (Adlist Bytes) Z → Type 0 where
    set_step :
        (clock : Clock) (key val : Bytes) (encoding : ℤ)
        → is_int encoding ≡ true
        → FitsOne set_cmd (set_argv key val encoding)
        → Step s (py_set clock s key val (pos 0) (pos 0) false false encoding).0
    lpush_step :
        (clock : Clock) (key : Bytes) (vals : List (Option Bytes)) {first : Bytes}
        {more : List Bytes} {r : Store (Adlist Bytes) Z × ListReply}
        → converted vals ≡ first ∷ more
        → is_other (live (clock 0) s.db key) ≡ false
        → FitsOne lpush_cmd (key ∷ converted vals)
        → py_lpush clock s key vals ≡ some r
        → Step s r.0
    rpush_step :
        (clock : Clock) (key : Bytes) (vals : List (Option Bytes)) {first : Bytes}
        {more : List Bytes} {r : Store (Adlist Bytes) Z × ListReply}
        → converted vals ≡ first ∷ more
        → is_other (live (clock 0) s.db key) ≡ false
        → FitsOne rpush_cmd (key ∷ converted vals)
        → py_rpush clock s key vals ≡ some r
        → Step s r.0
    incr_step :
        (clock : Clock) (key : Bytes) (amount n : ℤ) {r : Store (Adlist Bytes) Z × CountReply}
        → Counts (live (clock 0) s.db key) n
        → is_long amount ≡ true
        → is_long (n +ℤ amount) ≡ true
        → FitsOne incrby_cmd (key ∷ print_ℤ amount ∷ [])
        → py_incrby clock s key amount ≡ some r
        → Step s r.0

  -- The stores after the steps of a session that starts with an empty database and an empty file.
  pub data Reach : Store (Adlist Bytes) Z → Type 0 where
    started : Reach (record { db = db_create; aof_file = some [] })
    later : {s t : Store (Adlist Bytes) Z} → Reach s → Step s t → Reach t

  -- The database is well formed, its lists stand for sequences, and no key has a deadline.
  pub record Good (db : ListDb Z) : Type 0 where
    pub valid : IsDb db
    pub lists : ListsAreValid db
    pub timeless : (q : Bytes) → view db.expires q ≡ none

  pub started-Good : Good db_create
  unfolding ListsAreValid
  started-Good = record {
    valid = db_create_lem.0;
    lists = λ q l h. cc (h, (db_create-empty {V = Value Z} q).0);
    timeless = λ q. (db_create-empty {V = Value Z} q).1;
  }

  pub sequence_of :
      (clock : Clock) {db : ListDb Z} (key : Bytes) (o : Option (Value Z))
      → Good db
      → live (clock 0) db key ≡ o
      → is_other o ≡ false
      → (xs : List Bytes) × Sequence o xs
  unfolding Sequence is_other ListsAreValid
  sequence_of clock key none g e h = ([], refl)
  sequence_of clock {db} key (some (obj_list l)) g e h =
      g.lists key l (live_object (clock 0) db key e)
  sequence_of clock key (some (obj_string _ _)) g e h = cc
  sequence_of clock key (some (obj_hash _)) g e h = cc
  sequence_of clock key (some (obj_set _)) g e h = cc
  sequence_of clock key (some (obj_zset _)) g e h = cc

  pub Pushed-Good :
      {s : Store (Adlist Bytes) Z} (cmd key : Bytes) (vals : List (Option Bytes)) (xs : List Bytes)
      (o : Option (Value Z)) (r : Store (Adlist Bytes) Z × ListReply)
      → Good s.db
      → Pushed s cmd key vals xs o r
      → ListsAreValid r.0.db
      → Good r.0.db
  Pushed-Good {s} cmd key vals xs o r g p lists = record {
    valid = p.touches.valid;
    lists = lists;
    timeless = λ q. elim (Bool-cases (dict_cmp_sds key q)) [
      | inl e ↦
          rw ((dict_cmp_sds_iff key q).0 e) at (p.deadline ∙ nothing (is_some o) (g.timeless key))
      | inr ne ↦ p.touches.deadlines q ne ∙ g.timeless q
    ];
  }
    where
      nothing : (b : Bool) {t : Option ℤ} → t ≡ none → (if b then t else none) ≡ none
      nothing true e = e
      nothing false e = refl

  -- A string without a deadline has been stored.
  pub stored-Good :
      {db db' : ListDb Z} (key : Bytes) {encoding : ℤ} {val : Bytes}
      → Good db
      → Touches db key db'
      → view db'.keys key ≡ some (obj_string encoding val)
      → view db'.expires key ≡ none
      → Good db'
  unfolding ListsAreValid
  stored-Good {db} {db'} key g t stored none_left = record {
    valid = t.valid;
    lists = λ q l h. elim (Bool-cases (dict_cmp_sds key q)) [
      | inl e ↦ cc (stored, (dict_cmp_sds_iff key q).0 e, h)
      | inr ne ↦ g.lists q l (sym (t.objects q ne) ∙ h)
    ];
    timeless = λ q. elim (Bool-cases (dict_cmp_sds key q)) [
      | inl e ↦ rw ((dict_cmp_sds_iff key q).0 e) at none_left
      | inr ne ↦ t.deadlines q ne ∙ g.timeless q
    ];
  }
