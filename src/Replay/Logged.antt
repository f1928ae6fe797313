-- ===== src/Replay/Logged.antt =====
-- aof.c, db.c and credish_module.c: what a step of a session logs, and the replay of that record.
use credish.Prelude.{
  ◌≡◌, refl, sym, ◌∙◌, ap, subst, Bool, true, false, Option, none, some, List, [], ◌∷◌,
  if◌then◌else◌,
}
use credish.Prelude.Int.{is_long, ℤ, pos, is_int, ◌+ℤ◌}
use credish.Prelude.{is_some}
use credish.Sds.{Bytes}
use credish.Keys.{sds_dict_type}
use credish.Adlist.{Adlist, adlist_push_head, adlist_push_tail}
use credish.Object.{obj_string, obj_steal_string_encoded}
use credish.Aof.{aof_append_len}
use credish.Db.{db_lookup, db_lookup_write}
use credish.Db.Refines.{live, db_set_lem, Writes-at}
use credish.Db.Lookup.{db_lookup-timeless}
use credish.Commands.{Clock, Store, py_set, set_allowed, set_expire_if}
use credish.Commands.Set.{Writes-Touches}
use credish.ListCommands.{ListReply, Value, converted, log_pushed, push_to, py_lpush, py_rpush}
use credish.ListCommands.Push.{Pushed}
use credish.ListCommands.Ends.{py_lpush-py_rpush}
use credish.ListCommands.Reads.{is_other}
use credish.Replay.{ListDb, credish_strcasecmp, replay_cmd}
use credish.Replay.Commands.{left, replay_set_lem, replay_push_lem}
use credish.Aof.{print_ℤ}
use credish.Counters.{CountReply, py_incrby}
use credish.Counters.Strings.{Counts, py_incrby_lem, py_incrby-run}
use credish.Replay.Numbers.{replay_incrby_lem}
use credish.Replay.Session.{
  stored-Good, incrby_cmd, incr_step, set_cmd, lpush_cmd, rpush_cmd, set_argv, FitsOne, Step,
  set_step, lpush_step, rpush_step, Good, sequence_of, Pushed-Good,
}

abbrev pub select_cmd : Bytes
select_cmd = 83 ∷ 69 ∷ 76 ∷ 69 ∷ 67 ∷ 84 ∷ []

module _ {Z : Type 0}
    (replay_zadd replay_zrem : Clock → ListDb Z → List Bytes → Option (ListDb Z)) where
  -- What a step from `s` to `t` has logged, and the replay of it from `s`.
  pub record Logged (s t : Store (Adlist Bytes) Z) : Type 0 where
    pub cmd : Bytes
    pub argv : List Bytes
    pub size : FitsOne cmd argv
    pub plain : credish_strcasecmp cmd select_cmd ≡ false
    pub file : aof_append_len s.aof_file cmd argv ≡ t.aof_file
    pub replayed :
        (clock : Clock) → replay_cmd replay_zadd replay_zrem clock s.db (cmd ∷ argv) ≡ some t.db

  set-Logged :
      (clock : Clock) (s : Store (Adlist Bytes) Z) (key val : Bytes) (encoding : ℤ)
      → is_int encoding ≡ true
      → FitsOne set_cmd (set_argv key val encoding)
      → Logged s (py_set clock s key val (pos 0) (pos 0) false false encoding).0
  unfolding py_set set_allowed set_expire_if replay_cmd
  set-Logged clock s key val encoding h size = record {
    cmd = set_cmd;
    argv = set_argv key val encoding;
    size = size;
    plain = refl;
    file = refl;
    replayed = λ clock'. ap some (replay_set_lem clock clock' s key val encoding h);
  }

  set-Good :
      (clock : Clock) (s : Store (Adlist Bytes) Z) (key val : Bytes) (encoding : ℤ)
      → Good s.db
      → Good (py_set clock s key val (pos 0) (pos 0) false false encoding).0.db
  unfolding py_set set_allowed set_expire_if obj_steal_string_encoded
  set-Good clock s key val encoding g =
      let w = db_set_lem key (obj_string encoding val) g.valid in
      stored-Good key g (Writes-Touches w) (Writes-at w).0 ((Writes-at w).1 ∙ g.timeless key)

  some_same : {A : Type 0} {m : Option A} {a b : A} → m ≡ some a → m ≡ some b → a ≡ b
  some_same e f = cc (e, f)

  Pushed-file :
      (s : Store (Adlist Bytes) Z) (cmd key : Bytes) (vals : List (Option Bytes)) (xs : List Bytes)
      (o : Option (Value Z)) (r : Store (Adlist Bytes) Z × ListReply) {first : Bytes}
      {more : List Bytes}
      → converted vals ≡ first ∷ more
      → Pushed s cmd key vals xs o r
      → aof_append_len s.aof_file cmd (key ∷ converted vals) ≡ r.0.aof_file
  unfolding log_pushed
  Pushed-file s cmd key vals xs o r e p =
      ap (λ v. aof_append_len s.aof_file cmd (key ∷ v)) e
      ∙ ap (log_pushed s.aof_file cmd key) (sym e)
      ∙ sym p.logged

  -- A replay at another time looks up the same.
  replay_push-later :
      (s : Store (Adlist Bytes) Z) (clock clock' : Clock) (cmd key : Bytes)
      (push : Adlist Bytes → Bytes → Option (Adlist Bytes)) (vals : List (Option Bytes))
      → Good s.db
      → left (
          push_to s
            (db_lookup (clock' 0) s.db key).0
            cmd
            key
            push
            vals
            (db_lookup (clock' 0) s.db key).1)
        ≡ left (
            push_to s
              (db_lookup (clock 0) s.db key).0
              cmd
              key
              push
              vals
              (db_lookup (clock 0) s.db key).1)
  replay_push-later s clock clock' cmd key push vals g =
      ap (λ o. left (push_to s o.0 cmd key push vals o.1))
        (db_lookup-timeless (clock' 0) (clock 0) key g.valid (g.timeless key))

  lpush-Logged :
      (clock : Clock) (s : Store (Adlist Bytes) Z) (key : Bytes) (vals : List (Option Bytes))
      {first : Bytes} {more : List Bytes} (r : Store (Adlist Bytes) Z × ListReply)
      → Good s.db
      → converted vals ≡ first ∷ more
      → is_other (live (clock 0) s.db key) ≡ false
      → FitsOne lpush_cmd (key ∷ converted vals)
      → py_lpush clock s key vals ≡ some r
      → Logged s r.0 × Good r.0.db
  unfolding py_lpush replay_cmd db_lookup_write
  lpush-Logged clock s key vals r g e other size run =
      let (xs, held) = sequence_of clock key _ g refl other in
      let (r', run', p, lists) = (py_lpush-py_rpush clock s key vals xs g.valid g.lists held).0 in
      subst (λ k. Logged s k.0 × Good k.0.db) (some_same run' run)
        (
          record {
            cmd = lpush_cmd;
            argv = key ∷ converted vals;
            size = size;
            plain = refl;
            file = Pushed-file s lpush_cmd key vals _ _ r' e p;
            replayed = λ clock'.
                replay_push_lem s s.db clock' lpush_cmd key adlist_push_head vals e
                ∙ replay_push-later s clock clock' lpush_cmd key adlist_push_head vals g
                ∙ ap left run';
          },
          Pushed-Good lpush_cmd key vals _ _ r' g p lists,
        )

  rpush-Logged :
      (clock : Clock) (s : Store (Adlist Bytes) Z) (key : Bytes) (vals : List (Option Bytes))
      {first : Bytes} {more : List Bytes} (r : Store (Adlist Bytes) Z × ListReply)
      → Good s.db
      → converted vals ≡ first ∷ more
      → is_other (live (clock 0) s.db key) ≡ false
      → FitsOne rpush_cmd (key ∷ converted vals)
      → py_rpush clock s key vals ≡ some r
      → Logged s r.0 × Good r.0.db
  unfolding py_rpush replay_cmd db_lookup_write
  rpush-Logged clock s key vals r g e other size run =
      let (xs, held) = sequence_of clock key _ g refl other in
      let (r', run', p, lists) = (py_lpush-py_rpush clock s key vals xs g.valid g.lists held).1 in
      subst (λ k. Logged s k.0 × Good k.0.db) (some_same run' run)
        (
          record {
            cmd = rpush_cmd;
            argv = key ∷ converted vals;
            size = size;
            plain = refl;
            file = Pushed-file s rpush_cmd key vals _ _ r' e p;
            replayed = λ clock'.
                replay_push_lem s s.db clock' rpush_cmd key adlist_push_tail vals e
                ∙ replay_push-later s clock clock' rpush_cmd key adlist_push_tail vals g
                ∙ ap left run';
          },
          Pushed-Good rpush_cmd key vals _ _ r' g p lists,
        )

  incr-Logged :
      (clock : Clock) (s : Store (Adlist Bytes) Z) (key : Bytes) (amount n : ℤ)
      (r : Store (Adlist Bytes) Z × CountReply)
      → Good s.db
      → Counts (live (clock 0) s.db key) n
      → is_long amount ≡ true
      → is_long (n +ℤ amount) ≡ true
      → FitsOne incrby_cmd (key ∷ print_ℤ amount ∷ [])
      → py_incrby clock s key amount ≡ some r
      → Logged s r.0 × Good r.0.db
  unfolding replay_cmd
  incr-Logged clock s key amount n r g c h h' size run =
      let (r', run', counted, again) = py_incrby_lem clock key amount n g.valid c h' in
      let literal = py_incrby-run clock s key amount n g.valid c h' in
      subst (λ k. Logged s k.0 × Good k.0.db) (some_same literal run)
        (
          record {
            cmd = incrby_cmd;
            argv = key ∷ print_ℤ amount ∷ [];
            size = size;
            plain = refl;
            file = refl;
            replayed = λ clock'.
                ap some (replay_incrby_lem clock clock' key amount n g.valid (g.timeless key) c h);
          },
          subst (λ k. Good k.0.db) (some_same run' literal)
              (stored-Good key g counted.touches counted.stored
                (counted.deadline ∙ nothing (is_some (live (clock 0) s.db key)) (g.timeless key))),
        )
    where
      nothing : (b : Bool) {t : Option ℤ} → t ≡ none → (if b then t else none) ≡ none
      nothing true e = e
      nothing false e = refl

  pub Step-Logged : {s t : Store (Adlist Bytes) Z} → Good s.db → Step s t → Logged s t × Good t.db
  Step-Logged {s} g (set_step clock key val encoding h size) =
      (set-Logged clock s key val encoding h size, set-Good clock s key val encoding g)
  Step-Logged {s} g (lpush_step clock key vals {r = r} e other size run) =
      lpush-Logged clock s key vals r g e other size run
  Step-Logged {s} g (rpush_step clock key vals {r = r} e other size run) =
      rpush-Logged clock s key vals r g e other size run
  Step-Logged {s} g (incr_step clock key amount n {r = r} c h h' size run) =
      incr-Logged clock s key amount n r g c h h' size run
