-- ===== src/Replay/Recovery.antt =====
-- aof.c, db.c and credish_module.c: what `aof_load` makes of the file of a session.
use credish.Prelude.{
  ℕ, ◌+◌, ◌≡◌, refl, sym, ◌∙◌, ap, true, false, Option, some, List, [], ◌∷◌, ◌++◌, arith, map,
  append-nil, bind_some, update, if_false, ◌==◌, ◌>>=◌,
}
use credish.Prelude.Int.{pos}
use credish.Sds.{Bytes}
use credish.Adlist.{Adlist}
use credish.Aof.{aof_append_len}
use credish.Aof.Read.RoundTrip.{append_all, fits, file_commands-aof_append_len}
use credish.Db.{db_create}
use credish.Commands.{Clock, Store}
use credish.Replay.{ListDb, credish_strcasecmp, replay_cmd}
use credish.Replay.Load.{store_select_db, next_db, replay_on, replay_commands, aof_load}
use credish.Replay.Session.{FitsOne, Step, Reach, started, later, Good, started-Good}
use credish.Replay.Logged.{select_cmd, Logged, Step-Logged}

-- The argument array of a logged command.
abbrev whole : Bytes × List Bytes → List Bytes
whole c = c.0 ∷ c.1

same_db :
    (cmd : Bytes) (argv : List Bytes)
    → credish_strcasecmp cmd select_cmd ≡ false
    → next_db (pos 0) (cmd ∷ argv) ≡ pos 0
unfolding next_db
same_db cmd [] h = refl
same_db cmd (arg ∷ argv) h = if_false {b = credish_strcasecmp cmd select_cmd} _ _ h

fits-snoc :
    (log : List (Bytes × List Bytes)) (cmd : Bytes) (argv : List Bytes)
    → fits log ≡ true
    → FitsOne cmd argv
    → fits (log ++ (cmd, argv) ∷ []) ≡ true
unfolding fits
fits-snoc [] cmd argv h k = k
fits-snoc ((c, a) ∷ log) cmd argv h k = ground (arith, fits-snoc log cmd argv, h, k)

append_all-snoc :
    (file : Option Bytes) (log : List (Bytes × List Bytes)) (cmd : Bytes) (argv : List Bytes)
    → append_all file (log ++ (cmd, argv) ∷ []) ≡ aof_append_len (append_all file log) cmd argv
unfolding append_all
append_all-snoc file [] cmd argv = refl
append_all-snoc file ((c, a) ∷ log) cmd argv =
    append_all-snoc (aof_append_len file c a) log cmd argv

map-snoc :
    (log : List (Bytes × List Bytes)) (c : Bytes × List Bytes) (rest : List (List Bytes))
    → map whole (log ++ c ∷ []) ++ rest ≡ map whole log ++ whole c ∷ rest
map-snoc [] c rest = refl
map-snoc (d ∷ log) c rest = ap (λ l. whole d ∷ l) (map-snoc log c rest)

module _ {Z : Type 0}
    (replay_zadd replay_zrem : Clock → ListDb Z → List Bytes → Option (ListDb Z)) where
  -- The replay of the log from an empty database 0 leaves `db` there, and goes on with what follows.
  record Replays (clocks : ℕ → Clock) (dbs : ℕ → ListDb Z) (log : List (List Bytes)) (db : ListDb Z)
      : Type 0 where
    dbs' : ℕ → ListDb Z
    round : ℕ
    replayed :
        (rest : List (List Bytes))
        → replay_commands replay_zadd replay_zrem clocks 0 dbs (pos 0) (log ++ rest)
          ≡ replay_commands replay_zadd replay_zrem clocks round dbs' (pos 0) rest
    selected : dbs' 0 ≡ db
    others : (j : ℕ) → (0 == j) ≡ false → dbs' j ≡ dbs j

  -- The file holds the records of a log whose replay leaves the database.
  record Recovers (s : Store (Adlist Bytes) Z) : Type 0 where
    written : List (Bytes × List Bytes)
    size : fits written ≡ true
    file : append_all (some []) written ≡ s.aof_file
    replays :
        (clocks : ℕ → Clock) (dbs : ℕ → ListDb Z)
        → dbs 0 ≡ db_create
        → Replays clocks dbs (map whole written) s.db
    good : Good s.db

  started-Recovers : Recovers (record { db = db_create; aof_file = some [] })
  unfolding fits append_all
  started-Recovers = record {
    written = [];
    size = refl;
    file = refl;
    replays = λ clocks dbs h. record {
      dbs' = dbs;
      round = 0;
      replayed = λ rest. refl;
      selected = h;
      others = λ j k. refl;
    };
    good = started-Good;
  }

  one_more :
      (clocks : ℕ → Clock) (i : ℕ) (dbs : ℕ → ListDb Z) (cmd : Bytes) (argv : List Bytes)
      (rest : List (List Bytes)) {db db' : ListDb Z}
      → credish_strcasecmp cmd select_cmd ≡ false
      → dbs 0 ≡ db
      → replay_cmd replay_zadd replay_zrem (clocks i) db (cmd ∷ argv) ≡ some db'
      → replay_commands replay_zadd replay_zrem clocks i dbs (pos 0) ((cmd ∷ argv) ∷ rest)
        ≡ replay_commands replay_zadd replay_zrem clocks (i + 1) (update dbs 0 db') (pos 0) rest
  unfolding replay_commands replay_on store_select_db
  one_more clocks i dbs cmd argv rest h e run =
      ap
        (λ n.
          replay_on replay_zadd replay_zrem (clocks i) dbs n (cmd ∷ argv)
          >>= (λ dbs'. replay_commands replay_zadd replay_zrem clocks (i + 1) dbs' n rest))
        (same_db cmd argv h)
      ∙ bind_some (λ dbs'. replay_commands replay_zadd replay_zrem clocks (i + 1) dbs' (pos 0) rest)
          (bind_some (λ d. some (update dbs 0 d))
            (ap (λ d. replay_cmd replay_zadd replay_zrem (clocks i) d (cmd ∷ argv)) e ∙ run))

  Replays-snoc :
      {s t : Store (Adlist Bytes) Z} (log : List (Bytes × List Bytes))
      (l : Logged replay_zadd replay_zrem s t) (clocks : ℕ → Clock) (dbs : ℕ → ListDb Z)
      → Replays clocks dbs (map whole log) s.db
      → Replays clocks dbs (map whole (log ++ (l.cmd, l.argv) ∷ [])) t.db
  Replays-snoc {s} {t} log l clocks dbs p = record {
    dbs' = update p.dbs' 0 t.db;
    round = p.round + 1;
    replayed = λ rest.
        ap (replay_commands replay_zadd replay_zrem clocks 0 dbs (pos 0))
          (map-snoc log (l.cmd, l.argv) rest)
        ∙ p.replayed ((l.cmd ∷ l.argv) ∷ rest)
        ∙ one_more clocks p.round p.dbs' l.cmd l.argv rest l.plain p.selected
            (l.replayed (clocks p.round));
    selected = refl;
    others = λ j h. if_false {b = 0 == j} _ _ h ∙ p.others j h;
  }

  later-Recovers : {s t : Store (Adlist Bytes) Z} → Recovers s → Step s t → Recovers t
  later-Recovers {s} {t} r step =
      let (l, good) = Step-Logged replay_zadd replay_zrem r.good step in
      record {
        written = r.written ++ (l.cmd, l.argv) ∷ [];
        size = fits-snoc r.written l.cmd l.argv r.size l.size;
        file =
            append_all-snoc (some []) r.written l.cmd l.argv
            ∙ ap (λ f. aof_append_len f l.cmd l.argv) r.file
            ∙ l.file;
        replays =
            λ clocks dbs empty. Replays-snoc r.written l clocks dbs (r.replays clocks dbs empty);
        good = good;
      }

  recover : {s : Store (Adlist Bytes) Z} → Reach s → Recovers s
  recover started = started-Recovers
  recover (later reach step) = later-Recovers (recover reach) step

  -- After a session on database 0 that starts empty, whose commands are SET without NX, XX and an
  -- expiry, LPUSH and RPUSH with a value that converts under a key that is not live or is a list, and
  -- INCRBY under a key that is not live or holds a number, where the amount and the sum are of type
  -- `long long`, what is logged has lengths of type `int` and the encodings are of this type:
  -- `aof_load` of what the append-only file holds, at any times and into a store whose database 0 is
  -- empty, does not fault and leaves that database in the very state of the session, and the others
  -- as they were. The replay of sorted sets plays no part.
  pub aof_load-Reach :
      {s : Store (Adlist Bytes) Z} (clocks : ℕ → Clock) (dbs : ℕ → ListDb Z)
      → Reach s
      → dbs 0 ≡ db_create
      → (file : Bytes) × (s.aof_file ≡ some file)
        × (dbs' : ℕ → ListDb Z) × (aof_load replay_zadd replay_zrem clocks dbs file ≡ some dbs')
        × (dbs' 0 ≡ s.db)
        × ((j : ℕ) → (0 == j) ≡ false → dbs' j ≡ dbs j)
  unfolding aof_load replay_commands
  aof_load-Reach clocks dbs reach empty =
      let r = recover reach in
      let (file, holds, read) = file_commands-aof_append_len r.written r.size in
      let p = r.replays clocks dbs empty in
      (
        file,
        sym r.file ∙ holds,
        p.dbs',
        ap (replay_commands replay_zadd replay_zrem clocks 0 dbs (pos 0))
              (read ∙ sym (append-nil (map whole r.written)))
            ∙ p.replayed [],
        p.selected,
        p.others,
      )
