-- ===== src/Replay/Numbers.antt =====
-- aof.c and credish_module.c: the replay of the record of INCRBY against the command.
use credish.Prelude.{
  ◌≡◌, sym, ◌∙◌, ap, true, Option, none, some, [], ◌∷◌, take, Bool-cases, inl, inr,
}
use credish.Prelude.Int.{is_long, ℤ, ◌+ℤ◌}
use credish.Sds.{Bytes}
use credish.Keys.{sds_dict_type}
use credish.Dict.Placed.{view}
use credish.Object.{obj_string, obj_list, obj_hash, obj_set, obj_zset, obj_create_string}
use credish.Aof.{print_ℤ}
use credish.Aof.Read.{strtoll, strtoll_end}
use credish.Aof.Read.Numbers.{strtoll-print_ℤ}
use credish.Db.{db_lookup, db_set}
use credish.Db.Refines.{IsDb, live}
use credish.Db.Lookup.{db_lookup_lem, db_lookup-timeless}
use credish.Commands.{Clock}
use credish.ListCommands.{Value}
use credish.Counters.{at_end, parse_number}
use credish.Counters.Strings.{Counts}
use credish.Replay.{ListDb, number_of, replay_incrby}

parse_number-strtoll :
    (bytes : Bytes) (n : ℤ) → parse_number bytes ≡ some n → strtoll (take 63 bytes) ≡ n
unfolding parse_number
parse_number-strtoll bytes n e = elim (Bool-cases (at_end (strtoll_end (take 63 bytes)))) [
  | inl h ↦ cc (h, e)
  | inr h ↦ cc (h, e)
]

module _ {Z : Type 0} where
  number_of_lem : (o : Option (Value Z)) (n : ℤ) → Counts o n → number_of o ≡ n
  unfolding number_of Counts
  number_of_lem none n c = sym c
  number_of_lem (some (obj_string encoding bytes)) n c = parse_number-strtoll bytes n c
  number_of_lem (some (obj_list _)) n c = cc
  number_of_lem (some (obj_hash _)) n c = cc
  number_of_lem (some (obj_set _)) n c = cc
  number_of_lem (some (obj_zset _)) n c = cc

  pub replay_incrby_lem :
      (clock clock' : Clock) {db : ListDb Z} (key : Bytes) (amount n : ℤ)
      → IsDb db
      → view db.expires key ≡ none
      → Counts (live (clock 0) db key) n
      → is_long amount ≡ true
      → replay_incrby clock' db (key ∷ print_ℤ amount ∷ [])
        ≡ db_set (db_lookup (clock 0) db key).0 key (obj_create_string (print_ℤ (n +ℤ amount)))
  unfolding replay_incrby
  replay_incrby_lem clock clock' {db} key amount n v timeless c h =
      ap
        (λ o.
          db_set o.0 key (obj_create_string (print_ℤ (number_of o.1 +ℤ strtoll (print_ℤ amount)))))
        (db_lookup-timeless (clock' 0) (clock 0) key v timeless)
      ∙ ap
          (λ m.
            db_set (db_lookup (clock 0) db key).0 key
              (obj_create_string (print_ℤ (m +ℤ strtoll (print_ℤ amount)))))
          (ap number_of (db_lookup_lem (clock 0) key v).1 ∙ number_of_lem _ n c)
      ∙ ap (λ m. db_set (db_lookup (clock 0) db key).0 key (obj_create_string (print_ℤ (n +ℤ m))))
          (strtoll-print_ℤ amount h)
