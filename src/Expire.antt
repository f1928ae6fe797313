-- ===== src/Expire.antt =====
-- expire.c: one sweep of a database by the background thread. The random number and the times that
-- are read are arguments.
pub mod Sweep
mod Tests
use credish.Prelude.{
  ℕ, zero, suc, ◌+◌, ◌*◌, ◌%◌, Bool, true, false, ◌&&◌, Option, none, some, List, [], ◌∷◌, length,
  if◌then◌else◌, ltb, leb, ◌==◌, is_some,
}
use credish.Prelude.Int.{ℤ, ltb_ℤ}
use credish.Sds.{Bytes}
use credish.Keys.{sds_dict_type}
use credish.Dict.{Dict, dict_size, dict_delete}
use credish.Dict.Iterator.{DictIterator, dict_iter_new, dict_iter_next, dict_iter_free}
use credish.Db.{CredishDb}
use credish.Commands.{Clock}

abbrev pub sweep_sample_size : ℕ
sweep_sample_size = 20

abbrev pub sweep_stop_num : ℕ
sweep_stop_num = 1

abbrev pub sweep_stop_den : ℕ
sweep_stop_den = 4

abbrev pub sweep_max_loops : ℕ
sweep_max_loops = 16

-- `while (offset-- > 0 && dict_iter_next(it) != NULL)`
skip_entries : ℕ → Dict Bytes ℤ → DictIterator Bytes ℤ → DictIterator Bytes ℤ
skip_entries zero d it = it
skip_entries (suc offset) d it =
    let next = dict_iter_next d it in
    let rest = skip_entries offset d next.0 in if is_some next.1 then rest else next.0

-- One round of the second loop by the entry that it samples, given what the rounds after it yield.
take_sample : ℤ → Option (Bytes × ℤ) → List Bytes × ℕ → List Bytes × ℕ
take_sample now none rest = ([], 0)
take_sample now (some e) rest = (if ltb_ℤ e.1 now then e.0 ∷ rest.0 else rest.0, rest.1 + 1)

-- The second loop from the i-th sample on, with `room` samples left: `to_del` and how many entries
-- are sampled. Entry `i` is compared with the i-th time.
sample_entries : Clock → ℕ → ℕ → Dict Bytes ℤ → DictIterator Bytes ℤ → List Bytes × ℕ
unfolding take_sample
sample_entries clock i zero d it = ([], 0)
sample_entries clock i (suc room) d it =
    let next = dict_iter_next d it in
    take_sample (clock i) next.1 (sample_entries clock (i + 1) room d next.0)

module _ {V : Type 0} where
  delete_all : CredishDb V → List Bytes → CredishDb V
  delete_all db [] = db
  delete_all db (key ∷ keys) =
      delete_all
        (record { keys = (dict_delete db.keys key).0; expires = (dict_delete db.expires key).0 })
        keys

  -- Whether enough of the sample had expired to sweep once more. The iterator is freed before the
  -- keys are deleted.
  sweep_db_sample : Clock → (random : ℕ) → CredishDb V → CredishDb V × Bool
  unfolding sample_entries skip_entries delete_all
  sweep_db_sample clock random db =
      let total = dict_size db.expires in
      let opened = dict_iter_new db.expires in
      let it = skip_entries (random % total) opened.0 opened.1 in
      let sample = sample_entries clock 0 sweep_sample_size opened.0 it in
      let expired = length sample.0 in
      if total == 0 then (db, false) else (
        delete_all (record db { expires = dict_iter_free opened.0 }) sample.0,
        ltb 0 sample.1 && leb (sample.1 * sweep_stop_num) (expired * sweep_stop_den),
      )

  -- The loop of `sweep_db`, by the rounds left; round `n` has its own times and random number.
  sweep_loop : (ℕ → Clock) → (ℕ → ℕ) → ℕ → CredishDb V → CredishDb V
  sweep_loop clocks randoms zero db = db
  sweep_loop clocks randoms (suc n) db =
      let swept = sweep_db_sample (clocks n) (randoms n) db in
      let more = sweep_loop clocks randoms n swept.0 in
      if swept.1 then if dict_size swept.0.expires == 0 then swept.0 else more else swept.0

  pub sweep_db : (ℕ → Clock) → (ℕ → ℕ) → CredishDb V → CredishDb V
  unfolding sweep_loop
  sweep_db clocks randoms db = sweep_loop clocks randoms sweep_max_loops db
