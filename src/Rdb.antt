-- ===== src/Rdb.antt =====
-- persistence/rdb.c: the numbers, strings, lists and hashes of a snapshot, as they are written and read.
-- A write is taken to succeed. A result `none` of a reader is the use of bytes that a file that ends
-- too early has not given; `none` of a writer is the access of a node that is not there.
pub mod Words
pub mod Longs
pub mod Values
pub mod Hashes
mod Tests
use credish.Prelude.{
  ℕ, zero, suc, ◌+◌, ◌-◌, ◌*◌, ◌/◌, ◌%◌, bit_xor, bit_and, Bool, true, false, Option, none, some,
  List, [], ◌∷◌, ◌++◌, length, take, drop, if◌then◌else◌, ◌==◌, ltb, ◌>>=◌,
}
use credish.Prelude.Int.{ℤ, pos, negsuc}
use credish.Sds.{Bytes}
use credish.Keys.{sds_dict_type}
use credish.Dict.{Dict, dict_create, dict_size, dict_replace}
use credish.Dict.Iterator.{dict_entries}
use credish.Adlist.{Ptr, Nodes, Adlist, adlist_create, adlist_push_tail}

-- What is written so far, and `g_crc`.
pub record Out : Type 0 where
  pub file : Bytes
  pub g_crc : ℕ

-- The inner loop of `crc32_init`, for the rounds left.
crc32_round : (j c : ℕ) → ℕ
crc32_round zero c = c
crc32_round (suc j) c = crc32_round j (if c % 2 == 0 then c / 2 else bit_xor 0xEDB88320 (c / 2))

-- An entry of `crc32_table`.
crc32_table : ℕ → ℕ
unfolding crc32_round
crc32_table i = crc32_round 8 i

crc32_bytes : (crc : ℕ) → Bytes → ℕ
unfolding crc32_table
crc32_bytes crc [] = crc
crc32_bytes crc (c ∷ buf) =
    crc32_bytes (bit_xor (crc32_table (bit_and (bit_xor crc c) 255)) (crc / 256)) buf

-- The complements are of 32 bits.
pub crc32_update : (crc : ℕ) → Bytes → ℕ
unfolding crc32_bytes
crc32_update crc buf = 4294967295 - crc32_bytes (4294967295 - crc) buf

-- `w_raw` and the update of `g_crc`.
w_bytes : Out → Bytes → Out
unfolding crc32_update
w_bytes out bytes = record { file = out.file ++ bytes; g_crc = crc32_update out.g_crc bytes }

-- The four bytes `b` of `w_u32`.
pub u32_bytes : ℕ → Bytes
u32_bytes v = v / 16777216 % 256 ∷ v / 65536 % 256 ∷ v / 256 % 256 ∷ v % 256 ∷ []

pub w_u8 : Out → ℕ → Out
unfolding w_bytes
w_u8 out v = w_bytes out (v % 256 ∷ [])

pub w_u32 : Out → ℕ → Out
unfolding w_bytes u32_bytes
w_u32 out v = w_bytes out (u32_bytes v)

-- The conversion of an `int64_t` to `uint64_t`, and back.
pub to_u64 : ℤ → ℕ
to_u64 (pos n) = n % 18446744073709551616
to_u64 (negsuc n) = 18446744073709551615 - n % 18446744073709551616

pub to_i64 : ℕ → ℤ
to_i64 u = if ltb u 9223372036854775808 then pos u else negsuc (18446744073709551615 - u)

-- The loop of `w_i64`, which fills `b` from its end.
pub i64_bytes : (rounds u : ℕ) → Bytes → Bytes
i64_bytes zero u b = b
i64_bytes (suc rounds) u b = i64_bytes rounds (u / 256) (u % 256 ∷ b)

pub w_i64 : Out → ℤ → Out
unfolding w_bytes i64_bytes to_u64
w_i64 out v = w_bytes out (i64_bytes 8 (to_u64 v) [])

pub w_blob : Out → Bytes → (len : ℕ) → Out
unfolding w_u32
w_blob out bytes len = w_bytes (w_u32 out len) (take len bytes)

-- With the conversion of the length to 32 bits.
pub w_sds : Out → Bytes → Out
unfolding w_blob
w_sds out s = w_blob out s (length s % 4294967296)

pub save_string : Out → Bytes → Out
save_string out s = w_sds out s

-- The loop of `save_list`, for at most as many rounds as the list has nodes.
pub save_nodes : (rounds : ℕ) → Nodes Bytes → Ptr → Out → Option Out
save_nodes rounds nodes none out = some out
save_nodes zero nodes (some p) out = none
save_nodes (suc rounds) nodes (some p) out = do
  node ← nodes p
  save_nodes rounds nodes node.next (w_sds out node.value)

pub save_list : Out → Adlist Bytes → Option Out
unfolding save_nodes
save_list out l = save_nodes l.len l.nodes l.head (w_u32 out (l.len % 4294967296))

-- The loop of `save_hash`.
pub save_entries : Out → List (Bytes × Bytes) → Out
save_entries out [] = out
save_entries out ((key, val) ∷ entries) = save_entries (w_sds (w_sds out key) val) entries

pub save_hash : Out → Dict Bytes Bytes → Out
unfolding save_entries
save_hash out d = save_entries (w_u32 out (dict_size d % 4294967296)) (dict_entries d)

-- At the end of the file, 0.
pub r_u8 : Bytes → ℕ × Bytes
r_u8 [] = (0, [])
r_u8 (c ∷ file) = (c, file)

-- Bytes do not overlap, so that `|` adds them.
pub r_u32 : Bytes → Option (ℕ × Bytes)
r_u32 (a ∷ b ∷ c ∷ d ∷ file) = some (a * 16777216 + b * 65536 + c * 256 + d, file)
r_u32 _ = none

-- The loop of `r_i64`.
pub shift_in : ℕ → Bytes → ℕ
shift_in v [] = v
shift_in v (c ∷ b) = shift_in (v * 256 + c) b

pub r_i64 : Bytes → Option (ℤ × Bytes)
unfolding shift_in to_i64
r_i64 file =
    if ltb (length file) 8 then none else some (to_i64 (shift_in 0 (take 8 file)), drop 8 file)

read_string : (len : ℕ) → Bytes → Option (Bytes × Bytes)
read_string len file = if ltb (length file) len then none else some (take len file, drop len file)

pub r_sds : Bytes → Option (Bytes × Bytes)
unfolding r_u32 read_string
r_sds file = do len ← r_u32 file; read_string len.0 len.1

-- The loop of the case `OBJ_LIST` of `rdb_load`.
pub load_elems : (n : ℕ) → Adlist Bytes → Bytes → Option (Adlist Bytes × Bytes)
unfolding r_sds
load_elems zero l file = some (l, file)
load_elems (suc n) l file = do
  elem ← r_sds file
  l' ← adlist_push_tail l elem.0
  load_elems n l' elem.1

pub load_list : Bytes → Option (Adlist Bytes × Bytes)
unfolding load_elems
load_list file = do n ← r_u32 file; load_elems n.0 adlist_create n.1

-- The loop of the case `OBJ_HASH`.
pub load_fields : (n : ℕ) → Dict Bytes Bytes → Bytes → Option (Dict Bytes Bytes × Bytes)
unfolding r_sds
load_fields zero d file = some (d, file)
load_fields (suc n) d file = do
  field ← r_sds file
  val ← r_sds field.1
  load_fields n (dict_replace d field.0 val.0).0 val.1

pub load_hash : Bytes → Option (Dict Bytes Bytes × Bytes)
unfolding load_fields
load_hash file = do n ← r_u32 file; load_fields n.0 dict_create n.1
