-- ===== src/Keys.antt =====
-- dict.c: dictionaries whose keys are strings, by the contents of the keys.
use Prim.Native.Nat.{Ordering}
use credish.Prelude.{ℕ, ◌*◌, ◌%◌, ◌^◌, bit_xor, ◌≡◌, ◌↔◌, Bool, true, false, [], ◌∷◌, arith}
use credish.Sds.{Bytes, sds_cmp}
use credish.Sds.Order.{sds_cmp_eq}
use credish.Dict.Entry.{DictType}

-- The loop of `dict_hash_sds` over the bytes.
hash_bytes : ℕ → Bytes → ℕ
hash_bytes h [] = h
hash_bytes h (c ∷ bytes) = hash_bytes (bit_xor h c * 0x100000001b3 % 2 ^ 64) bytes

unfoldable pub dict_hash_sds : Bytes → ℕ
unfolding hash_bytes
dict_hash_sds key = hash_bytes 0xcbf29ce484222325 key

-- Whether `dict_cmp_sds` returns 0.
unfoldable pub dict_cmp_sds : Bytes → Bytes → Bool
dict_cmp_sds a b = elim (sds_cmp a b) [
  | Ordering.lt ↦ false
  | Ordering.eq ↦ true
  | Ordering.gt ↦ false
]

pub dict_cmp_sds_iff : (a b : Bytes) → (dict_cmp_sds a b ≡ true) ↔ (a ≡ b)
unfolding dict_cmp_sds
dict_cmp_sds_iff a b =
    (λ h. (sds_cmp_eq a b).0 (ground arith), λ e. rw ((sds_cmp_eq a b).1 e, dict_cmp_sds))

-- The hash and the comparison of `keyspace_type` and `expires_type`, of hashes, sets and sorted sets.
instance abbrev pub sds_dict_type : DictType Bytes
sds_dict_type = record {
  hash = dict_hash_sds;
  key_cmp = dict_cmp_sds;
  key_cmp_iff = dict_cmp_sds_iff;
}
