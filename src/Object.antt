-- ===== src/Object.antt =====
-- object.c and object.h: the values of the key space.
use credish.Prelude.{Bool, true, false, Option, none, some, length}
use credish.Prelude.Int.{ℤ, pos, to_int}
use credish.Sds.{Bytes}
use credish.Dict.{Dict, dict_create}

-- `credishObject`: the type tag with what `ptr` points to. `L` and `Z` are the representations of
-- lists and sorted sets, which the code that is modelled over this type does not look into. The
-- encoding of an object that is not a string is always `OBJ_ENCODING_RAW`.
pub data CredishObject (L Z : Type 0) : Type 0 where
  obj_string : (encoding : ℤ) → Bytes → CredishObject L Z
  obj_list : L → CredishObject L Z
  obj_set : Dict Bytes (Unit {0}) → CredishObject L Z
  obj_zset : Z → CredishObject L Z
  obj_hash : Dict Bytes Bytes → CredishObject L Z

abbrev pub obj_encoding_raw : ℤ
obj_encoding_raw = pos 0

abbrev pub obj_encoding_str : ℤ
obj_encoding_str = pos 2

abbrev pub obj_encoding_int : ℤ
obj_encoding_int = pos 3

abbrev pub obj_encoding_float : ℤ
obj_encoding_float = pos 4

module _ {L Z : Type 0} where
  unfoldable pub obj_create_string_encoded : Bytes → ℤ → CredishObject L Z
  obj_create_string_encoded bytes encoding = obj_string encoding bytes

  -- The object takes the string over.
  unfoldable pub obj_steal_string_encoded : Bytes → ℤ → CredishObject L Z
  obj_steal_string_encoded str encoding = obj_string encoding str

  unfoldable pub obj_create_string : Bytes → CredishObject L Z
  unfolding obj_create_string_encoded
  obj_create_string bytes = obj_create_string_encoded bytes obj_encoding_raw

  unfoldable pub obj_create_hash : CredishObject L Z
  obj_create_hash = obj_hash dict_create

  pub obj_create_set : CredishObject L Z
  obj_create_set = obj_set dict_create

  pub obj_is_string : Option (CredishObject L Z) → Bool
  obj_is_string (some (obj_string encoding bytes)) = true
  obj_is_string _ = false

  -- The bytes that the result points to, and `*len_out`.
  pub obj_string_ptr : Option (CredishObject L Z) → Option (Bytes × ℤ)
  obj_string_ptr (some (obj_string encoding bytes)) = some (bytes, to_int (pos (length bytes)))
  obj_string_ptr _ = none
