-- ===== src/PyObject.antt =====
-- credish_module.c and hash.c: the conversions of the Python objects that the commands are given.
use credish.Prelude.{Option, none, some, ◌∷◌}
use credish.Prelude.Int.{ℤ}
use credish.Sds.{Bytes}
use credish.Aof.{print_ℤ}

-- A Python object by what the conversions ask of it: the bytes of a bytes object, the UTF-8 of a
-- string if it has one, an int that fits a `long long`, a float by what `%.17g` prints of it.
pub data PyObject : Type 0 where
  bytes_object : Bytes → PyObject
  str_object : (utf8 : Option Bytes) → PyObject
  int_object : ℤ → PyObject
  float_object : (printed : Bytes) → PyObject
  other_object : PyObject

-- `none` where an exception is set, here and below.
pub decode_key : PyObject → Option Bytes
decode_key (bytes_object bytes) = some bytes
decode_key (str_object utf8) = utf8
decode_key _ = none

unfoldable pub pyobj_to_sds : PyObject → Option Bytes
pyobj_to_sds (bytes_object bytes) = some bytes
pyobj_to_sds (str_object utf8) = utf8
pyobj_to_sds (int_object n) = some (print_ℤ n)
pyobj_to_sds (float_object printed) = some printed
pyobj_to_sds other_object = none

-- The tag of `object.h` before the payload.
unfoldable pub pyobj_to_tagged_sds : PyObject → Option Bytes
pyobj_to_tagged_sds (bytes_object bytes) = some (0 ∷ bytes)
pyobj_to_tagged_sds (str_object none) = none
pyobj_to_tagged_sds (str_object (some utf8)) = some (2 ∷ utf8)
pyobj_to_tagged_sds (int_object n) = some (3 ∷ print_ℤ n)
pyobj_to_tagged_sds (float_object printed) = some (4 ∷ printed)
pyobj_to_tagged_sds other_object = none
