-- ===== src/Hash/Tags.antt =====
-- hash.c: the type tag of a value, written and read back.
use credish.Prelude.{◌≡◌, refl, Option, none, some, true, false}
use credish.Sds.{Bytes}
use credish.Aof.{print_ℤ}
use credish.PyObject.{
  PyObject, bytes_object, str_object, int_object, float_object, other_object, pyobj_to_sds,
  pyobj_to_tagged_sds,
}
use credish.Hash.{
  PyItem, py_none, py_bytes, py_text, py_long, py_float, fetched_item, value_item,
  tagged_value_to_bytes, tagged_value_to_native,
}

-- What a value is as a Python object of its own type.
pub native_item : PyObject → PyItem
native_item (bytes_object bytes) = py_bytes bytes
native_item (str_object none) = py_none
native_item (str_object (some utf8)) = py_text utf8
native_item (int_object n) = py_long (print_ℤ n)
native_item (float_object printed) = py_float printed
native_item other_object = py_none

-- What a value is as bytes, when it can be converted.
pub bytes_item : Option Bytes → PyItem
bytes_item none = py_none
bytes_item (some payload) = py_bytes payload

-- A value that is tagged, stored and fetched comes back, with `native`, through the constructor of
-- its own type over its bytes, and without it as the bytes that `pyobj_to_sds` makes of it; a value
-- that cannot be tagged is one that `pyobj_to_sds` cannot convert either.
pub pyobj_to_tagged_sds_lem :
    (value : PyObject)
    → (fetched_item true (pyobj_to_tagged_sds value) ≡ native_item value)
      × (fetched_item false (pyobj_to_tagged_sds value) ≡ bytes_item (pyobj_to_sds value))
unfolding value_item tagged_value_to_bytes tagged_value_to_native pyobj_to_tagged_sds pyobj_to_sds
    native_item bytes_item
pyobj_to_tagged_sds_lem (bytes_object bytes) = (refl, refl)
pyobj_to_tagged_sds_lem (str_object none) = (refl, refl)
pyobj_to_tagged_sds_lem (str_object (some utf8)) = (refl, refl)
pyobj_to_tagged_sds_lem (int_object n) = (refl, refl)
pyobj_to_tagged_sds_lem (float_object printed) = (refl, refl)
pyobj_to_tagged_sds_lem other_object = (refl, refl)
