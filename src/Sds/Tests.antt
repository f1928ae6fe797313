-- ===== src/Sds/Tests.antt =====
-- The theorems on strings, at concrete strings.
use Prim.Native.Nat.{Ordering}
use credish.Prelude.{◌≡◌, refl, ◌<◌, ◌+◌, ◌^◌, ◌++◌, [], ◌∷◌, arith, length}
use credish.Sds.{Bytes, contents, sds_newlen, sds_cat, sds_cmp}
use credish.Sds.Buffer.{IsSds, sds_newlen_lem, sds_cat_lem}

abbrev ab : Bytes
ab = 97 ∷ 98 ∷ []

abbrev abc : Bytes
abc = 97 ∷ 98 ∷ 99 ∷ []

abbrev b : Bytes
b = 98 ∷ []

shorter : sds_cmp ab abc ≡ Ordering.lt
unfolding sds_cmp
shorter = refl

smaller : sds_cmp abc b ≡ Ordering.lt
unfolding sds_cmp
smaller = refl

short : length ab < 2 ^ 32
short = omega arith

fits : (sds_newlen ab).len + length abc < 2 ^ 31
unfolding sds_newlen
fits = omega arith

sds_cat_lem_example :
    IsSds (sds_cat (sds_newlen ab) abc)
    × (contents (sds_cat (sds_newlen ab) abc) ≡ contents (sds_newlen ab) ++ abc)
sds_cat_lem_example = sds_cat_lem (sds_newlen ab) abc (sds_newlen_lem ab short).0 fits

room : (sds_newlen ab).len + 5 < 2 ^ 31
unfolding sds_newlen
room = omega arith
