-- ===== src/Skiplist/Create.antt =====
-- skiplist.c: `zsl_create` makes a well-formed skip list without nodes.
use credish.Prelude.{refl, [], arith}
use credish.Skiplist.{Doubles, zsl_create}
use credish.Skiplist.Lanes.{skip}
use credish.Skiplist.Order.{Holds}

pub zsl_create-Holds : {D : Type 0} (doubles : Doubles D) → Holds (zsl_create doubles) []
unfolding zsl_create skip
zsl_create-Holds doubles = record {
  places = [];
  valid = record {
    lanes = λ i lt. (λ t. (refl, refl), tt);
    above = λ i le. refl;
    header = refl;
    levels = omega arith;
    heights = tt;
    allocated = tt;
    distinct = (tt, tt);
    fresh = omega arith;
    backs = tt;
    tail = refl;
    len = refl;
  };
  shows = refl;
}
