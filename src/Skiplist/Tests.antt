-- ===== src/Skiplist/Tests.antt =====
-- skiplist.c: the skip list on small inputs, and the theorems about it at concrete ones.
use Prim.Native.Nat.{compare}
use credish.Prelude.{ℕ, ◌+◌, ◌≡◌, refl, some, List, [], ◌∷◌, arith}
use credish.Sds.{sds_cmp}
use credish.Skiplist.{
  Doubles, Zskiplist, node_cmp, node_lt, node_gt, raise, link, unlink, bump_spans, sub32,
  trim_level, zsl_create, zsl_insert, zsl_delete, zsl_get_rank, zsl_get_element_by_rank,
}
use credish.Skiplist.Valid.{IsOrder, Ascending}
use credish.Skiplist.Order.{Holds, put_item, remove_item, has_item}
use credish.Skiplist.Create.{zsl_create-Holds}
use credish.Skiplist.Insert.{zsl_insert_lem}
use credish.Skiplist.Delete.{zsl_delete_lem}

-- Whole numbers as scores.
abbrev pub nat_doubles : Doubles ℕ
nat_doubles = record { zero_point = 0; cmp = compare; add = λ a b. some (a + b) }

pub nat-IsOrder : IsOrder nat_doubles
nat-IsOrder = record {
  cmp_refl = λ a. ground arith;
  cmp_flip = λ a b. ground arith;
  cmp_trans = λ a b c h k. ground arith;
  cmp_eq = λ a b c h. ground arith;
}

-- The results of `rand` that give one level, two, and three.
abbrev to_one : List ℕ
to_one = 20000 ∷ []

abbrev to_two : List ℕ
to_two = 5 ∷ 20000 ∷ []

abbrev to_three : List ℕ
to_three = 5 ∷ 5 ∷ 20000 ∷ []

abbrev just_b : Zskiplist ℕ
just_b = zsl_insert nat_doubles to_two (zsl_create nat_doubles) 2 (98 ∷ [])

abbrev b_and_c : Zskiplist ℕ
b_and_c = zsl_insert nat_doubles to_three just_b 3 (99 ∷ [])

abbrev all_three : Zskiplist ℕ
all_three = zsl_insert nat_doubles to_one b_and_c 1 (97 ∷ [])

ranks :
    zsl_get_rank nat_doubles all_three 1 (97 ∷ [])
      ∷ zsl_get_rank nat_doubles all_three 2 (98 ∷ [])
      ∷ zsl_get_rank nat_doubles all_three 3 (99 ∷ [])
      ∷ []
    ≡ 1 ∷ 2 ∷ 3 ∷ []
unfolding node_lt node_gt zsl_create zsl_insert zsl_get_rank sds_cmp raise link bump_spans sub32
ranks = refl

without_b : Zskiplist ℕ
without_b = (zsl_delete nat_doubles all_three 2 (98 ∷ [])).0

after_delete :
    zsl_get_rank nat_doubles without_b 3 (99 ∷ [])
      ∷ zsl_get_rank nat_doubles without_b 2 (98 ∷ [])
      ∷ []
    ≡ 2 ∷ 0 ∷ []
unfolding node_lt node_gt without_b zsl_create zsl_insert zsl_delete zsl_get_rank sds_cmp raise link
    unlink bump_spans sub32 trim_level
after_delete = refl

element : zsl_get_element_by_rank all_three 3 ≡ some 2
unfolding node_lt zsl_create zsl_insert zsl_get_element_by_rank sds_cmp raise link bump_spans sub32
element = refl

-- The skip lists of the tests, by the theorems.
just_b-Holds : Holds just_b ((98 ∷ [], 2) ∷ [])
unfolding put_item
just_b-Holds =
    zsl_insert_lem nat-IsOrder to_two (zsl_create nat_doubles) 2 (98 ∷ []) []
      (zsl_create-Holds nat_doubles) tt tt (omega arith)

b_and_c-Holds : Holds b_and_c ((98 ∷ [], 2) ∷ (99 ∷ [], 3) ∷ [])
unfolding put_item node_cmp
b_and_c-Holds =
    zsl_insert_lem nat-IsOrder to_three just_b 3 (99 ∷ []) ((98 ∷ [], 2) ∷ []) just_b-Holds (tt, tt)
      (λ h. cc h, tt) (omega arith)

ascending : Ascending nat_doubles ((98 ∷ [], 2) ∷ (99 ∷ [], 3) ∷ [])
unfolding node_cmp
ascending = ((refl, tt), (tt, tt))

zsl_insert_lem_example :
    Holds all_three (put_item nat_doubles (97 ∷ [], 1) ((98 ∷ [], 2) ∷ (99 ∷ [], 3) ∷ []))
unfolding node_cmp
zsl_insert_lem_example =
    zsl_insert_lem nat-IsOrder to_one b_and_c 1 (97 ∷ []) ((98 ∷ [], 2) ∷ (99 ∷ [], 3) ∷ [])
      b_and_c-Holds ascending (λ h. cc h, (λ h. cc h, tt)) (omega arith)

zsl_delete_lem_example :
    Holds
      (zsl_delete nat_doubles b_and_c 2 (98 ∷ [])).0
      (remove_item nat_doubles (98 ∷ [], 2) ((98 ∷ [], 2) ∷ (99 ∷ [], 3) ∷ []))
    × ((zsl_delete nat_doubles b_and_c 2 (98 ∷ [])).1
        ≡ has_item nat_doubles (98 ∷ [], 2) ((98 ∷ [], 2) ∷ (99 ∷ [], 3) ∷ []))
zsl_delete_lem_example =
    zsl_delete_lem nat-IsOrder b_and_c 2 (98 ∷ []) ((98 ∷ [], 2) ∷ (99 ∷ [], 3) ∷ []) b_and_c-Holds
      ascending (omega arith)
