-- ===== src/SortedSet/Tests.antt =====
-- sorted_set.c: the theorems about sorted sets at concrete inputs.
use credish.Prelude.{ℕ, ◌+◌, ◌≡◌, refl, true, false, some, List, [], ◌∷◌, arith, length}
use credish.Prelude.Int.{pos, negsuc, is_int}
use credish.Sds.{Bytes, sds_cmp}
use credish.Keys.{sds_dict_type, dict_cmp_sds}
use credish.Dict.{dict_create}
use credish.Dict.Find.{dict_create_lem}
use credish.Skiplist.{zsl_create, node_cmp}
use credish.Skiplist.Order.{put_item}
use credish.Skiplist.Create.{zsl_create-Holds}
use credish.Skiplist.Tests.{nat_doubles, nat-IsOrder}
use credish.ListCommands.Range.{slice, from_position, to_position}
use credish.SortedSet.{Zset, count_reply, no_flags, zset_add, add_all, remove_all}
use credish.SortedSet.Items.{score_of, without}
use credish.SortedSet.Queries.{rank_of, zrange_of, by_score}
use credish.SortedSet.ByScore.{between, by_score_lem}
use credish.SortedSet.Adds.{IsZset, added_to, added_over, zset_add_lem}
use credish.SortedSet.Reads.{show_all, zrange_of_lem}
use credish.SortedSet.Loops.{added_all, without_all, add_all_lem, remove_all_lem, rank_of_lem}

abbrev no_members : Zset ℕ
no_members = record { dict = dict_create; zsl = zsl_create nat_doubles }

no_members-IsZset : IsZset nat_doubles no_members []
unfolding score_of
no_members-IsZset = record {
  holds = zsl_create-Holds nat_doubles;
  ascending = tt;
  unique = tt;
  valid = dict_create_lem.0;
  scores = dict_create_lem.1;
}

-- The result of `rand` for each of the insertions.
abbrev rand : ℕ → List ℕ
rand i = 5 ∷ 20000 ∷ []

abbrev two_items : List (Bytes × ℕ)
two_items = (98 ∷ [], 2) ∷ (99 ∷ [], 3) ∷ []

abbrev two_members : Zset ℕ
two_members = (add_all nat_doubles rand no_flags false 0 no_members two_items).0

two_members-IsZset : IsZset nat_doubles two_members two_items
unfolding added_all added_to added_over score_of put_item node_cmp dict_cmp_sds sds_cmp
two_members-IsZset =
    (add_all_lem nat-IsOrder rand no_flags 0 no_members [] two_items no_members-IsZset
      (omega arith)).0

-- A member with another score.
zset_add_lem_example :
    IsZset nat_doubles
      (zset_add nat_doubles (rand 0) two_members (98 ∷ []) 7 no_flags).0
      (added_to nat_doubles no_flags (98 ∷ []) 7 two_items)
zset_add_lem_example =
    zset_add_lem nat-IsOrder (rand 0) two_members two_items (98 ∷ []) 7 no_flags two_members-IsZset
      (omega arith)

moved : added_to nat_doubles no_flags (98 ∷ []) 7 two_items ≡ (99 ∷ [], 3) ∷ (98 ∷ [], 7) ∷ []
unfolding added_to added_over score_of put_item node_cmp without dict_cmp_sds sds_cmp
moved = refl

add_all_lem_example :
    IsZset nat_doubles
      (add_all nat_doubles rand no_flags false 0 no_members two_items).0
      (added_all nat_doubles no_flags [] two_items)
    × ((add_all nat_doubles rand no_flags false 0 no_members two_items).1 + 0
        ≡ length (added_all nat_doubles no_flags [] two_items))
add_all_lem_example =
    add_all_lem nat-IsOrder rand no_flags 0 no_members [] two_items no_members-IsZset (omega arith)

remove_all_lem_example :
    IsZset nat_doubles
      (remove_all nat_doubles two_members ((99 ∷ []) ∷ (97 ∷ []) ∷ [])).0
      (without_all two_items ((99 ∷ []) ∷ (97 ∷ []) ∷ []))
    × (length (remove_all nat_doubles two_members ((99 ∷ []) ∷ (97 ∷ []) ∷ [])).1
          + length (without_all two_items ((99 ∷ []) ∷ (97 ∷ []) ∷ []))
        ≡ 2)
remove_all_lem_example =
    remove_all_lem nat-IsOrder two_members two_items ((99 ∷ []) ∷ (97 ∷ []) ∷ []) two_members-IsZset
      (omega arith)

rank_of_lem_example :
    (rank_of nat_doubles false two_members.zsl (99 ∷ []) (some 3) ≡ count_reply 1)
    × (rank_of nat_doubles true two_members.zsl (99 ∷ []) (some 3) ≡ count_reply 0)
rank_of_lem_example =
    rank_of_lem nat-IsOrder two_members ((98 ∷ [], 2) ∷ []) (99 ∷ []) 3 [] two_members-IsZset
      (omega arith)

zrange_of_lem_example :
    zrange_of false true two_members.zsl (negsuc 0) (pos 9)
    ≡ show_all true (slice (negsuc 0) (pos 9) two_items)
unfolding is_int
zrange_of_lem_example =
    zrange_of_lem true two_members.zsl two_items (negsuc 0) (pos 9) two_members-IsZset.holds
      (omega arith) refl refl

last : show_all true (slice (negsuc 0) (pos 9) two_items) ≡ (99 ∷ [], some 3) ∷ []
unfolding show_all slice from_position to_position
last = refl

by_score_lem_example :
    by_score nat_doubles two_members.zsl 3 9 false
    ≡ show_all false (between nat_doubles 3 9 two_items)
by_score_lem_example =
    by_score_lem nat-IsOrder two_members.zsl two_items 3 9 false two_members-IsZset.holds
      two_members-IsZset.ascending
