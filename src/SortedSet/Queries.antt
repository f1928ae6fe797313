-- ===== src/SortedSet/Queries.antt =====
-- sorted_set.c: the commands that read a sorted set.
use credish.Prelude.{
  ℕ, zero, suc, ◌+◌, ◌-◌, ◌%◌, ◌^◌, Bool, true, false, Option, none, some, List, [], ◌∷◌,
  if◌then◌else◌, ltb,
}
use credish.Prelude.Int.{ℤ, pos, pos_part, ◌-ℤ◌, ltb_ℤ}
use credish.Sds.{Bytes}
use credish.Keys.{sds_dict_type}
use credish.Dict.{dict_fetch_value}
use credish.Object.{obj_zset}
use credish.Db.{CredishDb, db_lookup, write_object}
use credish.Commands.{Clock}
use credish.ListCommands.{range_start, range_stop}
use credish.Skiplist.{
  Ptr, Doubles, ZskiplistNode, Nodes, Zskiplist, is_lt, is_gt, zsl_get_rank,
  zsl_get_element_by_rank,
}
use credish.SortedSet.{
  Zset, ZsetReply, wrong_type, py_none, count_reply, score_reply, list_reply, Value,
}

module _ {D : Type 0} where
  unfoldable pub zset_py_member_score : ZskiplistNode D → (withscores : Bool) → Bytes × Option D
  zset_py_member_score x withscores = (x.member, if withscores then some x.score else none)

  -- The loops of `py_zrange_common` with the rounds that are left, along `next`.
  unfoldable pub range_items :
      (next : ZskiplistNode D → Ptr)
      → (withscores : Bool) → (rounds : ℕ) → Nodes D
      → Ptr
      → List (Bytes × Option D)
  unfolding zset_py_member_score
  range_items next withscores zero nodes x = []
  range_items next withscores (suc rounds) nodes none = []
  range_items next withscores (suc rounds) nodes (some x) =
      zset_py_member_score (nodes x) withscores
      ∷ range_items next withscores rounds nodes (next (nodes x))

  -- From the two indices on: `start <= stop && len > 0`, and the loop from its first node on.
  unfoldable pub range_of :
      (reverse withscores : Bool) → Zskiplist D → (first : ℕ) → (last : ℤ) → List (Bytes × Option D)
  unfolding range_items
  range_of reverse withscores zsl first last =
      if ltb_ℤ last (pos first)
      then []
      else if ltb 0 zsl.len
      then (let rounds = pos_part (last -ℤ pos first) + 1 in
          if reverse
          then range_items (λ x. x.backward) withscores rounds zsl.nodes
              (zsl_get_element_by_rank zsl (zsl.len - first))
          else range_items (λ x. (x.level 0).forward) withscores rounds zsl.nodes
              (zsl_get_element_by_rank zsl (first + 1)))
      else []

  -- From the length of the sorted set on.
  unfoldable pub zrange_of :
      (reverse withscores : Bool) → Zskiplist D → (start stop : ℤ) → List (Bytes × Option D)
  unfolding range_of range_start range_stop
  zrange_of reverse withscores zsl start stop =
      range_of reverse withscores zsl (range_start zsl.len start) (range_stop zsl.len stop)

  abbrev score_item : Option D → ZsetReply D
  score_item none = py_none
  score_item (some score) = score_reply score

module _ {D : Type 0} (doubles : Doubles D) where
  -- The rank for the score that the dictionary has, in an `unsigned long`.
  unfoldable pub rank_of : (reverse : Bool) → Zskiplist D → Bytes → Option D → ZsetReply D
  rank_of reverse zsl member none = py_none
  rank_of reverse zsl member (some score) =
      let rank = zsl_get_rank doubles zsl score member in
      count_reply
        (if reverse then (zsl.len + 2 ^ 64 - rank) % 2 ^ 64 else (rank + 2 ^ 64 - 1) % 2 ^ 64)

  -- `while (x && x->score < min_score)`, with fuel.
  unfoldable pub skip_below : (fuel : ℕ) → Nodes D → (min_score : D) → Ptr → Ptr
  skip_below zero nodes min_score x = x
  skip_below (suc fuel) nodes min_score none = none
  skip_below (suc fuel) nodes min_score (some x) =
      elim (is_lt (doubles.cmp (nodes x).score min_score)) [
        | true ↦ skip_below fuel nodes min_score ((nodes x).level 0).forward
        | false ↦ some x
      ]

  -- `while (x && x->score <= max_score)`, with fuel.
  unfoldable pub items_upto :
      (fuel : ℕ) → Nodes D → (max_score : D) → (withscores : Bool) → Ptr → List (Bytes × Option D)
  unfolding zset_py_member_score
  items_upto zero nodes max_score withscores x = []
  items_upto (suc fuel) nodes max_score withscores none = []
  items_upto (suc fuel) nodes max_score withscores (some x) =
      elim (is_gt (doubles.cmp (nodes x).score max_score)) [
        | true ↦ []
        | false ↦
            zset_py_member_score (nodes x) withscores
            ∷ items_upto fuel nodes max_score withscores ((nodes x).level 0).forward
      ]

  -- `min_score <= max_score` and the loops, whose fuel is the length of the list.
  unfoldable pub by_score :
      Zskiplist D → (min_score max_score : D) → (withscores : Bool) → List (Bytes × Option D)
  unfolding skip_below items_upto
  by_score zsl min_score max_score withscores =
      if is_gt (doubles.cmp min_score max_score)
      then []
      else items_upto zsl.len zsl.nodes max_score withscores
          (skip_below zsl.len zsl.nodes min_score ((zsl.nodes 0).level 0).forward)

module _ {L D : Type 0} where
  -- From the type test of a query on: `missing` without an object, else `ask` of the sorted set, with
  -- the sorted set that the query leaves.
  pub query_of :
      CredishDb (Value L D)
      → Bytes
      → ZsetReply D
      → (Zset D → Zset D × ZsetReply D)
      → Option (Value L D)
      → CredishDb (Value L D) × ZsetReply D
  unfolding write_object
  query_of db key missing ask none = (db, missing)
  query_of db key missing ask (some (obj_zset zs)) =
      (write_object db key (obj_zset (ask zs).0), (ask zs).1)
  query_of db key missing ask (some _) = (db, wrong_type)

  pub query :
      Clock
      → CredishDb (Value L D)
      → Bytes
      → ZsetReply D
      → (Zset D → Zset D × ZsetReply D)
      → CredishDb (Value L D) × ZsetReply D
  unfolding query_of
  query clock db key missing ask =
      let o = db_lookup (clock 0) db key in query_of o.0 key missing ask o.1

  pub py_zrange_common :
      (reverse : Bool)
      → Clock
      → CredishDb (Value L D)
      → Bytes
      → (start stop : ℤ) → (withscores : Bool) → CredishDb (Value L D) × ZsetReply D
  unfolding query zrange_of
  py_zrange_common reverse clock db key start stop withscores =
      query clock db key (list_reply [])
        (λ zs. (zs, list_reply (zrange_of reverse withscores zs.zsl start stop)))

  pub py_zcard : Clock → CredishDb (Value L D) → Bytes → CredishDb (Value L D) × ZsetReply D
  unfolding query
  py_zcard clock db key = query clock db key (count_reply 0) (λ zs. (zs, count_reply zs.zsl.len))

  pub py_zscore :
      Clock → CredishDb (Value L D) → (key member : Bytes) → CredishDb (Value L D) × ZsetReply D
  unfolding query
  py_zscore clock db key member = query clock db key py_none (λ zs.
      let score = dict_fetch_value zs.dict member in
      (record zs { dict = score.0 }, score_item score.1))

module _ {L D : Type 0} (doubles : Doubles D) where
  pub py_zrank_common :
      (reverse : Bool)
      → Clock
      → CredishDb (Value L D)
      → (key member : Bytes) → CredishDb (Value L D) × ZsetReply D
  unfolding query rank_of
  py_zrank_common reverse clock db key member = query clock db key py_none (λ zs.
      let score = dict_fetch_value zs.dict member in
      (record zs { dict = score.0 }, rank_of doubles reverse zs.zsl member score.1))

  pub py_zrangebyscore :
      Clock
      → CredishDb (Value L D)
      → Bytes
      → (min_score max_score : D) → (withscores : Bool) → CredishDb (Value L D) × ZsetReply D
  unfolding query by_score
  py_zrangebyscore clock db key min_score max_score withscores =
      query clock db key (list_reply [])
        (λ zs. (zs, list_reply (by_score doubles zs.zsl min_score max_score withscores)))
