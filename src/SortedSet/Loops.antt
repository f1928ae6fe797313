-- ===== src/SortedSet/Loops.antt =====
-- sorted_set.c: the loops of ZADD and ZREM over their arguments, and the rank of a member.
use credish.Prelude.{
  ℕ, suc, ◌+◌, ◌^◌, ◌<◌, ◌≡◌, ◌≢◌, refl, sym, ◌∙◌, ap, Bool, true, false, not, ◌&&◌, ◌||◌, Option,
  none, some, List, [], ◌∷◌, ◌++◌, arith, if◌then◌else◌, is_some, length, length-append, Bool-cases,
  Option-cases, inl, inr, if_false,
}
use credish.Sds.{Bytes}
use credish.Keys.{sds_dict_type, dict_cmp_sds}
use credish.Dict.{dict_fetch_value}
use credish.Skiplist.{Doubles, is_lt, is_eq, is_gt}
use credish.Skiplist.Valid.{All, All-append, IsOrder}
use credish.Skiplist.Order.{put_item, length-items}
use credish.Skiplist.Rank.{zsl_get_rank_lem}
use credish.SortedSet.{
  Zset, count_reply, AddFlags, Added, zset_add_over, zset_add, zset_delete_member, add_all,
  remove_all,
}
use credish.SortedSet.Items.{score_of, without, Unique, without_absent, score_of-none}
use credish.SortedSet.Queries.{rank_of}
use credish.SortedSet.Adds.{
  IsZset, added_over, added_to, fetched-IsZset, zset_add_lem, zset_delete_member_lem,
}

abbrev as_count : Bool → ℕ
as_count b = if b then 1 else 0

length-kept :
    (b : Bool) (member : Bytes) (members : List Bytes)
    → length (if b then member ∷ members else members) ≡ as_count b + length members
length-kept true member members = omega arith
length-kept false member members = omega arith

module _ {D : Type 0} (doubles : Doubles D) where
  length-put_item :
      (a : Bytes × D) (l : List (Bytes × D)) → length (put_item doubles a l) ≡ suc (length l)
  unfolding put_item
  length-put_item a [] = refl
  length-put_item a (b ∷ l) = ground (arith, length-put_item a l)

  length-without_present :
      (m : Bytes) (l : List (Bytes × D)) {old : D}
      → score_of m l ≡ some old
      → suc (length (without m l)) ≡ length l
  unfolding score_of without
  length-without_present m [] e = cc
  length-without_present m (a ∷ l) e = elim (Bool-cases (dict_cmp_sds a.0 m)) [
    | inl t ↦ rw t refl
    | inr f ↦ rw f (ap suc (length-without_present m l (sym (if_false _ _ f) ∙ e)))
  ]

  length-without :
      (m : Bytes) (l : List (Bytes × D))
      → as_count (is_some (score_of m l)) + length (without m l) ≡ length l
  length-without m l = elim (Option-cases (score_of m l)) [
    | inl e ↦ rw e (omega (arith, ap length (without_absent m l (score_of-none m l e))))
    | inr (v, e) ↦ rw e (omega (arith, length-without_present m l e))
  ]

  Unique-before :
      (p : List (Bytes × D)) (m : Bytes) (s : D) (q : List (Bytes × D))
      → Unique (p ++ (m, s) ∷ q)
      → All (λ a. a.0 ≢ m) p
  Unique-before [] m s q u = tt
  Unique-before (a ∷ p) m s q u =
      (λ e. (All-append _ p ((m, s) ∷ q) u.0).1.0 (sym e), Unique-before p m s q u.1)

  -- How much longer the list gets.
  abbrev grown : Added → ℕ
  grown r = if r.done && r.added then 1 else 0

  length-added_over :
      (rands : List ℕ) (zs : Zset D) (member : Bytes) (score : D) (flags : AddFlags)
      (oldp : Option D) (l : List (Bytes × D))
      → oldp ≡ score_of member l
      → grown (zset_add_over doubles rands zs member score flags oldp).1 + length l
        ≡ length (added_over doubles flags member score l oldp)
  unfolding zset_add_over added_over
  length-added_over rands zs member score flags none l e = elim (Bool-cases flags.xx) [
    | inl t ↦ rw t (omega arith)
    | inr f ↦ rw f (omega (arith, length-put_item (member, score) l))
  ]
  length-added_over rands zs member score flags (some old) l e =
      elim (Bool-cases (
        flags.nx
        || (flags.gt && not (is_gt (doubles.cmp score old))
            || flags.lt && not (is_lt (doubles.cmp score old))))) [
              | inl t ↦ rw t (omega arith)
              | inr f ↦ elim (Bool-cases (is_eq (doubles.cmp score old))) [
                | inl t ↦ rw (f, t) (omega arith)
                | inr g ↦
                    rw (f, g)
                      (omega (
                        arith,
                        length-put_item (member, score) (without member l),
                        length-without_present member l (sym e),
                      ))
              ]
            ]

  -- The items after each of the pairs is added, and after each of the members is removed.
  unfoldable pub added_all : AddFlags → List (Bytes × D) → List (Bytes × D) → List (Bytes × D)
  added_all flags l [] = l
  added_all flags l ((member, score) ∷ pairs) =
      added_all flags (added_to doubles flags member score l) pairs

unfoldable pub without_all : {D : Type 0} → List (Bytes × D) → List Bytes → List (Bytes × D)
without_all l [] = l
without_all l (member ∷ members) = without_all (without member l) members

module _ {D : Type 0} {doubles : Doubles D} (order : IsOrder doubles) where
  length-added :
      (rands : List ℕ) (zs : Zset D) (l : List (Bytes × D)) (member : Bytes) (score : D)
      (flags : AddFlags)
      → IsZset doubles zs l
      → grown doubles (zset_add doubles rands zs member score flags).1 + length l
        ≡ length (added_to doubles flags member score l)
  unfolding zset_add added_to
  length-added rands zs l member score flags z =
      let found = (fetched-IsZset doubles member z).1 in
      length-added_over doubles rands (record zs { dict = (dict_fetch_value zs.dict member).0 })
        member score flags (dict_fetch_value zs.dict member).1 l found
      ∙ ap (λ o. length (added_over doubles flags member score l o)) found

  -- ZADD's loop, without CH, makes of a sorted set that holds the items of `l` a well-formed one with
  -- the items that adding the pairs one by one makes, and returns how many items more there are then,
  -- if the items and the pairs together are fewer than 2^32.
  pub add_all_lem :
      (rand : ℕ → List ℕ) (flags : AddFlags) (i : ℕ) (zs : Zset D) (l pairs : List (Bytes × D))
      → IsZset doubles zs l
      → length l + length pairs < 4294967296
      → IsZset doubles
          (add_all doubles rand flags false i zs pairs).0
          (added_all doubles flags l pairs)
        × ((add_all doubles rand flags false i zs pairs).1 + length l
            ≡ length (added_all doubles flags l pairs))
  unfolding add_all added_all
  add_all_lem rand flags i zs l [] z small = (z, omega arith)
  add_all_lem rand flags i zs l ((member, score) ∷ pairs) z small =
      let r = zset_add doubles (rand i) zs member score flags in
      let one = zset_add_lem order (rand i) zs l member score flags z (omega (arith, small)) in
      let grows = length-added (rand i) zs l member score flags z in
      let rest =
        add_all_lem rand flags (i + 1) r.0 (added_to doubles flags member score l) pairs one
          (ground (arith, grows, small)) in
      (rest.0, omega (arith, grows, rest.1))

  -- ZREM's loop makes of a sorted set that holds the items of `l` a well-formed one with the items
  -- that are left without the members, and the members that it returns as removed are as many as the
  -- items that are gone, if there are fewer than 2^32 items.
  pub remove_all_lem :
      (zs : Zset D) (l : List (Bytes × D)) (members : List Bytes)
      → IsZset doubles zs l
      → length l < 4294967296
      → IsZset doubles (remove_all doubles zs members).0 (without_all l members)
        × (length (remove_all doubles zs members).1 + length (without_all l members) ≡ length l)
  unfolding remove_all without_all
  remove_all_lem zs l [] z small = (z, omega arith)
  remove_all_lem zs l (member ∷ members) z small =
      let r = zset_delete_member doubles zs member in
      let one = zset_delete_member_lem order zs l member z small in
      let shrinks = length-without doubles member l in
      let rest =
        remove_all_lem r.0 (without member l) members one.0 (ground (arith, shrinks, small)) in
      (
        rest.0,
        omega (
          arith,
          rest.1,
          shrinks,
          length-kept r.1 member (remove_all doubles r.0 members).1,
          ap as_count one.1,
        ),
      )

  -- With the score of a member at hand, ZRANK answers how many items stand before it, and ZREVRANK
  -- how many stand behind it, in a well-formed sorted set of fewer than 2^64 items.
  pub rank_of_lem :
      (zs : Zset D) (before : List (Bytes × D)) (member : Bytes) (score : D)
      (after : List (Bytes × D))
      → IsZset doubles zs (before ++ (member, score) ∷ after)
      → length (before ++ (member, score) ∷ after) < 2 ^ 64
      → (rank_of doubles false zs.zsl member (some score) ≡ count_reply (length before))
        × (rank_of doubles true zs.zsl member (some score) ≡ count_reply (length after))
  unfolding rank_of
  rank_of_lem zs before member score after z small =
      let rank =
        zsl_get_rank_lem order zs.zsl before score member after z.holds z.ascending
          (Unique-before doubles before member score after z.unique) small in
      let len : zs.zsl.len ≡ length before + suc (length after) =
        z.holds.valid.len
        ∙ sym (length-items zs.zsl.nodes z.holds.places)
        ∙ ap length z.holds.shows
        ∙ length-append before ((member, score) ∷ after) in
      (
        ap count_reply (omega (arith, rank, small, length-append before ((member, score) ∷ after))),
        ap count_reply
            (omega (arith, rank, len, small, length-append before ((member, score) ∷ after))),
      )
