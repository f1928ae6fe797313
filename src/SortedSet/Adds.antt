-- ===== src/SortedSet/Adds.antt =====
-- sorted_set.c: `zset_add` and `zset_delete_member` keep the dictionary and the skip list of a sorted
-- set in agreement.
use Prim.Native.Nat.{Ordering}
use credish.Prelude.{
  ℕ, ◌+◌, ◌<◌, ◌≡◌, ◌≢◌, refl, sym, ◌∙◌, ap, subst, Bool, true, false, not, ◌&&◌, ◌||◌, Option,
  none, some, List, arith, if◌then◌else◌, is_some, length, Bool-cases, inl, inr,
}
use credish.Sds.{Bytes}
use credish.Keys.{sds_dict_type, dict_cmp_sds}
use credish.Dict.{dict_fetch_value, dict_replace}
use credish.Dict.Placed
use credish.Dict.Placed.{view}
use credish.Dict.Find.{dict_find_lem}
use credish.Dict.Insert.{dict_replace_lem}
use credish.Dict.Delete.{dict_delete_lem}
use credish.Skiplist.{Doubles, is_lt, is_eq, is_gt, zsl_insert, zsl_delete}
use credish.Skiplist.Valid.{All, All-map, item_cmp, Ascending, IsOrder}
use credish.Skiplist.Order.{Holds, put_item}
use credish.Skiplist.Insert.{zsl_insert_lem}
use credish.Skiplist.Delete.{zsl_delete_lem}
use credish.SortedSet.{Zset, AddFlags, zset_add_over, zset_add, zset_delete_at, zset_delete_member}
use credish.SortedSet.Items.{
  score_of, without, Unique, score_of-none, without-Unique, without-apart, score_of-without,
  length-without, without_absent, item_cmp-ne, without-Ascending, remove_item-without,
  put_item-Unique, score_of-put_item, put_item-Ascending,
}

module _ {D : Type 0} (doubles : Doubles D) where
  -- The skip list holds the items, in order and no member twice, and the dictionary has their scores.
  pub record IsZset (zs : Zset D) (l : List (Bytes × D)) : Type 0 where
    pub holds : Holds zs.zsl l
    pub ascending : Ascending doubles l
    pub unique : Unique l
    pub valid : Placed.IsValid zs.dict
    pub scores : (q : Bytes) → view zs.dict q ≡ score_of q l

  -- The list that ZADD makes of another one for one member, by the score that the member has.
  unfoldable pub added_over :
      AddFlags → (member : Bytes) → (score : D) → List (Bytes × D) → Option D → List (Bytes × D)
  added_over flags member score l none = if flags.xx then l else put_item doubles (member, score) l
  added_over flags member score l (some old) =
      if flags.nx
        || (flags.gt && not (is_gt (doubles.cmp score old))
            || flags.lt && not (is_lt (doubles.cmp score old)))
      then l
      else if is_eq (doubles.cmp score old)
      then l
      else put_item doubles (member, score) (without member l)

  unfoldable pub added_to :
      AddFlags → (member : Bytes) → (score : D) → List (Bytes × D) → List (Bytes × D)
  unfolding added_over
  added_to flags member score l = added_over flags member score l (score_of member l)

  -- What a search of the dictionary leaves.
  pub fetched-IsZset :
      {zs : Zset D} {l : List (Bytes × D)} (member : Bytes)
      → IsZset zs l
      → IsZset (record zs { dict = (dict_fetch_value zs.dict member).0 }) l
        × ((dict_fetch_value zs.dict member).1 ≡ score_of member l)
  unfolding dict_fetch_value
  fetched-IsZset {zs} member z =
      let found = dict_find_lem member z.valid in
      (
        record {
          holds = z.holds;
          ascending = z.ascending;
          unique = z.unique;
          valid = found.0.valid;
          scores = λ q. found.0.same q ∙ z.scores q;
        },
        found.1 ∙ z.scores member,
      )

module _ {D : Type 0} {doubles : Doubles D} (order : IsOrder doubles) where
  -- A member that is not there.
  put-IsZset :
      (rands : List ℕ) {zs : Zset D} {l : List (Bytes × D)} (member : Bytes) (score : D)
      → IsZset doubles zs l
      → All (λ a. a.0 ≢ member) l
      → length l + 1 < 4294967296
      → IsZset doubles
          (record {
            dict = (dict_replace zs.dict member score).0;
            zsl = zsl_insert doubles rands zs.zsl score member;
          })
          (put_item doubles (member, score) l)
  put-IsZset rands {zs} {l} member score z apart small =
      let unequal =
        All-map _ (λ a. item_cmp doubles a (member, score) ≢ Ordering.eq) l
          (λ a n. item_cmp-ne doubles a (member, score) n) apart in
      let new = (dict_replace_lem member score z.valid).1 in
      record {
        holds = zsl_insert_lem order rands zs.zsl score member l z.holds z.ascending unequal small;
        ascending = put_item-Ascending doubles member score order l unequal z.ascending;
        unique = put_item-Unique doubles member score l apart z.unique;
        valid = new.valid;
        scores = λ q.
            new.same q
            ∙ ap (λ o. if dict_cmp_sds member q then some score else o) (z.scores q)
            ∙ sym (score_of-put_item doubles member score l apart q);
      }

  -- A member with another score.
  move-IsZset :
      (rands : List ℕ) {zs : Zset D} {l : List (Bytes × D)} (member : Bytes) (score old : D)
      → IsZset doubles zs l
      → score_of member l ≡ some old
      → length l + 1 < 4294967296
      → IsZset doubles
          (record {
            zsl = zsl_insert doubles rands (zsl_delete doubles zs.zsl old member).0 score member;
            dict = (dict_replace zs.dict member score).0;
          })
          (put_item doubles (member, score) (without member l))
  move-IsZset rands {zs} {l} member score old z here small =
      let left = without member l in
      let removed = remove_item-without doubles order member l here in
      let cut =
        subst (Holds (zsl_delete doubles zs.zsl old member).0) removed.0
          (zsl_delete_lem order zs.zsl old member l z.holds z.ascending (omega arith)).0 in
      let apart = without-apart member l z.unique in
      let ascending = without-Ascending doubles member l z.ascending in
      let unequal =
        All-map _ (λ a. item_cmp doubles a (member, score) ≢ Ordering.eq) left
          (λ a n. item_cmp-ne doubles a (member, score) n) apart in
      let new = (dict_replace_lem member score z.valid).1 in
      record {
        holds =
            zsl_insert_lem order rands (zsl_delete doubles zs.zsl old member).0 score member left
              cut ascending unequal (omega (arith, length-without member l));
        ascending = put_item-Ascending doubles member score order left unequal ascending;
        unique = put_item-Unique doubles member score left apart (without-Unique member l z.unique);
        valid = new.valid;
        scores = λ q.
            new.same q
            ∙ ap (λ o. if dict_cmp_sds member q then some score else o) (z.scores q)
            ∙ twice (dict_cmp_sds member q) (score_of q l) score
            ∙ ap (λ o. if dict_cmp_sds member q then some score else o)
                (sym (score_of-without member l z.unique q))
            ∙ sym (score_of-put_item doubles member score left apart q);
      }
    where
      twice :
          (t : Bool) (o : Option D) (v : D)
          → (if t then some v else o) ≡ (if t then some v else if t then none else o)
      twice true o v = refl
      twice false o v = refl

  add_over-IsZset :
      (rands : List ℕ) {zs : Zset D} {l : List (Bytes × D)} (member : Bytes) (score : D)
      (flags : AddFlags) (oldp : Option D)
      → IsZset doubles zs l
      → oldp ≡ score_of member l
      → length l + 1 < 4294967296
      → IsZset doubles
          (zset_add_over doubles rands zs member score flags oldp).0
          (added_over doubles flags member score l oldp)
  unfolding zset_add_over added_over
  add_over-IsZset rands {l = l} member score flags none z e small = elim (Bool-cases flags.xx) [
    | inl t ↦ rw t z
    | inr f ↦ rw f (put-IsZset rands member score z (score_of-none member l (sym e)) small)
  ]
  add_over-IsZset rands {l = l} member score flags (some old) z e small =
      elim (Bool-cases (
        flags.nx
        || (flags.gt && not (is_gt (doubles.cmp score old))
            || flags.lt && not (is_lt (doubles.cmp score old))))) [
              | inl t ↦ rw t z
              | inr f ↦ elim (Bool-cases (is_eq (doubles.cmp score old))) [
                | inl t ↦ rw (f, t) z
                | inr g ↦ rw (f, g) (move-IsZset rands member score old z (sym e) small)
              ]
            ]

  -- `zset_add` makes of a sorted set that holds the items of `l` in order, with the dictionary in
  -- agreement, one that holds those of `l` with the member at its score, or the same where the flags
  -- or an equal score forbid a change, if there are fewer than 2^32 - 1 items.
  pub zset_add_lem :
      (rands : List ℕ) (zs : Zset D) (l : List (Bytes × D)) (member : Bytes) (score : D)
      (flags : AddFlags)
      → IsZset doubles zs l
      → length l + 1 < 4294967296
      → IsZset doubles
          (zset_add doubles rands zs member score flags).0
          (added_to doubles flags member score l)
  unfolding zset_add added_to
  zset_add_lem rands zs l member score flags z small =
      let found = fetched-IsZset doubles member z in
      subst
        (λ o.
          IsZset doubles (zset_add doubles rands zs member score flags).0
            (added_over doubles flags member score l o))
        found.1
        (add_over-IsZset rands member score flags (dict_fetch_value zs.dict member).1 found.0
          found.1 small)

  delete_at-IsZset :
      {zs : Zset D} {l : List (Bytes × D)} (member : Bytes) (oldp : Option D)
      → IsZset doubles zs l
      → oldp ≡ score_of member l
      → length l < 4294967296
      → IsZset doubles (zset_delete_at doubles zs member oldp).0 (without member l)
        × ((zset_delete_at doubles zs member oldp).1 ≡ is_some oldp)
  unfolding zset_delete_at
  delete_at-IsZset {zs} {l} member none z e small = (
    subst (IsZset doubles zs) (sym (without_absent member l (score_of-none member l (sym e)))) z,
    refl,
  )
  delete_at-IsZset {zs} {l} member (some old) z e small =
      let removed = remove_item-without doubles order member l (sym e) in
      let cut = zsl_delete_lem order zs.zsl old member l z.holds z.ascending small in
      let gone = (dict_delete_lem member z.valid).1 in
      rw (cut.1 ∙ removed.1) (
        record {
          holds = subst (Holds (zsl_delete doubles zs.zsl old member).0) removed.0 cut.0;
          ascending = without-Ascending doubles member l z.ascending;
          unique = without-Unique member l z.unique;
          valid = gone.valid;
          scores = λ q.
              gone.same q
              ∙ ap (λ o. if dict_cmp_sds member q then none else o) (z.scores q)
              ∙ sym (score_of-without member l z.unique q);
        },
        refl,
      )

  -- `zset_delete_member` makes of a sorted set that holds the items of `l` one that holds them
  -- without the member, and returns whether the member was there, if there are fewer than 2^32 items.
  pub zset_delete_member_lem :
      (zs : Zset D) (l : List (Bytes × D)) (member : Bytes)
      → IsZset doubles zs l
      → length l < 4294967296
      → IsZset doubles (zset_delete_member doubles zs member).0 (without member l)
        × ((zset_delete_member doubles zs member).1 ≡ is_some (score_of member l))
  unfolding zset_delete_member
  zset_delete_member_lem zs l member z small =
      let found = fetched-IsZset doubles member z in
      let done =
        delete_at-IsZset member (dict_fetch_value zs.dict member).1 found.0 found.1 small in
      (done.0, done.1 ∙ ap is_some found.1)
