-- ===== src/Dict/Rehash/Ends.antt =====
-- dict.c: an incremental rehash comes to an end.
use credish.Prelude.{
  ℕ, zero, suc, ◌+◌, ◌-◌, ◌≤◌, ◌<◌, ◌≡◌, refl, ◌∙◌, ap, false, Option, none, some, List, [], ◌∷◌,
  flatten, arith, leb, le→ltb, length, get_or, Bool-cases, inl, inr, is_some,
}
use credish.Dict.{
  Dict, finish_rehash, skip_empty, rehash_from, rehash_at, dict_rehash_step, is_rehashing,
}
use credish.Dict.Entry.{DictType}
use credish.Dict.Placed.{IsValid}
use credish.Dict.Rehash.{skip_empty-clear, skip_empty-ge}
use credish.Dict.Rehash.Step.{skipped-Keeps, moved, moved-size, dict_rehash_step-Keeps}

flatten_clear {ℓ} :
    {A : Type ℓ} (xss : List (List A))
    → ((i : ℕ) → i < length xss → get_or xss i [] ≡ [])
    → flatten xss ≡ []
unfolding flatten
flatten_clear [] clear = refl
flatten_clear (xs ∷ xss) clear =
    rw (clear 0 (omega arith)) (flatten_clear xss λ i below. clear (suc i) (omega arith))

-- The buckets that a rehash has left to visit, and one.
abbrev left_over : ℕ → Option ℕ → ℕ
left_over size none = 0
left_over size (some j) = suc (size - j)

module _ {K V : Type 0} ⦃type : DictType K⦄ where
  abbrev remaining : Dict K V → ℕ
  remaining d = left_over d.ht0.size d.rehash_idx

  -- A step past the last bucket finds the first table empty, so the rehash ends there.
  finish_rehash-ends :
      {d : Dict K V} {j : ℕ}
      → IsValid d
      → d.rehash_idx ≡ some j
      → d.ht0.size ≤ j
      → (finish_rehash d).rehash_idx ≡ none
  unfolding finish_rehash
  finish_rehash-ends {d} {j} v busy past =
      let empty =
        flatten_clear d.ht0.buckets
          (λ i below. (v.busy j busy).2 i (omega (arith, v.first.sized))) in
      let unused : d.ht0.used ≡ 0 = v.first.counted ∙ ap length empty in ground arith

  finish_rehash-remaining : (d : Dict K V) → remaining (finish_rehash d) ≤ remaining d
  unfolding finish_rehash
  finish_rehash-remaining d = ground arith

  rehash_from-remaining :
      {d : Dict K V} {j : ℕ} (v : IsValid d) (busy : d.rehash_idx ≡ some j) (idx : ℕ)
      → ((i : ℕ) → i < idx → get_or d.ht0.buckets i [] ≡ [])
      → j ≤ idx
      → remaining (rehash_from d idx) ≤ d.ht0.size - j
  unfolding rehash_from
  rehash_from-remaining {d} {j} v busy idx clear ge = elim (Bool-cases (leb d.ht0.size idx)) [
    | inl past ↦
        let kept = skipped-Keeps v busy idx clear in
        rw (past, finish_rehash-ends {j = idx} kept.valid refl (ground arith)) (omega arith)
    | inr inside ↦
        let below : idx < d.ht0.size = ground arith in
        let e = record d {
          ht0 = (moved v busy idx clear below).0;
          ht1 = (moved v busy idx clear below).1;
          rehash_idx = some (idx + 1);
        } in
        rw inside (omega (arith, finish_rehash-remaining e, moved-size v busy idx clear below))
  ]

  rehash_at-remaining :
      {d : Dict K V}
      → IsValid d
      → (o : Option ℕ) → d.rehash_idx ≡ o
      → remaining (rehash_at d o) ≤ left_over d.ht0.size o - 1
  unfolding rehash_at
  rehash_at-remaining v none at = rw at (omega arith)
  rehash_at-remaining {d} v (some j) at =
      let bound =
        rehash_from-remaining v at (skip_empty d.ht0.size d.ht0 j)
          (λ i below. skip_empty-clear d.ht0.size d.ht0 j i (v.busy j at).2 below)
          (skip_empty-ge d.ht0.size d.ht0 j) in
      omega (arith, bound)

  -- `dict_rehash_step` made `n` times.
  pub rehash_steps : ℕ → Dict K V → Dict K V
  rehash_steps zero d = d
  rehash_steps (suc n) d = rehash_steps n (dict_rehash_step d)

  rehash_steps-remaining :
      (n : ℕ) {d : Dict K V}
      → IsValid d
      → d.iterators ≡ 0
      → remaining (rehash_steps n d) ≤ remaining d - n
  unfolding rehash_steps
  rehash_steps-remaining zero v free = omega arith
  rehash_steps-remaining (suc n) {d} v free =
      let kept = dict_rehash_step-Keeps v in
      let rest = rehash_steps-remaining n kept.valid (kept.iterators ∙ free) in
      omega (arith, rest, step)
    where
      step : remaining (dict_rehash_step d) ≤ remaining d - 1
      step =
          unfold dict_rehash_step in
          rw (le→ltb 0 d.iterators (omega arith)) (rehash_at-remaining v d.rehash_idx refl)

  -- While no iterator is active, as many steps as the first table has buckets, and one, end every
  -- incremental rehash of a valid dictionary.
  pub rehash_ends :
      (d : Dict K V)
      → IsValid d
      → d.iterators ≡ 0
      → is_rehashing (rehash_steps (d.ht0.size + 1) d) ≡ false
  unfolding is_rehashing
  rehash_ends d v free =
      over (rehash_steps (d.ht0.size + 1) d).ht0.size (rehash_steps (d.ht0.size + 1) d).rehash_idx
        (omega (arith, rehash_steps-remaining (d.ht0.size + 1) v free, bound d.rehash_idx))
    where
      bound : (o : Option ℕ) → left_over d.ht0.size o ≤ d.ht0.size + 1
      bound none = omega arith
      bound (some j) = omega arith

      over : (size : ℕ) (o : Option ℕ) → left_over size o ≤ 0 → is_some o ≡ false
      over size none h = refl
      over size (some j) h = absurd (omega arith)
