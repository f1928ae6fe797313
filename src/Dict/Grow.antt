-- ===== src/Dict/Grow.antt =====
-- dict.c: the growth of a dictionary before an insertion.
use native.Mathlib.Nat.{pow-suc}
use credish.Prelude.{
  sym, length-eq-zero, ℕ, zero, suc, ◌+◌, ◌*◌, ◌^◌, ◌≤◌, ◌<◌, ◌≡◌, ◌≢◌, refl, ap, true, false, none,
  some, List, [], ◌∷◌, flatten, arith, ltb, leb, if◌then◌else◌, length, Bool-cases, Option-cases,
  inl, inr, is_some, get_or-replicate, length-replicate, flatten-replicate,
}
use credish.Dict.{
  Dict, table_new, double_until, next_power, dict_initial_size, dict_load_factor, dict_expand,
  is_null, is_rehashing, dict_maybe_expand, dict_size, bucket_idx,
}
use credish.Dict.Entry.{DictType, Chain, find_entry, count}
use credish.Dict.Placed.{IsTable, IsValid, view, chain_of, chain_of-empty}
use credish.Dict.Rehash.{Keeps, Keeps-refl}

double_until-ge : (fuel n p : ℕ) → n ≤ p + fuel → 0 < p → n ≤ double_until fuel n p
unfolding double_until
double_until-ge zero n p h pos = omega arith
double_until-ge (suc f) n p h pos = ground (arith, double_until-ge f n (p * 2))

double_until-pow : (fuel n p : ℕ) (k : ℕ) → p ≡ 2 ^ k → (j : ℕ) × (double_until fuel n p ≡ 2 ^ j)
unfolding double_until
double_until-pow zero n p k e = (k, e)
double_until-pow (suc f) n p k e = elim (Bool-cases (ltb p n)) [
  | inl low ↦ rw low (double_until-pow f n (p * 2) (suc k) (rw (pow-suc 2 k, e) refl))
  | inr done ↦ rw done (k, e)
]

-- `next_power` returns a power of two that is at least its argument: the fuel is enough.
pub next_power_lem : (n : ℕ) → (n ≤ next_power n) × ((j : ℕ) × (next_power n ≡ 2 ^ j))
unfolding next_power
next_power_lem n =
    (double_until-ge n n 1 (omega arith) (omega arith), double_until-pow n n 1 0 refl)

next_power_pos : (n : ℕ) → 0 < n → 0 < next_power n
next_power_pos n h = omega (arith, (next_power_lem n).0)

module _ {K V : Type 0} ⦃type : DictType K⦄ where
  table_new-IsTable : (real : ℕ) → IsTable {K = K} {V = V} (table_new real)
  unfolding count
  table_new-IsTable real = record {
    sized = sym (length-replicate real []);
    masked = refl;
    counted = sym (ap length (flatten-replicate real));
    placed = λ q i h. rw get_or-replicate;
  }

  chain_of-table_new : (q : K) (real : ℕ) → chain_of {V = V} q (table_new real) ≡ []
  chain_of-table_new q real = get_or-replicate real (bucket_idx q (table_new real)) []

  is_null-true : (bs : List (Chain K V)) → is_null bs ≡ true → bs ≡ []
  unfolding is_null
  is_null-true [] e = refl
  is_null-true (c ∷ cs) e = cc

  is_null-false : (bs : List (Chain K V)) → is_null bs ≡ false → 0 < length bs
  unfolding is_null
  is_null-false [] e = cc
  is_null-false (c ∷ cs) e = omega arith

  pub not_busy : (d : Dict K V) → is_rehashing d ≡ false → (j : ℕ) → d.rehash_idx ≢ some j
  unfolding is_rehashing
  not_busy d e j h = cc (ap is_some h)

  pub rehashing-room : {d : Dict K V} → IsValid d → is_rehashing d ≡ true → 0 < d.ht0.size
  unfolding is_rehashing
  rehashing-room {d} v e = elim (Option-cases d.rehash_idx) [
    | inl idle ↦ cc (ap is_some idle)
    | inr (j, busy) ↦ (v.busy j busy).0
  ]

  pub not_idle : (d : Dict K V) → is_rehashing d ≡ true → d.rehash_idx ≢ none
  unfolding is_rehashing
  not_idle d e h = cc (ap is_some h)

  pub second-room : {d : Dict K V} → IsValid d → is_rehashing d ≡ true → 0 < d.ht1.size
  second-room {d} v e = elim (Option-cases d.rehash_idx) [
    | inl idle ↦ absurd (not_idle d e idle)
    | inr (j, busy) ↦ (v.busy j busy).1
  ]

  -- A dictionary with room for entries, that still stands for the same map.
  pub record Grown (d d' : Dict K V) : Type 0 where
    pub keeps : Keeps d d'
    pub room : 0 < d'.ht0.size

  pub idle-size : (d : Dict K V) → IsValid d → is_rehashing d ≡ false → d.ht1.size ≡ 0
  unfolding is_rehashing
  idle-size d v e = elim (Option-cases d.rehash_idx) [
    | inl idle ↦ v.idle idle
    | inr (j, busy) ↦ cc (ap is_some busy)
  ]

  -- The first buckets of a dictionary that has none.
  first_table-Grown :
      {d : Dict K V} (v : IsValid d) (real : ℕ)
      → 0 < real
      → is_rehashing d ≡ false
      → d.ht0.buckets ≡ []
      → Grown d (record d { ht0 = table_new real })
  unfolding view dict_size find_entry count flatten
  first_table-Grown {d} v real pos idle e =
      let empty : (q : K) → chain_of q d.ht0 ≡ [] =
        λ q. chain_of-empty q v.first (omega (arith, v.first.sized, ap length e)) in
      record {
        keeps = record {
          valid = record {
            first = table_new-IsTable real;
            second = v.second;
            once = λ q. rw (chain_of-table_new q real) (omega (arith, v.once q));
            idle = v.idle;
            busy = λ j h. absurd (not_busy d idle j h);
          };
          same = λ q. rw (chain_of-table_new q real, empty q);
          size = omega (arith, v.first.counted, ap (λ bs. length (flatten bs)) e);
          ready = λ h. pos;
          iterators = refl;
        };
        room = pos;
      }

  -- The second table that a rehash fills.
  second_table-Grown :
      {d : Dict K V} (v : IsValid d) (real : ℕ)
      → 0 < real
      → is_rehashing d ≡ false
      → 0 < d.ht0.size
      → Grown d (record d { ht1 = table_new real; rehash_idx = some 0 })
  unfolding view dict_size find_entry count flatten
  second_table-Grown {d} v real pos idle room =
      let gone = idle-size d v idle in
      let empty : (q : K) → chain_of q d.ht1 ≡ [] = λ q. chain_of-empty q v.second gone in
      record {
        keeps = record {
          valid = record {
            first = v.first;
            second = table_new-IsTable real;
            once = λ q. rw (chain_of-table_new q real) (omega (arith, v.once q));
            idle = λ h. cc;
            busy = λ j h. (room, pos, λ i below. absurd (ground arith));
          };
          same = λ q. rw (chain_of-table_new q real, empty q);
          size = omega (arith, v.second.counted, gone_entries gone);
          ready = λ h. room;
          iterators = refl;
        };
        room = room;
      }
    where
      gone_entries : d.ht1.size ≡ 0 → length (flatten d.ht1.buckets) ≡ 0
      gone_entries gone =
          ap (λ bs. length (flatten bs))
            (length-eq-zero d.ht1.buckets (omega (arith, v.second.sized)))

  dict_expand-Grown :
      {d : Dict K V} (size : ℕ) → IsValid d → is_rehashing d ≡ false → Grown d (dict_expand d size)
  unfolding dict_expand
  dict_expand-Grown {d} size v idle =
      let real = next_power (if ltb size dict_initial_size then dict_initial_size else size) in
      let pos : 0 < real =
        next_power_pos (if ltb size dict_initial_size then dict_initial_size else size)
          (ground arith) in
      elim (Bool-cases (is_null d.ht0.buckets)) [
        | inl null ↦
            rw (idle, null) (first_table-Grown v real pos idle (is_null-true d.ht0.buckets null))
        | inr there ↦
            rw (idle, there)
              (second_table-Grown v real pos idle
                (omega (arith, is_null-false d.ht0.buckets there, v.first.sized)))
      ]

  -- Growing before an insertion keeps the map, and leaves a first table that has buckets.
  pub dict_maybe_expand-Grown : {d : Dict K V} → IsValid d → Grown d (dict_maybe_expand d)
  unfolding dict_maybe_expand
  dict_maybe_expand-Grown {d} v = elim (Bool-cases (is_rehashing d)) [
    | inl busy ↦ rw busy (record { keeps = Keeps-refl v; room = rehashing-room v busy })
    | inr idle ↦ elim (Bool-cases (is_null d.ht0.buckets)) [
      | inl null ↦ rw (idle, null) (dict_expand-Grown dict_initial_size v idle)
      | inr there ↦ elim (Bool-cases (leb (d.ht0.size * dict_load_factor) d.ht0.used)) [
        | inl full ↦ rw (idle, there, full) (dict_expand-Grown (d.ht0.used * 2) v idle)
        | inr free ↦
            rw (idle, there, free)
              (record {
                keeps = Keeps-refl v;
                room = omega (arith, is_null-false d.ht0.buckets there, v.first.sized);
              })
      ]
    ]
  ]
