-- ===== src/Dict/Write.antt =====
-- dict.c: an update of one entry, or its removal, in the dictionary as a whole.
use credish.Prelude.{
  ℕ, ◌+◌, ◌≤◌, ◌<◌, ◌≡◌, ◌≢◌, refl, ap, Option, none, some, [], ◌∷◌, arith, if◌then◌else◌, ◌==◌,
  ==_iff, length, get_or, get_or-set, Bool-cases, inl, inr,
}
use credish.Dict.{Dict, DictTable, bucket_idx, dict_size}
use credish.Dict.Entry.{DictType, Chain, find_entry, count, find_entry_absent}
use credish.Dict.Placed.{
  IsTable, IsValid, view, chain_of, chain_of-empty, with_bucket, bucket_idx-lt, home-IsTable,
  home-count, home-find_entry,
}

-- One for a value, none for its absence.
abbrev pub found {ℓ} : {A : Type ℓ} → Option A → ℕ
found none = 0
found (some a) = 1

module _ {K V : Type 0} ⦃type : DictType K⦄ where
  -- `d'` is valid, and stands for the map of `d` with `o` under `key`.
  pub record Updates (d : Dict K V) (key : K) (o : Option V) (d' : Dict K V) : Type 0 where
    pub valid : IsValid d'
    pub same : (q : K) → view d' q ≡ (if type.key_cmp key q then o else view d q)
    pub size : dict_size d' + found (view d key) ≡ dict_size d + found o
    pub iterators : d'.iterators ≡ d.iterators

  pub size_of_found :
      {t : DictTable K V} (key : K)
      → IsTable t
      → find_entry key (chain_of key t) ≢ none
      → 0 < t.size
  unfolding find_entry
  size_of_found {t} key valid hit = elim (Bool-cases (t.size == 0)) [
    | inl e ↦ absurd (hit (rw (chain_of-empty key valid ((==_iff t.size 0).0 e))))
    | inr e ↦ ground arith
  ]

  count_of_found :
      (key : K) (c : Chain K V) {old : V} → find_entry key c ≡ some old → 0 < count key c
  unfolding count find_entry
  count_of_found key [] e = cc
  count_of_found key (x ∷ c) {old} e = ground (arith, count_of_found key c {old = old})

  chain_of_found : (key : K) (c : Chain K V) {old : V} → find_entry key c ≡ some old → c ≢ []
  unfolding find_entry
  chain_of_found key [] e h = cc
  chain_of_found key (x ∷ c) e h = cc

  -- The contents `c` for the home bucket of `key` set what is found under `key` to `o`.
  pub record Rewrites (t : DictTable K V) (key : K) (o : Option V) (c : Chain K V) (used : ℕ)
      : Type 0 where
    pub balance : used + length (chain_of key t) ≡ t.used + length c
    pub few : (q : K) → count q c ≤ count q (chain_of key t)
    pub reads :
        (q : K) → find_entry q c ≡ (if type.key_cmp key q then o else find_entry q (chain_of key t))
    pub tally : used + 1 ≡ t.used + found o

  module _ {d : Dict K V} (v : IsValid d) (key : K) {old : V} (o : Option V) (c : Chain K V)
      (used : ℕ) where
    -- The entry stands in the first table.
    pub first-Updates :
        find_entry key (chain_of key d.ht0) ≡ some old
        → Rewrites d.ht0 key o c used
        → Updates d key o (record d { ht0 = with_bucket d.ht0 (bucket_idx key d.ht0) c used })
    unfolding view dict_size
    first-Updates hit w =
        let pos = size_of_found key v.first (λ e. cc) in
        record {
          valid = record {
            first = home-IsTable v.first pos key o c used w.balance w.few w.reads;
            second = v.second;
            once = λ q.
                omega
                  (arith, v.once q, home-count v.first pos key o c used w.balance w.few w.reads q);
            idle = v.idle;
            busy = λ j h. (
              pos,
              (v.busy j h).1,
              λ i below.
                  rw
                    (get_or-set d.ht0.buckets (bucket_idx key d.ht0) i c []
                      (omega (arith, v.first.sized, bucket_idx-lt key v.first pos)))
                    (ground (
                      arith,
                      (v.busy j h).2 i below,
                      chain_of_found key (chain_of key d.ht0) hit,
                      ap (λ i. get_or d.ht0.buckets i []),
                    )),
            );
          };
          same = λ q. rw (home-find_entry v.first pos key o c used w.balance w.few w.reads q) (
              ground (
                arith,
                type.key_cmp_iff key q,
                v.once key,
                count_of_found key (chain_of key d.ht0) hit,
                find_entry_absent key (chain_of key d.ht1),
                ap (λ k. find_entry k (chain_of k d.ht1)),
              ));
          size = rw hit (omega (arith, w.tally));
          iterators = refl;
        }

    -- The entry stands in the second table.
    pub second-Updates :
        find_entry key (chain_of key d.ht0) ≡ none
        → find_entry key (chain_of key d.ht1) ≡ some old
        → Rewrites d.ht1 key o c used
        → Updates d key o (record d { ht1 = with_bucket d.ht1 (bucket_idx key d.ht1) c used })
    unfolding view dict_size
    second-Updates miss hit w =
        let pos = size_of_found key v.second (λ e. cc) in
        record {
          valid = record {
            first = v.first;
            second = home-IsTable v.second pos key o c used w.balance w.few w.reads;
            once = λ q.
                omega
                  (arith, v.once q, home-count v.second pos key o c used w.balance w.few w.reads q);
            idle = v.idle;
            busy = v.busy;
          };
          same = λ q.
              rw (home-find_entry v.second pos key o c used w.balance w.few w.reads q)
                (ground (arith, type.key_cmp_iff key q, ap (λ k. find_entry k (chain_of k d.ht0))));
          size = rw (miss, hit) (omega (arith, w.tally));
          iterators = refl;
        }
