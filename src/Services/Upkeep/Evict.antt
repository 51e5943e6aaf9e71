-- ===== src/Services/Upkeep/Evict.antt =====
-- What `evictOldestLocked` leaves of the entries. The order of the map and of equal ages is open.
use civika.Prelude.{
  ℕ, suc, ◌+◌, ◌-◌, ◌≤◌, ◌<◌, ◌≡◌, refl, sym, ◌∙◌, ap, ◌≢◌, false, none, some, [], ◌∷◌, All,
  All-map, length, take, if◌then◌else◌, Bool-cases, Option-cases, inl, inr, leb, ◌==◌, ◌||◌, arith,
  min,
}
use mathlib.Core.Option
use civika.Prelude.Sort.{sort_slice, sort_slice-All}
use civika.Text.{Str, eqb}
use civika.Text.Laws.{eqb_iff, eq_refl}
use civika.GoMap.{Map, lookup, Distinct}
use civika.GoMap.Delete.{
  delete_first, earlier, lookup-delete_first, delete_first-Distinct, delete_first-All,
  length-delete_first, length-sort, lookup-sort, sort-Distinct, sort-IsSorted, take-earlier,
  lookup-take,
}
use civika.Services.CacheState.{QaCacheEntry}
use civika.Services.Upkeep.{stamps, evict_oldest}

module _ {F F32 : Type 0} where
  lookup-stamps :
      (k : Str) (m : Map (QaCacheEntry F F32))
      → lookup k (stamps m) ≡ Option.map (λ e. e.created_at) (lookup k m)
  unfolding lookup
  lookup-stamps k [] = refl
  lookup-stamps k ((j, e) ∷ m) = ground (arith, lookup-stamps k m)

  stamps-Distinct : (m : Map (QaCacheEntry F F32)) → Distinct m → Distinct (stamps m)
  stamps-Distinct [] d = tt
  stamps-Distinct ((j, e) ∷ m) d = (lookup-stamps j m ∙ rw d.0, stamps-Distinct m d.1)

  length-stamps : (m : Map (QaCacheEntry F F32)) → length (stamps m) ≡ length m
  length-stamps [] = refl
  length-stamps (e ∷ m) = ap suc (length-stamps m)

  stamps_present : (m : Map (QaCacheEntry F F32)) → All (λ s. lookup s.0 m ≢ none) (stamps m)
  unfolding lookup
  stamps_present [] = tt
  stamps_present ((j, e) ∷ m) =
      (ground (arith, eq_refl j), All-map (stamps m) (λ s h. ground arith) (stamps_present m))

  -- The deletions of an eviction that takes place.
  module _ (n : ℕ) (m : Map (QaCacheEntry F F32)) where
    evicted : Map (QaCacheEntry F F32)
    evicted = delete_first n (sort_slice earlier (stamps m)) m

    length-evicted : Distinct m → n ≤ length m → length evicted + n ≡ length m
    unfolding evicted
    length-evicted d le =
        length-delete_first n (sort_slice earlier (stamps m)) m
          (sort-Distinct (stamps m) (stamps-Distinct m d)) d
          (sort_slice-All earlier _ (stamps m) (stamps_present m))
          (omega (arith, length-sort (stamps m), length-stamps m))

    evicted_subset :
        (j : Str) (e : QaCacheEntry F F32) → lookup j evicted ≡ some e → lookup j m ≡ some e
    unfolding evicted
    evicted_subset j e h = ground (arith, lookup-delete_first n (sort_slice earlier (stamps m)) j m)

    -- A key's age stands in the sorted list, and a key is evicted if it is among the first.
    sorted_age :
        (k : Str) (e : QaCacheEntry F F32)
        → Distinct m
        → lookup k m ≡ some e
        → lookup k (sort_slice earlier (stamps m)) ≡ some e.created_at
    sorted_age k e d h = lookup-sort (stamps m) (stamps-Distinct m d) k ∙ lookup-stamps k m ∙ rw h

    among_first :
        (k : Str) (f : QaCacheEntry F F32)
        → Distinct m
        → lookup k m ≡ some f
        → lookup k evicted ≡ none
        → lookup k (take n (sort_slice earlier (stamps m))) ≡ some f.created_at
    unfolding evicted
    among_first k f d hk gone =
        elim (Option-cases (lookup k (take n (sort_slice earlier (stamps m))))) [
          | inl out ↦
              absurd (ground (arith, lookup-delete_first n (sort_slice earlier (stamps m)) k m))
          | inr (t, e) ↦
              e ∙ (sym (lookup-take n (sort_slice earlier (stamps m)) k t e) ∙ sorted_age k f d hk)
        ]

    not_among_first :
        (j : Str) (e : QaCacheEntry F F32)
        → lookup j evicted ≡ some e
        → lookup j (take n (sort_slice earlier (stamps m))) ≡ none
    unfolding evicted
    not_among_first j e h =
        ground (arith, lookup-delete_first n (sort_slice earlier (stamps m)) j m)

    evicted_oldest :
        (k j : Str) (f e : QaCacheEntry F F32)
        → Distinct m
        → lookup k m ≡ some f
        → lookup k evicted ≡ none
        → lookup j evicted ≡ some e
        → f.created_at ≤ e.created_at
    evicted_oldest k j f e d hk gone hj =
        take-earlier n (sort_slice earlier (stamps m)) k j f.created_at e.created_at
          (sort-IsSorted (stamps m)) (among_first k f d hk gone) (not_among_first j e hj)
          (sorted_age j e d (evicted_subset j e hj))

  module _ (max : ℕ) (m : Map (QaCacheEntry F F32)) where
    pub evict_oldest-Distinct : Distinct m → Distinct (evict_oldest max m)
    unfolding evict_oldest
    evict_oldest-Distinct d = elim (Bool-cases (max == 0 || leb (length m) max)) [
      | inl e ↦ rw e d
      | inr e ↦ rw e (delete_first-Distinct (length m - max) (sort_slice earlier (stamps m)) m d)
    ]

    pub evict_oldest-All {κ} :
        (P : Str × QaCacheEntry F F32 → Type κ) → All P m → All P (evict_oldest max m)
    unfolding evict_oldest
    evict_oldest-All P h = elim (Bool-cases (max == 0 || leb (length m) max)) [
      | inl e ↦ rw e h
      | inr e ↦ rw e (delete_first-All P (length m - max) (sort_slice earlier (stamps m)) m h)
    ]

    -- What an eviction leaves under a key, it does not change.
    pub evict_oldest_subset :
        (j : Str) (e : QaCacheEntry F F32)
        → lookup j (evict_oldest max m) ≡ some e
        → lookup j m ≡ some e
    unfolding evict_oldest evicted
    evict_oldest_subset j e h = ground (arith, evicted_subset (length m - max) m j e)

    -- With no key twice in the map: the eviction leaves all entries if the bound is 0, and otherwise
    -- the smaller of the bound and the number of entries.
    pub length-evict_oldest :
        Distinct m
        → length (evict_oldest max m) ≡ (if max == 0 then length m else min max (length m))
    unfolding evict_oldest evicted
    length-evict_oldest d = ground (arith, length-evicted (length m - max) m d)

    pub evict_oldest-le :
        (k j : Str) (f e : QaCacheEntry F F32)
        → Distinct m
        → lookup k m ≡ some f
        → lookup k (evict_oldest max m) ≡ none
        → lookup j (evict_oldest max m) ≡ some e
        → f.created_at ≤ e.created_at
    unfolding evict_oldest evicted
    evict_oldest-le k j f e d hk gone hj =
        ground (arith, evicted_oldest (length m - max) m k j f e d hk)

  first_entry :
      (m : Map (QaCacheEntry F F32))
      → 0 < length m
      → (j : Str) × (e : QaCacheEntry F F32) × (lookup j m ≡ some e)
  unfolding lookup
  first_entry [] h = elim h [ ]
  first_entry ((j, e) ∷ m) h = (j, e, ground (arith, eq_refl j))

  nonempty :
      (m : Map (QaCacheEntry F F32)) (k : Str) (f : QaCacheEntry F F32)
      → lookup k m ≡ some f
      → 0 < length m
  unfolding lookup
  nonempty [] k f h = cc
  nonempty (e ∷ m) k f h = omega arith

  -- With no key twice in the map: an entry that was created after all entries with other keys is still
  -- under its key after the eviction, whatever the bound.
  pub evict_oldest_youngest :
      (max : ℕ) (m : Map (QaCacheEntry F F32)) (k : Str) (f : QaCacheEntry F F32)
      → Distinct m
      → lookup k m ≡ some f
      → ((j : Str) (e : QaCacheEntry F F32)
          → lookup j m ≡ some e
          → eqb k j ≡ false
          → e.created_at < f.created_at)
      → lookup k (evict_oldest max m) ≡ some f
  evict_oldest_youngest max m k f d hk younger =
      elim (Option-cases (lookup k (evict_oldest max m))) [
        | inl gone ↦
            let (j, e, hj) =
              first_entry (evict_oldest max m)
                (ground (arith, length-evict_oldest max m d, nonempty m k f hk)) in
            let same = eqb_iff k j in
            let older = evict_oldest-le max m k j f e d hk gone hj in
            elim (Bool-cases (eqb k j)) [
              | inl here ↦ absurd (cc (ap (λ i. lookup i (evict_oldest max m)) (same.0 here)))
              | inr there ↦
                  absurd (omega (arith, younger j e (evict_oldest_subset max m j e hj) there))
            ]
        | inr (e, h) ↦ h ∙ (sym (evict_oldest_subset max m k e h) ∙ hk)
      ]
