-- ===== src/Services/QaCache/Invariant.antt =====
-- backend/internal/services/qa_cache.go: a cache that is well formed, and the methods.
use civika.Prelude.{
  ℕ, ◌+◌, ◌≤◌, ◌<◌, ◌≡◌, refl, true, Option, none, some, List, [], All, length, Bool-cases, ◌⊎◌,
  inl, inr, arith, ◌&&◌,
}
use civika.Prelude.Int.{negsuc}
use civika.Text.{Str, Runtime}
use civika.Float.{FloatOps}
use civika.GoMap.{
  Map, lookup, Distinct, insert-Distinct, sweep-Distinct, sweep-All, insert-All, lookup-All,
  length-sweep-le, length-insert_present,
}
use civika.Services.Models.{QaQueryOutput}
use civika.Services.Keys.{QaCacheContext, build_context_hash, build_semantic_cache_key}
use civika.Services.CacheState.{QaCacheConfig, QaCacheEntry, QaCache, QaCacheMetrics}
use civika.Services.Upkeep.{clone_slice, is_expired, remove_expired, evict_oldest}
use civika.Services.Upkeep.Evict.{evict_oldest-Distinct, evict_oldest-All, length-evict_oldest}
use civika.Services.Upkeep.Expiry.{clone_slice-id}
use civika.Services.Similarity.{best_match}
use civika.Services.QaCache.{
  touched, store, is_semantic_candidate, exact_hit, get_exact, semantic_hit, exact_entry,
  semantic_entry, get_semantic, set,
}

module _ {F F32 : Type 0} (fl : FloatOps F F32) (rt : Runtime) where
  -- An entry stands under its own key, and lives as long as the configuration says.
  abbrev pub ExactIsValid : QaCacheConfig F → Str × QaCacheEntry F F32 → Type 0
  ExactIsValid cfg e = (e.0 ≡ e.1.key) × (e.1.expires_at ≡ e.1.created_at + cfg.exact_ttl)

  abbrev pub SemanticIsValid : QaCacheConfig F → Str × QaCacheEntry F F32 → Type 0
  SemanticIsValid cfg e =
      (e.0 ≡ e.1.key)
      × (e.1.key ≡ build_semantic_cache_key rt e.1.question_hash e.1.context_hash)
      × (e.1.expires_at ≡ e.1.created_at + cfg.semantic_ttl)
      × (0 < length e.1.question_vector)

  -- A bound of 0 is none.
  abbrev pub Fits : ℕ → ℕ → Type 0
  Fits size max = (max ≡ 0) ⊎ (size ≤ max)

  pub record IsValid (c : QaCache F F32) : Type 0 where
    pub exact_distinct : Distinct c.exact_entries
    pub semantic_distinct : Distinct c.semantic_entries
    pub exact_fits : Fits (length c.exact_entries) c.cfg.exact_max_entries
    pub semantic_fits : Fits (length c.semantic_entries) c.cfg.semantic_max_entries
    pub exact_valid : All (ExactIsValid c.cfg) c.exact_entries
    pub semantic_valid : All (SemanticIsValid c.cfg) c.semantic_entries

  -- Of the nil cache there is nothing to say.
  abbrev pub OptionIsValid : Option (QaCache F F32) → Type 0
  OptionIsValid none = Unit
  OptionIsValid (some c) = IsValid c

  pub remove_expired-IsValid :
      (now : ℕ) (c : QaCache F F32) → IsValid c → IsValid (remove_expired now c)
  unfolding remove_expired
  remove_expired-IsValid now c v = record {
    exact_distinct = sweep-Distinct _ c.exact_entries v.exact_distinct;
    semantic_distinct = sweep-Distinct _ c.semantic_entries v.semantic_distinct;
    exact_fits = ground (arith, v.exact_fits, length-sweep-le (is_expired now) c.exact_entries);
    semantic_fits =
        ground (arith, v.semantic_fits, length-sweep-le (is_expired now) c.semantic_entries);
    exact_valid = sweep-All _ _ c.exact_entries v.exact_valid;
    semantic_valid = sweep-All _ _ c.semantic_entries v.semantic_valid;
  }

  evict-Fits :
      (max : ℕ) (m : Map (QaCacheEntry F F32)) → Distinct m → Fits (length (evict_oldest max m)) max
  evict-Fits max m d = ground (arith, length-evict_oldest max m d)

  store-valid :
      (P : Str × QaCacheEntry F F32 → Type 0) (max : ℕ) (e : QaCacheEntry F F32)
      (m : Map (QaCacheEntry F F32))
      → Distinct m
      → All P m
      → P (e.key, e)
      → Distinct (store max e m) × Fits (length (store max e m)) max × All P (store max e m)
  unfolding store
  store-valid P max e m d h p =
      let d' = insert-Distinct e.key e m d in
      (
        evict_oldest-Distinct max _ d',
        evict-Fits max _ d',
        evict_oldest-All max _ P (insert-All P e.key e m p h),
      )

  module _ (now : ℕ) (question : Str) where
    candidate_vector :
        (cfg : QaCacheConfig F) (vector : List F32)
        → (cfg.semantic_enabled && is_semantic_candidate cfg vector question) ≡ true
        → 0 < length (clone_slice vector)
    unfolding is_semantic_candidate
    candidate_vector cfg vector h = rw (clone_slice-id vector) (ground arith)

    exact_hit-IsValid :
        (key : Str) (c : QaCache F F32) (o : Option (QaCacheEntry F F32))
        → IsValid c
        → lookup key c.exact_entries ≡ o
        → OptionIsValid (exact_hit fl rt now question key c o).0
    unfolding exact_hit
    exact_hit-IsValid key c none v found = v
    exact_hit-IsValid key c (some e) v found = record {
      exact_distinct = insert-Distinct key _ _ v.exact_distinct;
      semantic_distinct = v.semantic_distinct;
      exact_fits = rw (length-insert_present key (touched fl now e) e _ found) v.exact_fits;
      semantic_fits = v.semantic_fits;
      exact_valid =
          insert-All _ key _ _ (lookup-All (ExactIsValid c.cfg) key _ v.exact_valid found)
            v.exact_valid;
      semantic_valid = v.semantic_valid;
    }

    pub get_exact-IsValid :
        (ctx : QaCacheContext) (o : Option (QaCache F F32))
        → OptionIsValid o
        → OptionIsValid (get_exact fl rt now question ctx o).0
    unfolding get_exact
    get_exact-IsValid ctx none v = tt
    get_exact-IsValid ctx (some c) v =
        exact_hit-IsValid _ (remove_expired now c) _ (remove_expired-IsValid now c v) refl

    pub semantic_hit-IsValid :
        (c : QaCache F F32) (best : Str × F) (o : Option (QaCacheEntry F F32))
        → IsValid c
        → lookup best.0 c.semantic_entries ≡ o
        → OptionIsValid (semantic_hit fl rt now question c best o).0
    unfolding semantic_hit
    semantic_hit-IsValid c best none v found = v
    semantic_hit-IsValid c best (some e) v found = record {
      exact_distinct = v.exact_distinct;
      semantic_distinct = insert-Distinct best.0 _ _ v.semantic_distinct;
      exact_fits = v.exact_fits;
      semantic_fits =
          rw (length-insert_present best.0 (touched fl now e) e _ found) v.semantic_fits;
      exact_valid = v.exact_valid;
      semantic_valid =
          insert-All _ best.0 _ _
            (lookup-All (SemanticIsValid c.cfg) best.0 _ v.semantic_valid found) v.semantic_valid;
    }

    pub get_semantic-IsValid :
        (vector : List F32) (ctx : QaCacheContext) (o : Option (QaCache F F32))
        → OptionIsValid o
        → OptionIsValid (get_semantic fl rt now vector question ctx o).0
    unfolding get_semantic
    get_semantic-IsValid vector ctx none v = tt
    get_semantic-IsValid vector ctx (some c) v = ground (
      arith,
      remove_expired-IsValid now c v,
      semantic_hit-IsValid (remove_expired now c)
          (best_match fl vector (build_context_hash rt ctx) (remove_expired now c).semantic_entries
            ([], fl.of_int (negsuc 0)))
          _ (remove_expired-IsValid now c v) refl,
    )

    pub set-IsValid :
        (vector : List F32) (ctx : QaCacheContext) (output : QaQueryOutput F)
        (o : Option (QaCache F F32))
        → OptionIsValid o
        → OptionIsValid (set fl rt now question vector ctx output o)
    unfolding set
    set-IsValid vector ctx output none v = tt
    set-IsValid vector ctx output (some c) v =
        let w = remove_expired-IsValid now c v in
        let cfg = c.cfg in
        let (distinct, fits, valid) =
          store-valid (ExactIsValid cfg) cfg.exact_max_entries
            (exact_entry fl rt now cfg question ctx output) (remove_expired now c).exact_entries
            w.exact_distinct w.exact_valid (refl, refl) in
        elim (Bool-cases (cfg.semantic_enabled && is_semantic_candidate cfg vector question)) [
          | inl e ↦
              let (distinct', fits', valid') =
                store-valid (SemanticIsValid cfg) cfg.semantic_max_entries
                  (semantic_entry fl rt now cfg question vector ctx output)
                  (remove_expired now c).semantic_entries w.semantic_distinct w.semantic_valid
                  (refl, refl, refl, candidate_vector cfg vector e) in
              record {
                exact_distinct = distinct;
                semantic_distinct = rw e distinct';
                exact_fits = fits;
                semantic_fits = rw e fits';
                exact_valid = valid;
                semantic_valid = rw e valid';
              }
          | inr e ↦ record {
            exact_distinct = distinct;
            semantic_distinct = rw e w.semantic_distinct;
            exact_fits = fits;
            semantic_fits = rw e w.semantic_fits;
            exact_valid = valid;
            semantic_valid = rw e w.semantic_valid;
          }
        ]

  pub with_metrics :
      (c : QaCache F F32) (m : QaCacheMetrics F) → IsValid c → IsValid (record c { metrics = m })
  with_metrics c m v = record {
    exact_distinct = v.exact_distinct;
    semantic_distinct = v.semantic_distinct;
    exact_fits = v.exact_fits;
    semantic_fits = v.semantic_fits;
    exact_valid = v.exact_valid;
    semantic_valid = v.semantic_valid;
  }
