-- ===== src/Services/QaCache/Descent.antt =====
-- Steps that give a cache no new answer: the configuration stays, and what is under a key was there.
use civika.Prelude.{ℕ, ◌≡◌, refl, sym, ◌∙◌, Option, none, some, List, [], ◌⊎◌, inl, inr, arith}
use civika.Prelude.Int.{negsuc}
use civika.Text.{Str, Runtime}
use civika.Float.{FloatOps}
use civika.GoMap.{lookup}
use civika.Services.Keys.{QaCacheContext, build_context_hash}
use civika.Services.CacheState.{QaCacheEntry, QaCache, QaCacheMetrics}
use civika.Services.Upkeep.{remove_expired}
use civika.Services.Upkeep.Expiry.{lookup-remove_expired}
use civika.Services.Similarity.{best_match}
use civika.Services.QaCache.{exact_hit, get_exact, semantic_hit, get_semantic}
use civika.Services.QaCache.Invariant.{IsValid, remove_expired-IsValid, with_metrics}
use civika.Services.QaCache.Hits.{live_of_kept}
use civika.Services.CacheMetrics.{
  record_miss, record_bypass_semantic_disabled, record_bypass_question_too_short,
}

module _ {F F32 : Type 0} (fl : FloatOps F F32) (rt : Runtime) where
  pub record Descends (c d : QaCache F F32) : Type 0 where
    pub same_cfg : d.cfg ≡ c.cfg
    pub valid : IsValid fl rt d
    pub no_new :
        (k : Str) (e : QaCacheEntry F F32)
        → lookup k d.exact_entries ≡ some e
        → lookup k c.exact_entries ≡ some e

  abbrev pub DescendsTo : QaCache F F32 → Option (QaCache F F32) → Type 0
  DescendsTo c o = (d : QaCache F F32) × (o ≡ some d) × Descends c d

  pub Descends-refl : (c : QaCache F F32) → IsValid fl rt c → Descends c c
  Descends-refl c v = record { same_cfg = refl; valid = v; no_new = λ k e h. h }

  pub Descends-trans : (c d e : QaCache F F32) → Descends c d → Descends d e → Descends c e
  Descends-trans c d e p q = record {
    same_cfg = q.same_cfg ∙ p.same_cfg;
    valid = q.valid;
    no_new = λ k f h. p.no_new k f (q.no_new k f h);
  }

  remove_expired-Descends :
      (now : ℕ) (c : QaCache F F32) → IsValid fl rt c → Descends c (remove_expired now c)
  remove_expired-Descends now c v = record {
    same_cfg = unfold remove_expired in refl;
    valid = remove_expired-IsValid fl rt now c v;
    no_new = λ k e h.
        (live_of_kept now (lookup k c.exact_entries) e
          (sym (lookup-remove_expired now k c v.exact_distinct) ∙ h)).0;
  }

  metrics-Descends :
      (c : QaCache F F32) (m : QaCacheMetrics F)
      → IsValid fl rt c
      → Descends c (record c { metrics = m })
  metrics-Descends c m v = record {
    same_cfg = refl;
    valid = with_metrics fl rt c m v;
    no_new = λ k e h. h;
  }

  pub record_miss-DescendsTo :
      (c : QaCache F F32) → IsValid fl rt c → DescendsTo c (record_miss (some c))
  unfolding record_miss
  record_miss-DescendsTo c v = (_, refl, metrics-Descends c _ v)

  pub disabled-DescendsTo :
      (c : QaCache F F32)
      → IsValid fl rt c
      → DescendsTo c (record_bypass_semantic_disabled (some c))
  unfolding record_bypass_semantic_disabled
  disabled-DescendsTo c v = (_, refl, metrics-Descends c _ v)

  pub too_short-DescendsTo :
      (c : QaCache F F32)
      → IsValid fl rt c
      → DescendsTo c (record_bypass_question_too_short (some c))
  unfolding record_bypass_question_too_short
  too_short-DescendsTo c v = (_, refl, metrics-Descends c _ v)

  module _ (now : ℕ) (question : Str) (ctx : QaCacheContext) (c : QaCache F F32) where
    exact_miss :
        (key : Str) (d : QaCache F F32) (o : Option (QaCacheEntry F F32))
        → (exact_hit fl rt now question key d o).1 ≡ none
        → (exact_hit fl rt now question key d o).0 ≡ some d
    unfolding exact_hit
    exact_miss key d none h = refl
    exact_miss key d (some e) h = cc

    -- A miss of the exact cache.
    pub get_exact_miss-DescendsTo :
        IsValid fl rt c
        → (get_exact fl rt now question ctx (some c)).1 ≡ none
        → DescendsTo c (get_exact fl rt now question ctx (some c)).0
    unfolding get_exact
    get_exact_miss-DescendsTo v h = (
      remove_expired now c,
      exact_miss _ (remove_expired now c) _ h,
      remove_expired-Descends now c v,
    )

    semantic_miss :
        (d : QaCache F F32) (best : Str × F) (o : Option (QaCacheEntry F F32))
        → (semantic_hit fl rt now question d best o).2 ≡ none
        → (semantic_hit fl rt now question d best o).0 ≡ some d
    unfolding semantic_hit
    semantic_miss d best none h = refl
    semantic_miss d best (some e) h = cc

    -- The cache after a miss is the old one, or the old one without the expired entries.
    semantic_miss-cases :
        (vector : List F32)
        → (get_semantic fl rt now vector question ctx (some c)).2 ≡ none
        → ((get_semantic fl rt now vector question ctx (some c)).0 ≡ some c)
          ⊎ ((get_semantic fl rt now vector question ctx (some c)).0 ≡ some (remove_expired now c))
    unfolding get_semantic
    semantic_miss-cases vector h =
        let best =
          best_match fl vector (build_context_hash rt ctx) (remove_expired now c).semantic_entries
            ([], fl.of_int (negsuc 0)) in
        ground (
          arith,
          semantic_miss (remove_expired now c) best
              (lookup best.0 (remove_expired now c).semantic_entries),
        )

    -- A miss of the semantic cache.
    pub get_semantic_miss-DescendsTo :
        (vector : List F32)
        → IsValid fl rt c
        → (get_semantic fl rt now vector question ctx (some c)).2 ≡ none
        → DescendsTo c (get_semantic fl rt now vector question ctx (some c)).0
    get_semantic_miss-DescendsTo vector v h = elim (semantic_miss-cases vector h) [
      | inl e ↦ (c, e, Descends-refl c v)
      | inr e ↦ (remove_expired now c, e, remove_expired-Descends now c v)
    ]
