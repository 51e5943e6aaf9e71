-- ===== src/Services/CacheMetrics.antt =====
-- backend/internal/services/qa_cache.go: the counters of the cache and their snapshot.
use civika.Prelude.{
  ℕ, ◌+◌, Bool, false, not, Option, none, some, [], length, ltb, leb, if◌then◌else◌,
}
use civika.Prelude.Int.{pos}
use civika.Text.{Str, trim_space}
use civika.Float.{FloatOps}
use civika.Services.CacheState.{QaCacheConfig, QaCache, QaCacheMetricsSnapshot}
use civika.Services.Upkeep.{remove_expired}

-- A ratio of two counters: 0 if nothing was counted.
unfoldable pub rate_of : {F F32 : Type 0} → FloatOps F F32 → F → ℕ → F
rate_of fl sum count = if ltb 0 count then fl.div sum (fl.of_int (pos count)) else fl.of_int (pos 0)

unfoldable pub round_metric : {F F32 : Type 0} → FloatOps F F32 → F → F
round_metric fl value =
    fl.div (fl.round (fl.mul value (fl.of_int (pos 10000)))) (fl.of_int (pos 10000))

module _ {F F32 : Type 0} where
  unfoldable pub new_qa_cache : FloatOps F F32 → QaCacheConfig F → Option (QaCache F F32)
  new_qa_cache fl cfg =
      if not cfg.enabled
      then none
      else some (record {
        cfg = cfg;
        exact_entries = [];
        semantic_entries = [];
        metrics = record {
          exact_hits = 0;
          semantic_hits = 0;
          misses = 0;
          bypass_sensitive_question = 0;
          bypass_semantic_disabled = 0;
          bypass_question_too_short = 0;
          semantic_score_sum_on_hit = fl.of_int (pos 0);
          semantic_score_count_on_hit = 0;
          saved_input_tokens_estimate = 0;
          saved_output_tokens_estimate = 0;
          saved_total_tokens_estimate = 0;
        };
      })

  unfoldable pub is_semantic_enabled_for_question : Str → Option (QaCache F F32) → Bool
  is_semantic_enabled_for_question question none = false
  is_semantic_enabled_for_question question (some c) =
      if not c.cfg.semantic_enabled
      then false
      else leb c.cfg.min_semantic_question_chars (length (trim_space question))

  unfoldable pub record_miss : Option (QaCache F F32) → Option (QaCache F F32)
  record_miss none = none
  record_miss (some c) =
      some (record c { metrics = record c.metrics { misses = c.metrics.misses + 1 } })

  unfoldable pub record_bypass_sensitive_question : Option (QaCache F F32) → Option (QaCache F F32)
  record_bypass_sensitive_question none = none
  record_bypass_sensitive_question (some c) = some (record c {
    metrics = record c.metrics {
      bypass_sensitive_question = c.metrics.bypass_sensitive_question + 1;
    };
  })

  unfoldable pub record_bypass_semantic_disabled : Option (QaCache F F32) → Option (QaCache F F32)
  record_bypass_semantic_disabled none = none
  record_bypass_semantic_disabled (some c) = some (record c {
    metrics = record c.metrics {
      bypass_semantic_disabled = c.metrics.bypass_semantic_disabled + 1;
    };
  })

  unfoldable pub record_bypass_question_too_short : Option (QaCache F F32) → Option (QaCache F F32)
  record_bypass_question_too_short none = none
  record_bypass_question_too_short (some c) = some (record c {
    metrics = record c.metrics {
      bypass_question_too_short = c.metrics.bypass_question_too_short + 1;
    };
  })

  -- The snapshot, and the cache without its expired entries. `none` is the zero snapshot of no cache.
  unfoldable pub metrics_snapshot :
      FloatOps F F32
      → ℕ
      → Option (QaCache F F32)
      → Option (QaCache F F32) × Option (QaCacheMetricsSnapshot F)
  unfolding remove_expired rate_of round_metric
  metrics_snapshot fl now none = (none, none)
  metrics_snapshot fl now (some c) =
      let c' = remove_expired now c in
      let m = c'.metrics in
      let total_lookups = m.exact_hits + m.semantic_hits + m.misses in
      (
        some c',
        some (record {
          enabled = c'.cfg.enabled;
          semantic_enabled = c'.cfg.semantic_enabled;
          exact_entries = length c'.exact_entries;
          semantic_entries = length c'.semantic_entries;
          exact_hits = m.exact_hits;
          semantic_hits = m.semantic_hits;
          misses = m.misses;
          bypass_sensitive_question = m.bypass_sensitive_question;
          bypass_semantic_disabled = m.bypass_semantic_disabled;
          bypass_question_too_short = m.bypass_question_too_short;
          hit_rate =
              round_metric fl
                (rate_of fl (fl.of_int (pos (m.exact_hits + m.semantic_hits))) total_lookups);
          semantic_hit_rate =
              round_metric fl (rate_of fl (fl.of_int (pos m.semantic_hits)) total_lookups);
          semantic_score_mean_on_hit =
              round_metric fl
                (rate_of fl m.semantic_score_sum_on_hit m.semantic_score_count_on_hit);
          saved_input_tokens_estimate = m.saved_input_tokens_estimate;
          saved_output_tokens_estimate = m.saved_output_tokens_estimate;
          saved_total_tokens_estimate = m.saved_total_tokens_estimate;
        }),
      )
