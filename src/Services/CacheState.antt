-- ===== src/Services/CacheState.antt =====
-- backend/internal/services/qa_cache.go: the state of the answers' cache. An instant is its number of
-- nanoseconds since Go's zero time, which is 0. The configuration's bounds are natural numbers, as
-- the loader of the configuration leaves none of them below 1. Counters do not wrap: int64 holds
-- more events than a process can count.
use civika.Prelude.{ℕ, Bool, List}
use civika.Text.{Str}
use civika.GoMap.{Map}
use civika.Services.Models.{QaQueryOutput}

pub record QaCacheConfig (F : Type 0) : Type 0 where
  pub enabled : Bool
  pub exact_ttl : ℕ
  pub exact_max_entries : ℕ
  pub semantic_enabled : Bool
  pub semantic_ttl : ℕ
  pub semantic_max_entries : ℕ
  pub similarity_threshold : F
  pub min_semantic_question_chars : ℕ

pub record QaCacheEntry (F F32 : Type 0) : Type 0 where
  pub key : Str
  pub question_hash : Str
  pub context_hash : Str
  pub question_vector : List F32
  pub output : QaQueryOutput F
  pub created_at : ℕ
  pub expires_at : ℕ
  pub last_hit_at : ℕ
  pub hit_count : ℕ

pub record QaCacheMetrics (F : Type 0) : Type 0 where
  pub exact_hits : ℕ
  pub semantic_hits : ℕ
  pub misses : ℕ
  pub bypass_sensitive_question : ℕ
  pub bypass_semantic_disabled : ℕ
  pub bypass_question_too_short : ℕ
  pub semantic_score_sum_on_hit : F
  pub semantic_score_count_on_hit : ℕ
  pub saved_input_tokens_estimate : ℕ
  pub saved_output_tokens_estimate : ℕ
  pub saved_total_tokens_estimate : ℕ

pub record QaCache (F F32 : Type 0) : Type 0 where
  pub cfg : QaCacheConfig F
  pub exact_entries : Map (QaCacheEntry F F32)
  pub semantic_entries : Map (QaCacheEntry F F32)
  pub metrics : QaCacheMetrics F

pub record QaCacheMetricsSnapshot (F : Type 0) : Type 0 where
  pub enabled : Bool
  pub semantic_enabled : Bool
  pub exact_entries : ℕ
  pub semantic_entries : ℕ
  pub exact_hits : ℕ
  pub semantic_hits : ℕ
  pub misses : ℕ
  pub bypass_sensitive_question : ℕ
  pub bypass_semantic_disabled : ℕ
  pub bypass_question_too_short : ℕ
  pub hit_rate : F
  pub semantic_hit_rate : F
  pub semantic_score_mean_on_hit : F
  pub saved_input_tokens_estimate : ℕ
  pub saved_output_tokens_estimate : ℕ
  pub saved_total_tokens_estimate : ℕ
