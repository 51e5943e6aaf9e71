-- ===== src/Services/QaCache/Runs.antt =====
-- backend/internal/services/qa_cache.go: sequences of the cache's calls.
use civika.Prelude.{ℕ, Option, none, some, List, [], ◌∷◌, Bool-cases, inl, inr, arith}
use civika.Text.{Str, Runtime}
use civika.Float.{FloatOps}
use civika.Services.Models.{QaQueryOutput}
use civika.Services.Keys.{QaCacheContext}
use civika.Services.CacheState.{QaCacheConfig, QaCache}
use civika.Services.QaCache.{get_exact, get_semantic, set}
use civika.Services.CacheMetrics.{
  new_qa_cache, record_miss, record_bypass_sensitive_question, record_bypass_semantic_disabled,
  record_bypass_question_too_short, metrics_snapshot,
}
use civika.Services.QaCache.Invariant.{
  OptionIsValid, remove_expired-IsValid, get_exact-IsValid, get_semantic-IsValid, set-IsValid,
  with_metrics,
}

module _ {F F32 : Type 0} (fl : FloatOps F F32) (rt : Runtime) where
  -- The calls of the cache's methods, each at its time.
  pub data Call : Type 0 where
    gets_exact : ℕ → Str → QaCacheContext → Call
    gets_semantic : ℕ → List F32 → Str → QaCacheContext → Call
    sets : ℕ → Str → List F32 → QaCacheContext → QaQueryOutput F → Call
    records_miss : Call
    records_bypass_sensitive_question : Call
    records_bypass_semantic_disabled : Call
    records_bypass_question_too_short : Call
    takes_snapshot : ℕ → Call

  unfoldable pub step : Option (QaCache F F32) → Call → Option (QaCache F F32)
  step c (gets_exact now q ctx) = (get_exact fl rt now q ctx c).0
  step c (gets_semantic now v q ctx) = (get_semantic fl rt now v q ctx c).0
  step c (sets now q v ctx output) = set fl rt now q v ctx output c
  step c records_miss = record_miss c
  step c records_bypass_sensitive_question = record_bypass_sensitive_question c
  step c records_bypass_semantic_disabled = record_bypass_semantic_disabled c
  step c records_bypass_question_too_short = record_bypass_question_too_short c
  step c (takes_snapshot now) = (metrics_snapshot fl now c).0

  unfoldable pub run : Option (QaCache F F32) → List Call → Option (QaCache F F32)
  unfolding step
  run c [] = c
  run c (call ∷ calls) = run (step c call) calls

  pub step-IsValid :
      (o : Option (QaCache F F32)) (call : Call)
      → OptionIsValid fl rt o
      → OptionIsValid fl rt (step o call)
  unfolding step record_miss record_bypass_sensitive_question record_bypass_semantic_disabled
      record_bypass_question_too_short metrics_snapshot
  step-IsValid o (gets_exact now q ctx) v = get_exact-IsValid fl rt now q ctx o v
  step-IsValid o (gets_semantic now vec q ctx) v = get_semantic-IsValid fl rt now q vec ctx o v
  step-IsValid o (sets now q vec ctx output) v = set-IsValid fl rt now q vec ctx output o v
  step-IsValid none _ v = tt
  step-IsValid (some c) records_miss v = with_metrics fl rt c _ v
  step-IsValid (some c) records_bypass_sensitive_question v = with_metrics fl rt c _ v
  step-IsValid (some c) records_bypass_semantic_disabled v = with_metrics fl rt c _ v
  step-IsValid (some c) records_bypass_question_too_short v = with_metrics fl rt c _ v
  step-IsValid (some c) (takes_snapshot now) v = remove_expired-IsValid fl rt now c v

  run-IsValid :
      (o : Option (QaCache F F32)) (calls : List Call)
      → OptionIsValid fl rt o
      → OptionIsValid fl rt (run o calls)
  unfolding run
  run-IsValid o [] v = v
  run-IsValid o (call ∷ calls) v = run-IsValid (step o call) calls (step-IsValid o call v)

  pub new_qa_cache-IsValid : (cfg : QaCacheConfig F) → OptionIsValid fl rt (new_qa_cache fl cfg)
  unfolding new_qa_cache
  new_qa_cache-IsValid cfg = elim (Bool-cases cfg.enabled) [
    | inl e ↦ rw e (record {
      exact_distinct = tt;
      semantic_distinct = tt;
      exact_fits = inr (omega arith);
      semantic_fits = inr (omega arith);
      exact_valid = tt;
      semantic_valid = tt;
    })
    | inr e ↦ rw e tt
  ]

  -- After any sequence of the cache's calls (GetExact, GetSemantic, Set, the four counters,
  -- MetricsSnapshot) at any times, from NewQACache with any configuration on: no key stands twice in a
  -- map, each map fits its bound (a bound of 0 is none), each entry stands under its own key and
  -- expires its TTL after its creation, and each semantic entry has a vector and the key of its
  -- question and context.
  pub run-new-IsValid :
      (cfg : QaCacheConfig F) (calls : List Call)
      → OptionIsValid fl rt (run (new_qa_cache fl cfg) calls)
  run-new-IsValid cfg calls = run-IsValid (new_qa_cache fl cfg) calls (new_qa_cache-IsValid cfg)
