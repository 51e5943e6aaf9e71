-- ===== src/Services/QaService/Valid.antt =====
-- backend/internal/services/qa_service.go: the validity of the cache over a query.
use civika.Prelude.{
  ℕ, Bool, true, false, ◌&&◌, Option, none, some, List, [], ◌∷◌, Bool-cases, inl, inr,
  if◌then◌else◌,
}
use civika.Prelude.Result.{Result, ok, err}
use civika.Text.{Str, eqb, Runtime, trim_space}
use civika.Float.{FloatOps}
use civika.Services.Models.{QaQueryInput, QaQueryOutput}
use civika.Services.Keys.{QaCacheContext}
use civika.Services.CacheState.{QaCache}
use civika.Services.QaCache.{get_exact, get_semantic, set}
use civika.Services.QaCache.Invariant.{
  OptionIsValid, get_exact-IsValid, get_semantic-IsValid, set-IsValid, with_metrics,
}
use civika.Services.CacheMetrics.{
  record_miss, record_bypass_sensitive_question, record_bypass_semantic_disabled,
  record_bypass_question_too_short, is_semantic_enabled_for_question,
}
use civika.Rag.Document.{SearchHit}
use civika.Services.Answer.{normalize_language}
use civika.Services.Redact.{sanitize_question, is_cacheable_question}
use civika.Services.QaService.{
  Backend, QaService, not_configured, Times, Outcome, asking, answered, summarized, searched,
  embedded, query_rag, missed, semantic_looked_up, semantic_embedded, bypasses, bypass_counted,
  semantic_step, exact_looked_up, exact_step, cache_context, query_with, query,
}

module _ {F F32 : Type 0} (fl : FloatOps F F32) (rt : Runtime) where
  chosen-IsValid :
      (b : Bool) (c d : Option (QaCache F F32))
      → OptionIsValid fl rt c
      → OptionIsValid fl rt d
      → OptionIsValid fl rt (if b then c else d)
  chosen-IsValid true c d v w = v
  chosen-IsValid false c d v w = w

  record_miss-IsValid :
      (c : Option (QaCache F F32)) → OptionIsValid fl rt c → OptionIsValid fl rt (record_miss c)
  unfolding record_miss
  record_miss-IsValid none v = tt
  record_miss-IsValid (some c) v = with_metrics fl rt c _ v

  sensitive-IsValid :
      (c : Option (QaCache F F32))
      → OptionIsValid fl rt c
      → OptionIsValid fl rt (record_bypass_sensitive_question c)
  unfolding record_bypass_sensitive_question
  sensitive-IsValid none v = tt
  sensitive-IsValid (some c) v = with_metrics fl rt c _ v

  bypass_counted-IsValid :
      (cacheable enabled long : Bool) (c : QaCache F F32)
      → OptionIsValid fl rt (some c)
      → OptionIsValid fl rt (bypass_counted cacheable enabled long (some c))
  unfolding bypass_counted record_bypass_semantic_disabled record_bypass_question_too_short
  bypass_counted-IsValid false enabled long c v = v
  bypass_counted-IsValid true false long c v = with_metrics fl rt c _ v
  bypass_counted-IsValid true true false c v = with_metrics fl rt c _ v
  bypass_counted-IsValid true true true c v = v

module _ {F F32 S E : Type 0} (fl : FloatOps F F32) (rt : Runtime) (times : Times)
    (b : Backend F F32 S E) (top_k : ℕ) (safe_question : Str) (language : Str) (cacheable : Bool)
    (ctx : QaCacheContext) where
  answered-IsValid :
      (vector : List F32) (output : QaQueryOutput F) (c : Option (QaCache F F32))
      → OptionIsValid fl rt c
      → OptionIsValid fl rt
          (answered fl rt times b top_k safe_question language cacheable ctx vector output c).cache
  unfolding answered
  answered-IsValid vector output c v =
      chosen-IsValid fl rt cacheable (set fl rt times.at_set safe_question vector ctx output c) c
        (set-IsValid fl rt times.at_set safe_question vector ctx output c v) v

  summarized-IsValid :
      (vector : List F32) (hits : List (SearchHit F S)) (answer : Result E Str)
      (c : Option (QaCache F F32))
      → OptionIsValid fl rt c
      → OptionIsValid fl rt
          (summarized fl rt times b top_k safe_question language cacheable ctx vector hits answer
            c).cache
  unfolding summarized
  summarized-IsValid vector hits (err e) c v = v
  summarized-IsValid vector hits (ok answer) c v = answered-IsValid vector _ c v

  searched-IsValid :
      (vector : List F32) (found : Result E (List (SearchHit F S))) (c : Option (QaCache F F32))
      → OptionIsValid fl rt c
      → OptionIsValid fl rt
          (searched fl rt times b top_k safe_question language cacheable ctx vector found c).cache
  unfolding searched asking
  searched-IsValid vector (err e) c v = v
  searched-IsValid vector (ok []) c v = answered-IsValid vector _ c v
  searched-IsValid vector (ok (hit ∷ hits)) c v =
      summarized-IsValid vector (hit ∷ hits) (b.summarize safe_question (hit ∷ hits) language) c v

  embedded-IsValid :
      (vector : List F32) (found : Result E (List F32)) (c : Option (QaCache F F32))
      → OptionIsValid fl rt c
      → OptionIsValid fl rt
          (embedded fl rt times b top_k safe_question language cacheable ctx vector found c).cache
  unfolding embedded asking
  embedded-IsValid vector (err e) c v = v
  embedded-IsValid vector (ok query_vector) c v =
      searched-IsValid vector (b.search_similar query_vector top_k) c v

  query_rag-IsValid :
      (vector : List F32) (c : Option (QaCache F F32))
      → OptionIsValid fl rt c
      → OptionIsValid fl rt
          (query_rag fl rt times b top_k safe_question language cacheable ctx vector c).cache
  unfolding query_rag asking
  query_rag-IsValid [] c v = elim (Bool-cases (eqb (trim_space safe_question) [])) [
    | inl e ↦ rw e v
    | inr e ↦ rw e (embedded-IsValid [] (b.embed_query (trim_space safe_question)) c v)
  ]
  query_rag-IsValid (x ∷ vector) c v =
      searched-IsValid (x ∷ vector) (b.search_similar (x ∷ vector) top_k) c v

  missed-IsValid :
      (vector : List F32) (c : Option (QaCache F F32))
      → OptionIsValid fl rt c
      → OptionIsValid fl rt
          (missed fl rt times b top_k safe_question language cacheable ctx vector c).cache
  unfolding missed
  missed-IsValid vector c v =
      query_rag-IsValid vector (if cacheable then record_miss c else c)
        (chosen-IsValid fl rt cacheable (record_miss c) c (record_miss-IsValid fl rt c v) v)

  semantic_looked_up-IsValid :
      (vector : List F32) (r : Option (QaCache F F32) × F × Option (QaQueryOutput F))
      → OptionIsValid fl rt r.0
      → OptionIsValid fl rt
          (semantic_looked_up fl rt times b top_k safe_question language cacheable ctx vector
            r).cache
  unfolding semantic_looked_up
  semantic_looked_up-IsValid vector (c, score, some output) v = v
  semantic_looked_up-IsValid vector (c, score, none) v = missed-IsValid vector c v

  semantic_embedded-IsValid :
      (found : Result E (List F32)) (c : Option (QaCache F F32))
      → OptionIsValid fl rt c
      → OptionIsValid fl rt
          (semantic_embedded fl rt times b top_k safe_question language cacheable ctx found c).cache
  unfolding semantic_embedded
  semantic_embedded-IsValid (err e) c v = v
  semantic_embedded-IsValid (ok vector) c v =
      semantic_looked_up-IsValid vector
        (get_semantic fl rt times.at_semantic vector safe_question ctx c)
        (get_semantic-IsValid fl rt times.at_semantic safe_question vector ctx c v)

  bypasses-IsValid :
      (c : Option (QaCache F F32))
      → OptionIsValid fl rt c
      → OptionIsValid fl rt (bypasses fl rt times b top_k safe_question language cacheable ctx c)
  unfolding bypasses
  bypasses-IsValid none v = tt
  bypasses-IsValid (some c) v = bypass_counted-IsValid fl rt cacheable _ _ c v

  semantic_step-IsValid :
      (c : Option (QaCache F F32))
      → OptionIsValid fl rt c
      → OptionIsValid fl rt
          (semantic_step fl rt times b top_k safe_question language cacheable ctx c).cache
  unfolding semantic_step asking
  semantic_step-IsValid c v =
      let d = bypasses fl rt times b top_k safe_question language cacheable ctx c in
      let w = bypasses-IsValid c v in
      elim (Bool-cases (cacheable && is_semantic_enabled_for_question safe_question d)) [
        | inl e ↦ rw e (semantic_embedded-IsValid (b.embed_query safe_question) d w)
        | inr e ↦ rw e (missed-IsValid [] d w)
      ]

  exact_looked_up-IsValid :
      (r : Option (QaCache F F32) × Option (QaQueryOutput F))
      → OptionIsValid fl rt r.0
      → OptionIsValid fl rt
          (exact_looked_up fl rt times b top_k safe_question language cacheable ctx r).cache
  unfolding exact_looked_up
  exact_looked_up-IsValid (c, some output) v = v
  exact_looked_up-IsValid (c, none) v = semantic_step-IsValid c v

module _ {F F32 S E : Type 0} (fl : FloatOps F F32) (rt : Runtime) (times : Times)
    (b : Backend F F32 S E) (top_k : ℕ) (safe_question : Str) (language : Str)
    (ctx : QaCacheContext) where
  exact_step-IsValid :
      (cacheable : Bool) (c : Option (QaCache F F32))
      → OptionIsValid fl rt c
      → OptionIsValid fl rt
          (exact_step fl rt times b top_k safe_question language cacheable ctx c).cache
  unfolding exact_step
  exact_step-IsValid true c v =
      exact_looked_up-IsValid fl rt times b top_k safe_question language true ctx
        (get_exact fl rt times.at_exact safe_question ctx c)
        (get_exact-IsValid fl rt times.at_exact safe_question ctx c v)
  exact_step-IsValid false c v =
      semantic_step-IsValid fl rt times b top_k safe_question language false ctx
        (record_bypass_sensitive_question c) (sensitive-IsValid fl rt c v)

module _ {F F32 S E : Type 0} (fl : FloatOps F F32) (rt : Runtime) where
  query_with-IsValid :
      (b : Backend F F32 S E) (s : QaService F F32 S E) (times : Times) (input : QaQueryInput)
      (c : Option (QaCache F F32))
      → OptionIsValid fl rt c
      → OptionIsValid fl rt (query_with fl rt b s times input c).cache
  unfolding query_with
  query_with-IsValid b s times input c v = elim (Bool-cases (eqb (trim_space input.question) [])) [
    | inl e ↦ rw e v
    | inr e ↦ rw e (
        exact_step-IsValid fl rt times b s.top_k (sanitize_question (trim_space input.question))
          (normalize_language rt input.language) (cache_context fl rt b s input)
          (is_cacheable_question (sanitize_question (trim_space input.question))) c v)
  ]

  -- For any service, input and times, and any answers of the embedder, the store and the summarizer: a
  -- query over no cache or over a valid cache leaves no invalid cache, on each early return, error and
  -- answer.
  pub query-IsValid :
      (s : QaService F F32 S E) (times : Times) (input : QaQueryInput) (c : Option (QaCache F F32))
      → OptionIsValid fl rt c
      → OptionIsValid fl rt (query fl rt s times input c).cache
  unfolding query
  query-IsValid s times input c v =
      elim s.backend
        as (λ o. OptionIsValid fl rt (
          (elim o as (λ x. Outcome F F32 S E) [
            | none ↦ record { cache = c; asked = []; result = err not_configured }
            | some b ↦ query_with fl rt b s times input c
          ]).cache)) [ none ↦ v | some b ↦ query_with-IsValid b s times input c v ]
