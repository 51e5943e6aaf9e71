-- ===== src/Services/QaService.antt =====
-- backend/internal/services/qa_service.go and rag.QueryRAG: `Query`, from the input to the answer, with
-- the cache's state, the calls of the embedder, the store and the summarizer in their order, and the
-- result. What these return is an argument, as are the times that the cache reads. Debug logs and the
-- usage scope are left out. Between the steps other queries may call the cache's methods; here the
-- query runs alone.
pub mod Private
pub mod Settles
pub mod Valid
pub mod Cached
use civika.Prelude.{
  ℕ, zero, suc, ◌+◌, Bool, true, false, not, ◌&&◌, ◌||◌, Option, none, some, List, [], ◌∷◌, ◌++◌,
  length, ltb, leb, ◌==◌, if◌then◌else◌,
}
use civika.Prelude.Int.{ℤ, pos, ltb_ℤ}
use civika.Prelude.Result.{Result, ok, err}
use civika.Text.{Str, codes, eqb, Runtime, trim_space}
use civika.Float.{FloatOps}
use civika.Services.Models.{QaQueryOutput, QaQueryInput}
use civika.Services.Keys.{QaCacheContext}
use civika.Services.CacheState.{QaCache}
use civika.Services.QaCache.{get_exact, get_semantic, set}
use civika.Services.CacheMetrics.{
  record_miss, record_bypass_sensitive_question, record_bypass_semantic_disabled,
  record_bypass_question_too_short, is_semantic_enabled_for_question,
}
use civika.Services.Redact.{sanitize_question, is_cacheable_question}
use civika.Rag.Document.{SearchHit}
use civika.Services.Answer.{
  normalize_non_empty_string, normalize_language, no_relevant_source_message, citations_of,
  dedupe_citations, compute_confidence, used_documents,
}

-- What the embedder, the store and the summarizer answer, with errors of a type `E`.
pub record Backend (F F32 S E : Type 0) : Type 0 where
  pub embedder_name : Str
  pub embed_query : Str → Result E (List F32)
  pub search_similar : List F32 → ℕ → Result E (List (SearchHit F S))
  pub summarizer_name : Str
  pub summarize : Str → List (SearchHit F S) → Str → Result E Str

-- A service: `none` is a dependency that is nil.
pub record QaService (F F32 S E : Type 0) : Type 0 where
  pub backend : Option (Backend F F32 S E)
  pub top_k : ℕ
  pub rag_mode : Str

pub data QaError (E : Type 0) : Type 0 where
  not_configured question_required : QaError E
  embed_for_cache embed search summarize_failed : E → QaError E

-- A call that leaves the process.
pub data Ask (F F32 S : Type 0) : Type 0 where
  embeds : Str → Ask F F32 S
  searches : List F32 → ℕ → Ask F F32 S
  summarizes : Str → List (SearchHit F S) → Str → Ask F F32 S

-- The times at which `GetExact`, `GetSemantic` and `Set` are called.
pub record Times : Type 0 where
  pub at_exact : ℕ
  pub at_semantic : ℕ
  pub at_set : ℕ

pub record Outcome (F F32 S E : Type 0) : Type 0 where
  pub cache : Option (QaCache F F32)
  pub asked : List (Ask F F32 S)
  pub result : Result (QaError E) (QaQueryOutput F)

-- `NewQAService`; `none` for a dependency that is nil.
unfoldable pub new_qa_service :
    {F F32 S E : Type 0} → Option (Backend F F32 S E) → ℤ → Str → QaService F F32 S E
unfolding trim_space
new_qa_service backend top_k rag_mode = record {
  backend = backend;
  top_k = elim top_k [ ℤ.pos zero ↦ 5 | ℤ.pos (suc n) ↦ suc n | ℤ.negsuc n ↦ 5 ];
  rag_mode = trim_space rag_mode;
}

-- A step before the rest: its calls come first.
unfoldable pub asking :
    {F F32 S E : Type 0} → List (Ask F F32 S) → Outcome F F32 S E → Outcome F F32 S E
asking calls o = record o { asked = calls ++ o.asked }

-- Which counter a cacheable question that skips the semantic cache adds to: the cache is off, or the
-- question is too short.
unfoldable pub bypass_counted :
    {F F32 : Type 0} → Bool → Bool → Bool → Option (QaCache F F32) → Option (QaCache F F32)
unfolding record_bypass_question_too_short record_bypass_semantic_disabled
bypass_counted false enabled long c = c
bypass_counted true false long c = record_bypass_semantic_disabled c
bypass_counted true true false c = record_bypass_question_too_short c
bypass_counted true true true c = c

module _ {F F32 S E : Type 0} (fl : FloatOps F F32) (rt : Runtime) (times : Times)
    (b : Backend F F32 S E) (top_k : ℕ) (safe_question : Str) (language : Str) (cacheable : Bool)
    (ctx : QaCacheContext) where
  -- `if s.cache != nil && cacheableQuestion { s.cache.Set(…) }; return output, nil`
  unfoldable pub answered : List F32 → QaQueryOutput F → Option (QaCache F F32) → Outcome F F32 S E
  answered vector output c = record {
    cache = if cacheable then set fl rt times.at_set safe_question vector ctx output c else c;
    asked = [];
    result = ok output;
  }

  -- The output when the summarizer has answered.
  unfoldable pub output_of_hits : Str → List (SearchHit F S) → QaQueryOutput F
  unfolding citations_of dedupe_citations compute_confidence used_documents
  output_of_hits answer hits = record {
    answer = answer;
    language = language;
    citations = dedupe_citations (citations_of rt hits);
    meta = record { confidence = compute_confidence fl hits; used_documents = used_documents hits };
  }

  unfoldable pub summarized :
      List F32 → List (SearchHit F S) → Result E Str → Option (QaCache F F32) → Outcome F F32 S E
  unfolding answered output_of_hits
  summarized vector hits (err e) c = record {
    cache = c;
    asked = [];
    result = err (summarize_failed e);
  }
  summarized vector hits (ok answer) c = answered vector (output_of_hits answer hits) c

  unfoldable pub no_hits_output : QaQueryOutput F
  unfolding no_relevant_source_message
  no_hits_output = record {
    answer = no_relevant_source_message rt language;
    language = language;
    citations = [];
    meta = record { confidence = fl.of_int (pos 0); used_documents = [] };
  }

  unfoldable pub searched :
      List F32 → Result E (List (SearchHit F S)) → Option (QaCache F F32) → Outcome F F32 S E
  unfolding answered summarized asking no_hits_output
  searched vector (err e) c = record { cache = c; asked = []; result = err (search e) }
  searched vector (ok []) c = answered vector no_hits_output c
  searched vector (ok (hit ∷ hits)) c =
      asking (summarizes safe_question (hit ∷ hits) language ∷ [])
        (summarized vector (hit ∷ hits) (b.summarize safe_question (hit ∷ hits) language) c)

  -- `QueryRAG` after the embedding. The answer is cached with `vector`, the one of the semantic cache.
  unfoldable pub embedded :
      List F32 → Result E (List F32) → Option (QaCache F F32) → Outcome F F32 S E
  unfolding searched asking
  embedded vector (err e) c = record { cache = c; asked = []; result = err (embed e) }
  embedded vector (ok query_vector) c =
      asking (searches query_vector top_k ∷ [])
        (searched vector (b.search_similar query_vector top_k) c)

  -- The search, with the vector of the semantic cache if there is one, or by `QueryRAG`.
  unfoldable pub query_rag : List F32 → Option (QaCache F F32) → Outcome F F32 S E
  unfolding searched embedded asking trim_space
  query_rag [] c =
      let trimmed = trim_space safe_question in
      if eqb trimmed []
      then record { cache = c; asked = []; result = err question_required }
      else asking (embeds trimmed ∷ []) (embedded [] (b.embed_query trimmed) c)
  query_rag (x ∷ vector) c =
      asking (searches (x ∷ vector) top_k ∷ [])
        (searched (x ∷ vector) (b.search_similar (x ∷ vector) top_k) c)

  -- `if s.cache != nil && cacheableQuestion { s.cache.RecordMiss() }`, and on.
  unfoldable pub missed : List F32 → Option (QaCache F F32) → Outcome F F32 S E
  unfolding query_rag record_miss
  missed vector c = query_rag vector (if cacheable then record_miss c else c)

  -- `GetSemantic`, and on.
  unfoldable pub semantic_looked_up :
      List F32 → Option (QaCache F F32) × F × Option (QaQueryOutput F) → Outcome F F32 S E
  unfolding missed
  semantic_looked_up vector (c, score, some output) = record {
    cache = c;
    asked = [];
    result = ok output;
  }
  semantic_looked_up vector (c, score, none) = missed vector c

  unfoldable pub semantic_embedded :
      Result E (List F32) → Option (QaCache F F32) → Outcome F F32 S E
  unfolding semantic_looked_up get_semantic
  semantic_embedded (err e) c = record { cache = c; asked = []; result = err (embed_for_cache e) }
  semantic_embedded (ok vector) c =
      semantic_looked_up vector (get_semantic fl rt times.at_semantic vector safe_question ctx c)

  -- The two counters of a bypass.
  unfoldable pub bypasses : Option (QaCache F F32) → Option (QaCache F F32)
  unfolding is_semantic_enabled_for_question bypass_counted
  bypasses none = none
  bypasses (some c) =
      bypass_counted cacheable c.cfg.semantic_enabled
        (is_semantic_enabled_for_question safe_question (some c)) (some c)

  -- The attempt at the semantic cache.
  unfoldable pub semantic_step : Option (QaCache F F32) → Outcome F F32 S E
  unfolding bypasses semantic_embedded missed asking is_semantic_enabled_for_question
  semantic_step c =
      let c' = bypasses c in
      if cacheable && is_semantic_enabled_for_question safe_question c'
      then asking (embeds safe_question ∷ []) (semantic_embedded (b.embed_query safe_question) c')
      else missed [] c'

  unfoldable pub exact_looked_up :
      Option (QaCache F F32) × Option (QaQueryOutput F) → Outcome F F32 S E
  unfolding semantic_step
  exact_looked_up (c, some output) = record { cache = c; asked = []; result = ok output }
  exact_looked_up (c, none) = semantic_step c

  -- From the check of the exact cache on.
  unfoldable pub exact_step : Option (QaCache F F32) → Outcome F F32 S E
  unfolding exact_looked_up semantic_step get_exact record_bypass_sensitive_question
  exact_step c =
      if cacheable
      then exact_looked_up (get_exact fl rt times.at_exact safe_question ctx c)
      else semantic_step (record_bypass_sensitive_question c)

module _ {F F32 S E : Type 0} (fl : FloatOps F F32) (rt : Runtime) where
  unfoldable pub cache_context :
      Backend F F32 S E → QaService F F32 S E → QaQueryInput → QaCacheContext
  unfolding normalize_language normalize_non_empty_string trim_space
  cache_context b s input = record {
    language = normalize_language rt input.language;
    votation_id = trim_space input.context.votation_id;
    object_id = trim_space input.context.object_id;
    canton = trim_space input.context.canton;
    rag_mode = normalize_non_empty_string s.rag_mode (codes "unknown");
    embedder_name = normalize_non_empty_string b.embedder_name (codes "unknown");
    summarizer_name = normalize_non_empty_string b.summarizer_name (codes "unknown");
    top_k = pos s.top_k;
  }

  -- `Query` with all dependencies present.
  unfoldable pub query_with :
      Backend F F32 S E
      → QaService F F32 S E
      → Times
      → QaQueryInput
      → Option (QaCache F F32)
      → Outcome F F32 S E
  unfolding trim_space sanitize_question is_cacheable_question normalize_language cache_context
      exact_step
  query_with b s times input c =
      let question = trim_space input.question in
      let safe_question = sanitize_question question in
      if eqb question []
      then record { cache = c; asked = []; result = err question_required }
      else exact_step fl rt times b s.top_k safe_question (normalize_language rt input.language)
          (is_cacheable_question safe_question) (cache_context b s input) c

  unfoldable pub query :
      QaService F F32 S E → Times → QaQueryInput → Option (QaCache F F32) → Outcome F F32 S E
  unfolding query_with
  query s times input c = elim s.backend [
    | none ↦ record { cache = c; asked = []; result = err not_configured }
    | some b ↦ query_with b s times input c
  ]
