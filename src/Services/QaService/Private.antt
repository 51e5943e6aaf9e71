-- ===== src/Services/QaService/Private.antt =====
-- backend/internal/services/qa_service.go: a question that the cache refuses.
use civika.Prelude.{ℕ, ◌≡◌, refl, false, Option, none, some, List, [], ◌∷◌, Bool-cases, inl, inr}
use civika.Prelude.Result.{Result, ok, err}
use civika.Text.{Str, eqb, Runtime, trim_space}
use civika.Float.{FloatOps}
use civika.Services.Models.{QaQueryInput}
use civika.Services.Keys.{QaCacheContext}
use civika.Services.CacheState.{QaCache}
use civika.Services.CacheMetrics.{record_bypass_sensitive_question}
use civika.Rag.Document.{SearchHit}
use civika.Services.Answer.{normalize_language}
use civika.Services.Redact.{sanitize_question, is_cacheable_question}
use civika.Services.QaService.{
  Backend, QaService, Times, Outcome, asking, answered, summarized, searched, embedded, query_rag,
  missed, bypasses, bypass_counted, semantic_step, exact_step, cache_context, query_with, query,
}

module _ {F F32 S E : Type 0} where
  -- An outcome `o` over the cache `c` is one over no cache, with `c` as it was.
  abbrev pub with_cache : Option (QaCache F F32) → Outcome F F32 S E → Outcome F F32 S E
  with_cache c o = record { cache = c; asked = o.asked; result = o.result }

module _ {F F32 S E : Type 0} (fl : FloatOps F F32) (rt : Runtime) (times : Times)
    (b : Backend F F32 S E) (top_k : ℕ) (safe_question : Str) (language : Str)
    (ctx : QaCacheContext) (c : Option (QaCache F F32)) where
  summarized-ignores :
      (vector : List F32) (hits : List (SearchHit F S)) (answer : Result E Str)
      → summarized fl rt times b top_k safe_question language false ctx vector hits answer c
        ≡ with_cache c (
            summarized fl rt times b top_k safe_question language false ctx vector hits answer none)
  unfolding summarized answered
  summarized-ignores vector hits (err e) = refl
  summarized-ignores vector hits (ok answer) = refl

  searched-ignores :
      (vector : List F32) (found : Result E (List (SearchHit F S)))
      → searched fl rt times b top_k safe_question language false ctx vector found c
        ≡ with_cache c
            (searched fl rt times b top_k safe_question language false ctx vector found none)
  unfolding searched answered asking
  searched-ignores vector (err e) = refl
  searched-ignores vector (ok []) = refl
  searched-ignores vector (ok (hit ∷ hits)) =
      rw (summarized-ignores vector (hit ∷ hits) (b.summarize safe_question (hit ∷ hits) language))
        refl

  embedded-ignores :
      (vector : List F32) (found : Result E (List F32))
      → embedded fl rt times b top_k safe_question language false ctx vector found c
        ≡ with_cache c
            (embedded fl rt times b top_k safe_question language false ctx vector found none)
  unfolding embedded asking
  embedded-ignores vector (err e) = refl
  embedded-ignores vector (ok query_vector) =
      rw (searched-ignores vector (b.search_similar query_vector top_k)) refl

  query_rag-ignores :
      (vector : List F32)
      → query_rag fl rt times b top_k safe_question language false ctx vector c
        ≡ with_cache c (query_rag fl rt times b top_k safe_question language false ctx vector none)
  unfolding query_rag asking
  query_rag-ignores [] = elim (Bool-cases (eqb (trim_space safe_question) [])) [
    | inl e ↦ rw e refl
    | inr e ↦ rw (e, embedded-ignores [] (b.embed_query (trim_space safe_question))) refl
  ]
  query_rag-ignores (x ∷ vector) =
      rw (searched-ignores (x ∷ vector) (b.search_similar (x ∷ vector) top_k)) refl

module _ {F F32 S E : Type 0} (fl : FloatOps F F32) (rt : Runtime) (times : Times)
    (b : Backend F F32 S E) (top_k : ℕ) (safe_question : Str) (language : Str)
    (ctx : QaCacheContext) where
  bypasses-ignores :
      (c : Option (QaCache F F32))
      → bypasses fl rt times b top_k safe_question language false ctx c ≡ c
  unfolding bypasses bypass_counted
  bypasses-ignores none = refl
  bypasses-ignores (some c) = refl

  pub exact_step-ignores :
      (c : Option (QaCache F F32))
      → exact_step fl rt times b top_k safe_question language false ctx c
        ≡ with_cache
            (record_bypass_sensitive_question c)
            (exact_step fl rt times b top_k safe_question language false ctx none)
  unfolding exact_step semantic_step missed record_bypass_sensitive_question
  exact_step-ignores c =
      rw (bypasses-ignores (record_bypass_sensitive_question c), bypasses-ignores none)
        (query_rag-ignores fl rt times b top_k safe_question language ctx
          (record_bypass_sensitive_question c) [])

module _ {F F32 S E : Type 0} (fl : FloatOps F F32) (rt : Runtime) (s : QaService F F32 S E)
    (b : Backend F F32 S E) (input : QaQueryInput) where
  -- With all dependencies present, a question that is not empty and that the cache refuses once it is
  -- cleaned: the query gives the result and the calls that it gives without a cache, and the cache
  -- that it leaves is the old one with one more counted in RecordBypassSensitiveQuestion, so that
  -- neither a success nor an error reads or keeps an answer.
  pub query_sensitive :
      (times : Times) (c : Option (QaCache F F32))
      → s.backend ≡ some b
      → eqb (trim_space input.question) [] ≡ false
      → is_cacheable_question (sanitize_question (trim_space input.question)) ≡ false
      → query fl rt s times input c
        ≡ with_cache (record_bypass_sensitive_question c) (query fl rt s times input none)
  unfolding query query_with
  query_sensitive times c present asked refused =
      rw (present, asked, refused)
        (exact_step-ignores fl rt times b s.top_k (sanitize_question (trim_space input.question))
          (normalize_language rt input.language) (cache_context fl rt b s input) c)
