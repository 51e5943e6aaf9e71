-- ===== src/Services/QaService/Settles.antt =====
-- backend/internal/services/qa_service.go: how a query with a cacheable question ends.
use civika.Prelude.{
  ℕ, ◌≡◌, refl, Bool, true, false, Option, none, some, List, [], ◌∷◌, any, Bool-cases, ◌⊎◌, inl,
  inr,
}
use civika.Prelude.Result.{Result, ok, err}
use civika.Text.{Str, eqb, Runtime, trim_space}
use civika.Float.{FloatOps}
use civika.Services.Models.{QaQueryOutput}
use civika.Services.Keys.{QaCacheContext}
use civika.Services.CacheState.{QaCache}
use civika.Services.QaCache.{get_exact, get_semantic, set}
use civika.Services.QaCache.Invariant.{IsValid}
use civika.Services.QaCache.Descent.{
  Descends, DescendsTo, Descends-refl, Descends-trans, get_exact_miss-DescendsTo,
  get_semantic_miss-DescendsTo, record_miss-DescendsTo, disabled-DescendsTo, too_short-DescendsTo,
}
use civika.Services.CacheMetrics.{is_semantic_enabled_for_question}
use civika.Rag.Document.{SearchHit}
use civika.Services.Answer.{}
use civika.Services.QaService.{
  Backend, QaError, Ask, embeds, searches, summarizes, Times, Outcome, asking, answered, summarized,
  searched, embedded, query_rag, missed, semantic_looked_up, semantic_embedded, bypasses,
  bypass_counted, semantic_step, exact_looked_up, exact_step,
}

-- The calls include a search.
abbrev pub is_search : {F F32 S : Type 0} → Ask F F32 S → Bool
is_search (embeds q) = false
is_search (searches v k) = true
is_search (summarizes q hits l) = false

module _ {F F32 S E : Type 0} (fl : FloatOps F F32) (rt : Runtime) (times : Times)
    (b : Backend F F32 S E) (top_k : ℕ) (safe_question : Str) (language : Str)
    (ctx : QaCacheContext) where
  abbrev pub HasFailed : QaCache F F32 → Outcome F F32 S E → Type 0
  HasFailed c o = (e : QaError E) × (o.result ≡ err e) × DescendsTo fl rt c o.cache

  abbrev pub HasStored : QaCache F F32 → Outcome F F32 S E → Type 0
  HasStored c o =
      (output : QaQueryOutput F) × (vector : List F32) × (d : QaCache F F32) × (o.result
        ≡ ok output)
      × (o.cache ≡ set fl rt times.at_set safe_question vector ctx output (some d))
      × Descends fl rt c d

  -- A query ends with an error and no new answer in the cache, or stores its answer.
  abbrev pub Settles : QaCache F F32 → Outcome F F32 S E → Type 0
  Settles c o = HasFailed c o ⊎ HasStored c o

  answered-Settles :
      (vector : List F32) (output : QaQueryOutput F) (c : QaCache F F32)
      → IsValid fl rt c
      → Settles c
          (answered fl rt times b top_k safe_question language true ctx vector output (some c))
  unfolding answered
  answered-Settles vector output c v = inr (output, vector, c, refl, refl, Descends-refl fl rt c v)

  summarized-Settles :
      (vector : List F32) (hits : List (SearchHit F S)) (answer : Result E Str) (c : QaCache F F32)
      → IsValid fl rt c
      → Settles c (
          summarized fl rt times b top_k safe_question language true ctx vector hits answer
            (some c))
  unfolding summarized
  summarized-Settles vector hits (err e) c v = inl (_, refl, (c, refl, Descends-refl fl rt c v))
  summarized-Settles vector hits (ok answer) c v = answered-Settles vector _ c v

  searched-Settles :
      (vector : List F32) (found : Result E (List (SearchHit F S))) (c : QaCache F F32)
      → IsValid fl rt c
      → Settles c
          (searched fl rt times b top_k safe_question language true ctx vector found (some c))
  unfolding searched asking
  searched-Settles vector (err e) c v = inl (_, refl, (c, refl, Descends-refl fl rt c v))
  searched-Settles vector (ok []) c v = answered-Settles vector _ c v
  searched-Settles vector (ok (hit ∷ hits)) c v =
      (summarized-Settles vector (hit ∷ hits) (b.summarize safe_question (hit ∷ hits) language) c v)

  embedded-Settles :
      (vector : List F32) (found : Result E (List F32)) (c : QaCache F F32)
      → IsValid fl rt c
      → Settles c
          (embedded fl rt times b top_k safe_question language true ctx vector found (some c))
  unfolding embedded asking
  embedded-Settles vector (err e) c v = inl (_, refl, (c, refl, Descends-refl fl rt c v))
  embedded-Settles vector (ok query_vector) c v =
      (searched-Settles vector (b.search_similar query_vector top_k) c v)

  query_rag-Settles :
      (vector : List F32) (c : QaCache F F32)
      → IsValid fl rt c
      → Settles c (query_rag fl rt times b top_k safe_question language true ctx vector (some c))
  unfolding query_rag asking
  query_rag-Settles [] c v = elim (Bool-cases (eqb (trim_space safe_question) [])) [
    | inl e ↦ rw e (inl (_, refl, (c, refl, Descends-refl fl rt c v)))
    | inr e ↦ rw e ((embedded-Settles [] (b.embed_query (trim_space safe_question)) c v))
  ]
  query_rag-Settles (x ∷ vector) c v =
      (searched-Settles (x ∷ vector) (b.search_similar (x ∷ vector) top_k) c v)

  -- What settles a later state settles an earlier one.
  Settles-of-Descends :
      (c d : QaCache F F32) (o : Outcome F F32 S E) → Descends fl rt c d → Settles d o → Settles c o
  Settles-of-Descends c d o p (inl (e, failed, (d', same, q))) =
      inl (e, failed, (d', same, Descends-trans fl rt c d d' p q))
  Settles-of-Descends c d o p (inr (output, vector, d', done, same, q)) =
      inr (output, vector, d', done, same, Descends-trans fl rt c d d' p q)

  missed-Settles :
      (vector : List F32) (c : QaCache F F32)
      → IsValid fl rt c
      → Settles c (missed fl rt times b top_k safe_question language true ctx vector (some c))
  unfolding missed
  missed-Settles vector c v =
      let (d, same, p) = record_miss-DescendsTo fl rt c v in
      rw same (
        Settles-of-Descends c d
          (query_rag fl rt times b top_k safe_question language true ctx vector (some d)) p
          (query_rag-Settles vector d p.valid))

  -- No search: the answer came from the cache.
  abbrev pub IsFromCache : Outcome F F32 S E → Type 0
  IsFromCache o =
      (output : QaQueryOutput F) × (o.result ≡ ok output) × (any is_search o.asked ≡ false)

  semantic_looked_up-cases :
      (vector : List F32) (c : QaCache F F32)
      (r : Option (QaCache F F32) × F × Option (QaQueryOutput F))
      → (r.2 ≡ none → DescendsTo fl rt c r.0)
      → IsFromCache
          (semantic_looked_up fl rt times b top_k safe_question language true ctx vector r)
        ⊎ Settles c
            (semantic_looked_up fl rt times b top_k safe_question language true ctx vector r)
  unfolding semantic_looked_up
  semantic_looked_up-cases vector c (o, score, some output) h = inl (output, refl, refl)
  semantic_looked_up-cases vector c (o, score, none) h =
      let (d, same, p) = h refl in
      inr (
        rw same (
          Settles-of-Descends c d
            (missed fl rt times b top_k safe_question language true ctx vector (some d)) p
            (missed-Settles vector d p.valid)))

  fold_cases :
      (c d : QaCache F F32)
      → Descends fl rt c d
      → (o : Outcome F F32 S E) → IsFromCache o ⊎ Settles d o
      → IsFromCache o ⊎ Settles c o
  fold_cases c d p o (inl f) = inl f
  fold_cases c d p o (inr s) = inr (Settles-of-Descends c d o p s)

  semantic_embedded-cases :
      (found : Result E (List F32)) (c : QaCache F F32)
      → IsValid fl rt c
      → IsFromCache
          (semantic_embedded fl rt times b top_k safe_question language true ctx found (some c))
        ⊎ Settles c
            (semantic_embedded fl rt times b top_k safe_question language true ctx found (some c))
  unfolding semantic_embedded
  semantic_embedded-cases (err e) c v = inr (inl (_, refl, (c, refl, Descends-refl fl rt c v)))
  semantic_embedded-cases (ok vector) c v =
      semantic_looked_up-cases vector c
        (get_semantic fl rt times.at_semantic vector safe_question ctx (some c))
        (get_semantic_miss-DescendsTo fl rt times.at_semantic safe_question ctx c vector v)

  bypass_counted-DescendsTo :
      (enabled long : Bool) (c : QaCache F F32)
      → IsValid fl rt c
      → DescendsTo fl rt c (bypass_counted true enabled long (some c))
  unfolding bypass_counted
  bypass_counted-DescendsTo false long c v = disabled-DescendsTo fl rt c v
  bypass_counted-DescendsTo true false c v = too_short-DescendsTo fl rt c v
  bypass_counted-DescendsTo true true c v = (c, refl, Descends-refl fl rt c v)

  bypasses-DescendsTo :
      (c : QaCache F F32)
      → IsValid fl rt c
      → DescendsTo fl rt c (bypasses fl rt times b top_k safe_question language true ctx (some c))
  unfolding bypasses
  bypasses-DescendsTo c v = bypass_counted-DescendsTo _ _ c v

  -- The search or the semantic cache, as the test of `semantic_step` decides.
  semantic_step-cases :
      (c : QaCache F F32)
      → IsValid fl rt c
      → IsFromCache (semantic_step fl rt times b top_k safe_question language true ctx (some c))
        ⊎ Settles c (semantic_step fl rt times b top_k safe_question language true ctx (some c))
  unfolding semantic_step asking
  semantic_step-cases c v =
      let (d, same, p) = bypasses-DescendsTo c v in
      elim (Bool-cases (is_semantic_enabled_for_question safe_question (some d))) [
        | inl e ↦
            rw (same, e)
              (fold_cases c d p
                (semantic_embedded fl rt times b top_k safe_question language true ctx
                  (b.embed_query safe_question) (some d))
                (semantic_embedded-cases (b.embed_query safe_question) d p.valid))
        | inr e ↦
            rw (same, e)
              (fold_cases c d p
                (missed fl rt times b top_k safe_question language true ctx [] (some d))
                (inr (missed-Settles [] d p.valid)))
      ]

  exact_looked_up-cases :
      (c : QaCache F F32) (r : Option (QaCache F F32) × Option (QaQueryOutput F))
      → (r.1 ≡ none → DescendsTo fl rt c r.0)
      → IsFromCache (exact_looked_up fl rt times b top_k safe_question language true ctx r)
        ⊎ Settles c (exact_looked_up fl rt times b top_k safe_question language true ctx r)
  unfolding exact_looked_up
  exact_looked_up-cases c (o, some output) h = inl (output, refl, refl)
  exact_looked_up-cases c (o, none) h =
      let (d, same, p) = h refl in
      rw same (
        fold_cases c d p
          (semantic_step fl rt times b top_k safe_question language true ctx (some d))
          (semantic_step-cases d p.valid))

  -- A cacheable question over a valid cache is answered by the cache, fails, or stores its answer.
  pub exact_step-cases :
      (c : QaCache F F32)
      → IsValid fl rt c
      → IsFromCache (exact_step fl rt times b top_k safe_question language true ctx (some c))
        ⊎ Settles c (exact_step fl rt times b top_k safe_question language true ctx (some c))
  unfolding exact_step
  exact_step-cases c v =
      exact_looked_up-cases c (get_exact fl rt times.at_exact safe_question ctx (some c))
        (get_exact_miss-DescendsTo fl rt times.at_exact safe_question ctx c v)

  -- What is not answered from the cache and does not fail has stored its answer.
  pub exact_step-HasStored :
      (c : QaCache F F32) (output : QaQueryOutput F)
      → IsValid fl rt c
      → (exact_step fl rt times b top_k safe_question language true ctx (some c)).result ≡ ok output
      → any is_search
          (exact_step fl rt times b top_k safe_question language true ctx (some c)).asked
        ≡ true
      → HasStored c (exact_step fl rt times b top_k safe_question language true ctx (some c))
  exact_step-HasStored c output v done asked = elim (exact_step-cases c v) [
    | inl (o, same, unasked) ↦ cc
    | inr (inl (e, failed, d)) ↦ cc
    | inr (inr s) ↦ s
  ]

  -- What fails leaves no new entry.
  pub exact_step_failed :
      (c : QaCache F F32) (e : QaError E)
      → IsValid fl rt c
      → (exact_step fl rt times b top_k safe_question language true ctx (some c)).result ≡ err e
      → DescendsTo fl rt c
          (exact_step fl rt times b top_k safe_question language true ctx (some c)).cache
  exact_step_failed c e v failed = elim (exact_step-cases c v) [
    | inl (o, same, unasked) ↦ cc
    | inr (inl (e', failed', d)) ↦ d
    | inr (inr (o, vector, d, done, same, p)) ↦ cc
  ]
