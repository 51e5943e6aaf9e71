-- ===== src/Services/QaService/Cached.antt =====
-- backend/internal/services/qa_service.go: a cacheable question, asked once more or failing.
use civika.Prelude.{
  ℕ, ◌+◌, ◌≡◌, ◌≤◌, ◌<◌, refl, sym, ◌∙◌, ap, true, false, Option, none, some, [], any, arith,
  if◌then◌else◌, ltb,
}
use civika.Prelude.Result.{ok, err}
use civika.Text.{Str, eqb, Runtime, trim_space}
use civika.Float.{FloatOps}
use civika.GoMap.{lookup}
use civika.Services.Models.{QaQueryInput, QaQueryOutput}
use civika.Services.Keys.{QaCacheContext}
use civika.Services.CacheState.{QaCacheEntry, QaCache}
use civika.Services.QaCache.{get_exact}
use civika.Services.QaCache.Invariant.{IsValid}
use civika.Services.QaCache.RoundTrip.{get_exact-set}
use civika.Services.QaCache.Descent.{DescendsTo}
use civika.Services.Answer.{normalize_language}
use civika.Services.Redact.{sanitize_question, is_cacheable_question}
use civika.Services.QaService.{
  Backend, QaService, QaError, Times, Outcome, searched, exact_looked_up, exact_step, cache_context,
  query_with, query,
}
use civika.Services.QaService.Settles.{
  is_search, HasStored, exact_step-HasStored, exact_step_failed,
}

module _ {F F32 S E : Type 0} (fl : FloatOps F F32) (rt : Runtime) (times : Times)
    (b : Backend F F32 S E) (top_k : ℕ) (safe_question : Str) (language : Str)
    (ctx : QaCacheContext) where
  exact_looked_up-hit :
      (r : Option (QaCache F F32) × Option (QaQueryOutput F)) (output : QaQueryOutput F)
      → r.1 ≡ some output
      → ((exact_looked_up fl rt times b top_k safe_question language true ctx r).result ≡ ok output)
        × ((exact_looked_up fl rt times b top_k safe_question language true ctx r).asked ≡ [])
  unfolding exact_looked_up
  exact_looked_up-hit (o, some found) output h = (cc, refl)
  exact_looked_up-hit (o, none) output h = cc

  exact_step-hit :
      (c : Option (QaCache F F32)) (output : QaQueryOutput F)
      → (get_exact fl rt times.at_exact safe_question ctx c).1 ≡ some output
      → ((exact_step fl rt times b top_k safe_question language true ctx c).result ≡ ok output)
        × ((exact_step fl rt times b top_k safe_question language true ctx c).asked ≡ [])
  unfolding exact_step
  exact_step-hit c output h = exact_looked_up-hit _ output h

in_time :
    {A : Type 0} (x y : ℕ) (a b : A) → y ≤ x → a ≡ b → (if ltb x y then none else some a) ≡ some b
in_time x y a b soon same = ground arith

module _ {F F32 S E : Type 0} (fl : FloatOps F F32) (rt : Runtime) (times later : Times)
    (b : Backend F F32 S E) (top_k : ℕ) (safe_question : Str) (language : Str)
    (ctx : QaCacheContext) (c : QaCache F F32) where
  -- The answer of a search is in the exact cache when the same question is asked again.
  exact_step_again :
      (output : QaQueryOutput F)
      → IsValid fl rt c
      → 0 < c.cfg.exact_ttl
      → ((j : Str) (e : QaCacheEntry F F32)
          → lookup j c.exact_entries ≡ some e
          → e.created_at < times.at_set)
      → later.at_exact ≤ times.at_set + c.cfg.exact_ttl
      → (o : Outcome F F32 S E) → HasStored fl rt times b top_k safe_question language ctx c o
      → o.result ≡ ok output
      → ((exact_step fl rt later b top_k safe_question language true ctx o.cache).result
          ≡ ok output)
        × ((exact_step fl rt later b top_k safe_question language true ctx o.cache).asked ≡ [])
  exact_step_again output v positive older soon o (stored, vector, d, done, same, p) h =
      exact_step-hit fl rt later b top_k safe_question language ctx o.cache output (
        ap (λ k. (get_exact fl rt later.at_exact safe_question ctx k).1) same
        ∙ (get_exact-set fl rt times.at_set later.at_exact safe_question vector ctx stored d p.valid
              (rw p.same_cfg positive) (λ j e there. older j e (p.no_new j e there))
            ∙ in_time (times.at_set + d.cfg.exact_ttl) later.at_exact stored output
                (rw p.same_cfg soon) cc))

module _ {F F32 S E : Type 0} (fl : FloatOps F F32) (rt : Runtime) (s : QaService F F32 S E)
    (b : Backend F F32 S E) (input : QaQueryInput) where
  -- What is asked of the embedder, the store and the summarizer.
  abbrev pub cleaned : Str
  cleaned = sanitize_question (trim_space input.question)

  pub query_cacheable :
      (times : Times) (c : Option (QaCache F F32))
      → s.backend ≡ some b
      → eqb (trim_space input.question) [] ≡ false
      → is_cacheable_question cleaned ≡ true
      → query fl rt s times input c
        ≡ exact_step fl rt times b s.top_k cleaned
            (normalize_language rt input.language)
            true
            (cache_context fl rt b s input)
            c
  unfolding query query_with
  query_cacheable times c present asked cacheable = rw (present, asked, cacheable) refl

  -- A question that is not empty and that the cache accepts, over a valid cache with a positive TTL
  -- whose exact entries are older than the time of Set, with all dependencies present: if the query
  -- searched and returned an answer, the same query over the cache that it leaves returns the same
  -- answer and calls none of the embedder, the store and the summarizer, as long as its GetExact comes
  -- at most the TTL after that Set.
  pub query_again :
      (times later : Times) (c : QaCache F F32) (output : QaQueryOutput F)
      → s.backend ≡ some b
      → eqb (trim_space input.question) [] ≡ false
      → is_cacheable_question cleaned ≡ true
      → IsValid fl rt c
      → 0 < c.cfg.exact_ttl
      → ((j : Str) (e : QaCacheEntry F F32)
          → lookup j c.exact_entries ≡ some e
          → e.created_at < times.at_set)
      → later.at_exact ≤ times.at_set + c.cfg.exact_ttl
      → (query fl rt s times input (some c)).result ≡ ok output
      → any is_search (query fl rt s times input (some c)).asked ≡ true
      → ((query fl rt s later input (query fl rt s times input (some c)).cache).result ≡ ok output)
        × ((query fl rt s later input (query fl rt s times input (some c)).cache).asked ≡ [])
  query_again times later c output present asked cacheable v positive older soon done searched =
      let q = query_cacheable times (some c) present asked cacheable in
      rw
        (
          query_cacheable later (query fl rt s times input (some c)).cache present asked cacheable,
          q,
        )
        (exact_step_again fl rt times later b s.top_k cleaned (normalize_language rt input.language)
          (cache_context fl rt b s input) c output v positive older soon
          (exact_step fl rt times b s.top_k cleaned (normalize_language rt input.language) true
            (cache_context fl rt b s input) (some c))
          (exact_step-HasStored fl rt times b s.top_k cleaned (normalize_language rt input.language)
            (cache_context fl rt b s input) c output v (ap (λ o. o.result) (sym q) ∙ done)
            (ap (λ o. any is_search o.asked) (sym q) ∙ searched))
          (ap (λ o. o.result) (sym q) ∙ done))

  -- With all dependencies present, a question that is not empty and that the cache accepts, over a
  -- valid cache: when the query returns an error, the cache that it leaves is valid, has the same
  -- configuration, and each of its exact entries stood before under the same key.
  pub query_failed-Descends :
      (times : Times) (c : QaCache F F32) (e : QaError E)
      → s.backend ≡ some b
      → eqb (trim_space input.question) [] ≡ false
      → is_cacheable_question cleaned ≡ true
      → IsValid fl rt c
      → (query fl rt s times input (some c)).result ≡ err e
      → DescendsTo fl rt c (query fl rt s times input (some c)).cache
  query_failed-Descends times c e present asked cacheable v failed =
      let q = query_cacheable times (some c) present asked cacheable in
      rw q (
        exact_step_failed fl rt times b s.top_k cleaned (normalize_language rt input.language)
          (cache_context fl rt b s input) c e v (ap (λ o. o.result) (sym q) ∙ failed))
