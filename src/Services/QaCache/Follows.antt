-- ===== src/Services/QaCache/Follows.antt =====
-- backend/internal/services/qa_cache.go: the calls of the cache beside the abstract memory.
use civika.Prelude.{
  ℕ, ◌+◌, ◌<◌, ◌≡◌, refl, sym, ◌∙◌, ap, Option, none, some, List, [], ◌∷◌, Bool-cases, Option-cases,
  inl, inr, arith,
}
use civika.Prelude.Int.{negsuc}
use civika.Text.{Str, Runtime}
use civika.Float.{FloatOps}
use civika.GoMap.{lookup, lookup-All}
use civika.Services.Models.{QaQueryOutput}
use civika.Services.Keys.{QaCacheContext, build_exact_cache_key, build_context_hash}
use civika.Services.CacheState.{QaCacheConfig, QaCacheEntry, QaCache, QaCacheMetrics}
use civika.Services.Upkeep.{is_expired, remove_expired}
use civika.Services.Upkeep.Expiry.{clone_qa_output-id}
use civika.Services.Similarity.{best_match}
use civika.Services.QaCache.{
  touched, exact_hit, get_exact, semantic_hit, get_semantic, exact_entry, set,
}
use civika.Services.CacheMetrics.{
  new_qa_cache, record_miss, record_bypass_sensitive_question, record_bypass_semantic_disabled,
  record_bypass_question_too_short, metrics_snapshot,
}
use civika.Services.QaCache.Invariant.{
  IsValid, OptionIsValid, ExactIsValid, remove_expired-IsValid, get_exact-IsValid,
  semantic_hit-IsValid, set-IsValid, with_metrics,
}
use civika.Services.QaCache.Hits.{live_output, get_exact-live_output}
use civika.Services.QaCache.Runs.{
  Call, gets_exact, gets_semantic, sets, records_miss, records_bypass_sensitive_question,
  records_bypass_semantic_disabled, records_bypass_question_too_short, takes_snapshot, step, run,
  new_qa_cache-IsValid,
}
use civika.Services.QaCache.Memory.{
  Memory, recalled, remember, remembered, Held, insert-Held, remove_expired-Held, store-Held,
}

module _ {F F32 : Type 0} (fl : FloatOps F F32) (rt : Runtime) (cfg : QaCacheConfig F) where
  -- A valid cache of the configuration, whose entries are remembered.
  record Follows (m : Memory F) (c : QaCache F F32) : Type 0 where
    same_cfg : c.cfg ≡ cfg
    valid : IsValid fl rt c
    held : Held m c.exact_entries

  abbrev OptionFollows : Memory F → Option (QaCache F F32) → Type 0
  OptionFollows m none = Unit
  OptionFollows m (some c) = Follows m c

  remove_expired-Follows :
      (m : Memory F) (now : ℕ) (c : QaCache F F32) → Follows m c → Follows m (remove_expired now c)
  remove_expired-Follows m now c f = record {
    same_cfg = unfold remove_expired in f.same_cfg;
    valid = remove_expired-IsValid fl rt now c f.valid;
    held = remove_expired-Held m now c f.valid.exact_distinct f.held;
  }

  exact_hit-Follows :
      (m : Memory F) (now : ℕ) (question key : Str) (c : QaCache F F32)
      (o : Option (QaCacheEntry F F32))
      → Follows m c
      → lookup key c.exact_entries ≡ o
      → OptionIsValid fl rt (exact_hit fl rt now question key c o).0
      → OptionFollows m (exact_hit fl rt now question key c o).0
  unfolding exact_hit touched
  exact_hit-Follows m now question key c none f found v = f
  exact_hit-Follows m now question key c (some e) f found v = record {
    same_cfg = f.same_cfg;
    valid = v;
    held = insert-Held m key (touched fl now e) c.exact_entries f.held (f.held key e found);
  }

  semantic_hit-Follows :
      (m : Memory F) (now : ℕ) (question : Str) (c : QaCache F F32) (best : Str × F)
      (o : Option (QaCacheEntry F F32))
      → Follows m c
      → OptionIsValid fl rt (semantic_hit fl rt now question c best o).0
      → OptionFollows m (semantic_hit fl rt now question c best o).0
  unfolding semantic_hit
  semantic_hit-Follows m now question c best none f v = f
  semantic_hit-Follows m now question c best (some e) f v = record {
    same_cfg = f.same_cfg;
    valid = v;
    held = f.held;
  }

  get_semantic-Follows :
      (m : Memory F) (now : ℕ) (vector : List F32) (question : Str) (ctx : QaCacheContext)
      (c : QaCache F F32)
      → Follows m c
      → OptionFollows m (get_semantic fl rt now vector question ctx (some c)).0
  unfolding get_semantic
  get_semantic-Follows m now vector question ctx c f =
      let best =
        best_match fl vector (build_context_hash rt ctx) (remove_expired now c).semantic_entries
          ([], fl.of_int (negsuc 0)) in
      let g = remove_expired-Follows m now c f in
      ground (
        arith,
        f,
        g,
        semantic_hit-Follows m now question (remove_expired now c) best
            (lookup best.0 (remove_expired now c).semantic_entries) g
            (semantic_hit-IsValid fl rt now question (remove_expired now c) best _ g.valid refl),
      )

  set-Follows :
      (m : Memory F) (now : ℕ) (question : Str) (vector : List F32) (ctx : QaCacheContext)
      (output : QaQueryOutput F) (c : QaCache F F32)
      → Follows m c
      → OptionFollows
          (remember fl rt m (sets now question vector ctx output))
          (set fl rt now question vector ctx output (some c))
  unfolding set exact_entry
  set-Follows m now question vector ctx output c f = record {
    same_cfg = unfold remove_expired in f.same_cfg;
    valid = set-IsValid fl rt now question vector ctx output (some c) f.valid;
    held =
        store-Held m c.cfg.exact_max_entries now output
          (exact_entry fl rt now c.cfg question ctx output) (remove_expired now c).exact_entries
          (remove_expired-Held m now c f.valid.exact_distinct f.held) refl
          (clone_qa_output-id output);
  }

  metrics-Follows :
      (m : Memory F) (c : QaCache F F32) (metrics : QaCacheMetrics F)
      → Follows m c
      → Follows m (record c { metrics = metrics })
  metrics-Follows m c metrics f = record {
    same_cfg = f.same_cfg;
    valid = with_metrics fl rt c metrics f.valid;
    held = f.held;
  }

  step-Follows :
      (m : Memory F) (o : Option (QaCache F F32)) (call : Call fl rt)
      → OptionFollows m o
      → OptionFollows (remember fl rt m call) (step fl rt o call)
  unfolding step get_exact get_semantic set record_miss record_bypass_sensitive_question
      record_bypass_semantic_disabled record_bypass_question_too_short metrics_snapshot
  step-Follows m none (gets_exact now q ctx) f = tt
  step-Follows m none (gets_semantic now v q ctx) f = tt
  step-Follows m none (sets now q v ctx output) f = tt
  step-Follows m none records_miss f = tt
  step-Follows m none records_bypass_sensitive_question f = tt
  step-Follows m none records_bypass_semantic_disabled f = tt
  step-Follows m none records_bypass_question_too_short f = tt
  step-Follows m none (takes_snapshot now) f = tt
  step-Follows m (some c) (gets_exact now q ctx) f =
      exact_hit-Follows m now q (build_exact_cache_key rt q ctx) (remove_expired now c) _
        (remove_expired-Follows m now c f) refl (get_exact-IsValid fl rt now q ctx (some c) f.valid)
  step-Follows m (some c) (gets_semantic now v q ctx) f = get_semantic-Follows m now v q ctx c f
  step-Follows m (some c) (sets now q v ctx output) f = set-Follows m now q v ctx output c f
  step-Follows m (some c) records_miss f = metrics-Follows m c _ f
  step-Follows m (some c) records_bypass_sensitive_question f = metrics-Follows m c _ f
  step-Follows m (some c) records_bypass_semantic_disabled f = metrics-Follows m c _ f
  step-Follows m (some c) records_bypass_question_too_short f = metrics-Follows m c _ f
  step-Follows m (some c) (takes_snapshot now) f = remove_expired-Follows m now c f

  run-Follows :
      (m : Memory F) (o : Option (QaCache F F32)) (calls : List (Call fl rt))
      → OptionFollows m o
      → OptionFollows (remembered fl rt m calls) (run fl rt o calls)
  unfolding run
  run-Follows m o [] f = f
  run-Follows m o (call ∷ calls) f =
      run-Follows (remember fl rt m call) (step fl rt o call) calls (step-Follows m o call f)

  new_qa_cache-Follows : OptionFollows (λ k. none) (new_qa_cache fl cfg)
  unfolding new_qa_cache lookup
  new_qa_cache-Follows = elim (Bool-cases cfg.enabled) [
    | inl e ↦ rw e (record {
      same_cfg = refl;
      valid = rw (new_qa_cache, e) at (new_qa_cache-IsValid fl rt cfg);
      held = λ k f h. absurd cc;
    })
    | inr e ↦ rw e tt
  ]

  -- What the exact lookup returns is what the memory gives at that time.
  Follows-recalled :
      (m : Memory F) (now : ℕ) (question : Str) (ctx : QaCacheContext) (output : QaQueryOutput F)
      (o : Option (QaCache F F32))
      → 0 < cfg.exact_ttl
      → OptionFollows m o
      → (get_exact fl rt now question ctx o).1 ≡ some output
      → recalled cfg.exact_ttl now (m (build_exact_cache_key rt question ctx)) ≡ some output
  unfolding get_exact is_expired
  Follows-recalled m now question ctx output none positive f h = cc
  Follows-recalled m now question ctx output (some c) positive f h =
      let key = build_exact_cache_key rt question ctx in
      let live : live_output now (lookup key c.exact_entries) ≡ some output =
        sym (get_exact-live_output fl rt now question ctx c f.valid.exact_distinct) ∙ h in
      elim (Option-cases (lookup key c.exact_entries)) [
        | inl n ↦ absurd (let i : none ≡ some output = sym (ap (live_output now) n) ∙ live in cc)
        | inr (e, n) ↦
            let i : live_output now (some e) ≡ some output = sym (ap (live_output now) n) ∙ live in
            let (own, expiry) =
              lookup-All (ExactIsValid fl rt c.cfg) key c.exact_entries f.valid.exact_valid n in
            let expires : e.expires_at ≡ e.created_at + cfg.exact_ttl =
              expiry ∙ ap (λ (d : QaCacheConfig F). e.created_at + d.exact_ttl) f.same_cfg in
            rw (f.held key e n) (ground arith)
      ]

  -- For a configuration with a positive TTL, after any sequence of the cache's calls at any times,
  -- from NewQACache on: an answer that GetExact returns is the last answer that was set, in that
  -- sequence, for a question and a context with the same key, and that Set came at most the TTL
  -- before.
  pub run-recalled :
      (calls : List (Call fl rt)) (now : ℕ) (question : Str) (ctx : QaCacheContext)
      (output : QaQueryOutput F)
      → 0 < cfg.exact_ttl
      → (get_exact fl rt now question ctx (run fl rt (new_qa_cache fl cfg) calls)).1 ≡ some output
      → recalled cfg.exact_ttl now
          (remembered fl rt (λ k. none) calls (build_exact_cache_key rt question ctx))
        ≡ some output
  run-recalled calls now question ctx output positive h =
      Follows-recalled (remembered fl rt (λ k. none) calls) now question ctx output
        (run fl rt (new_qa_cache fl cfg) calls) positive
        (run-Follows (λ k. none) (new_qa_cache fl cfg) calls new_qa_cache-Follows) h
