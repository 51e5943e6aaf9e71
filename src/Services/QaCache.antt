-- ===== src/Services/QaCache.antt =====
-- backend/internal/services/qa_cache.go: the lookups and the writes of the cache. A method takes the
-- state and the time that `c.now()` gives, and returns the new state; `none` is the nil cache. The
-- mutex makes each method one step.
pub mod Invariant
pub mod Runs
pub mod RoundTrip
pub mod Hits
pub mod Descent
pub mod Memory
pub mod Follows
use civika.Prelude.{
  ℕ, zero, suc, ◌+◌, ◌-◌, ◌*◌, ◌/◌, ◌≡◌, Bool, true, false, not, ◌&&◌, ◌||◌, Option, none, some,
  List, [], ◌∷◌, ◌++◌, map, length, ltb, leb, ◌==◌, if◌then◌else◌,
}
use civika.Prelude.Int.{ℤ, pos, negsuc}
use civika.Prelude.Sort.{sort_slice}
use civika.Text.{Str, codes, eqb, Runtime, trim_space}
use civika.Float.{FloatOps}
use civika.GoMap.{Map, lookup, insert, sweep}
use civika.GoMap.Delete.{delete_first, earlier}
use civika.Services.Models.{Citation, QaQueryOutput, QaQueryMeta}
use civika.Services.Keys.{
  QaCacheContext, hash_string, build_context_hash, build_exact_cache_key, build_semantic_cache_key,
}
use civika.Services.CacheState.{
  QaCacheConfig, QaCacheEntry, QaCacheMetrics, QaCache, QaCacheMetricsSnapshot,
}
use civika.Services.Upkeep.{
  estimate_tokens_from_chars, clone_slice, clone_qa_output, is_expired, remove_expired,
  evict_oldest,
}
use civika.Services.Similarity.{best_match}

module _ {F F32 : Type 0} (fl : FloatOps F F32) where
  unfoldable pub add_saved_token_estimate :
      Str → QaQueryOutput F → QaCacheMetrics F → QaCacheMetrics F
  unfolding estimate_tokens_from_chars
  add_saved_token_estimate question output m =
      let input_estimate = estimate_tokens_from_chars (length (trim_space question)) in
      let output_estimate = estimate_tokens_from_chars (length (trim_space output.answer)) in
      record m {
        saved_input_tokens_estimate = m.saved_input_tokens_estimate + input_estimate;
        saved_output_tokens_estimate = m.saved_output_tokens_estimate + output_estimate;
        saved_total_tokens_estimate =
            m.saved_total_tokens_estimate + (input_estimate + output_estimate);
      }

  -- `entry.LastHitAt = now; entry.HitCount++`
  unfoldable pub touched : ℕ → QaCacheEntry F F32 → QaCacheEntry F F32
  touched now e = record e { last_hit_at = now; hit_count = e.hit_count + 1 }

-- What `Set` asks of a question, before it stores a vector.
unfoldable pub is_semantic_candidate : {F F32 : Type 0} → QaCacheConfig F → List F32 → Str → Bool
is_semantic_candidate cfg vector question =
    not (length vector == 0) && leb cfg.min_semantic_question_chars (length (trim_space question))

-- A write of `Set` to one of the maps, and the eviction that follows it.
unfoldable pub store :
    {F F32 : Type 0} → ℕ → QaCacheEntry F F32 → Map (QaCacheEntry F F32) → Map (QaCacheEntry F F32)
unfolding evict_oldest
store max entry entries = evict_oldest max (insert entry.key entry entries)

module _ {F F32 : Type 0} (fl : FloatOps F F32) (rt : Runtime) (now : ℕ) where
  -- `GetExact` from the lookup on.
  unfoldable pub exact_hit :
      Str
      → Str
      → QaCache F F32
      → Option (QaCacheEntry F F32)
      → Option (QaCache F F32) × Option (QaQueryOutput F)
  unfolding add_saved_token_estimate touched clone_qa_output
  exact_hit question exact_key c' none = (some c', none)
  exact_hit question exact_key c' (some entry) = (
    some (record c' {
      exact_entries = insert exact_key (touched fl now entry) c'.exact_entries;
      metrics =
          add_saved_token_estimate fl question entry.output
            (record c'.metrics { exact_hits = c'.metrics.exact_hits + 1 });
    }),
    some (clone_qa_output entry.output),
  )

  unfoldable pub get_exact :
      Str
      → QaCacheContext
      → Option (QaCache F F32)
      → Option (QaCache F F32) × Option (QaQueryOutput F)
  unfolding remove_expired exact_hit
  get_exact question ctx none = (none, none)
  get_exact question ctx (some c) =
      let exact_key = build_exact_cache_key rt question ctx in
      let c' = remove_expired now c in
      exact_hit question exact_key c' (lookup exact_key c'.exact_entries)

  -- A hit of `GetSemantic`. Its key is one of the map's, so that the lookup finds it.
  unfoldable pub semantic_hit :
      Str
      → QaCache F F32
      → Str × F
      → Option (QaCacheEntry F F32)
      → Option (QaCache F F32) × F × Option (QaQueryOutput F)
  unfolding add_saved_token_estimate touched clone_qa_output
  semantic_hit question c' best none = (some c', best.1, none)
  semantic_hit question c' best (some entry) = (
    some (record c' {
      semantic_entries = insert best.0 (touched fl now entry) c'.semantic_entries;
      metrics = add_saved_token_estimate fl question entry.output (record c'.metrics {
        semantic_hits = c'.metrics.semantic_hits + 1;
        semantic_score_sum_on_hit = fl.add c'.metrics.semantic_score_sum_on_hit best.1;
        semantic_score_count_on_hit = c'.metrics.semantic_score_count_on_hit + 1;
      });
    }),
    best.1,
    some (clone_qa_output entry.output),
  )

  -- The entries that `Set` stores.
  unfoldable pub exact_entry :
      QaCacheConfig F → Str → QaCacheContext → QaQueryOutput F → QaCacheEntry F F32
  unfolding clone_qa_output
  exact_entry cfg question ctx output = record {
    key = build_exact_cache_key rt question ctx;
    question_hash = hash_string rt (trim_space question);
    context_hash = build_context_hash rt ctx;
    question_vector = [];
    output = clone_qa_output output;
    created_at = now;
    expires_at = now + cfg.exact_ttl;
    last_hit_at = now;
    hit_count = 0;
  }

  unfoldable pub semantic_entry :
      QaCacheConfig F → Str → List F32 → QaCacheContext → QaQueryOutput F → QaCacheEntry F F32
  unfolding clone_qa_output clone_slice
  semantic_entry cfg question vector ctx output =
      let question_hash = hash_string rt (trim_space question) in
      let context_hash = build_context_hash rt ctx in
      record {
        key = build_semantic_cache_key rt question_hash context_hash;
        question_hash = question_hash;
        context_hash = context_hash;
        question_vector = clone_slice vector;
        output = clone_qa_output output;
        created_at = now;
        expires_at = now + cfg.semantic_ttl;
        last_hit_at = now;
        hit_count = 0;
      }

  -- The result is the answer, if there is a hit, beside the score.
  unfoldable pub get_semantic :
      List F32
      → Str
      → QaCacheContext
      → Option (QaCache F F32)
      → Option (QaCache F F32) × F × Option (QaQueryOutput F)
  unfolding remove_expired semantic_hit best_match
  get_semantic vector question ctx none = (none, fl.of_int (pos 0), none)
  get_semantic vector question ctx (some c) =
      let context_hash = build_context_hash rt ctx in
      let c' = remove_expired now c in
      let best = best_match fl vector context_hash c'.semantic_entries ([], fl.of_int (negsuc 0)) in
      if not c.cfg.semantic_enabled
      then (some c, fl.of_int (pos 0), none)
      else if length vector == 0
          || ltb (length (trim_space question)) c.cfg.min_semantic_question_chars
      then (some c, fl.of_int (pos 0), none)
      else if eqb best.0 [] || fl.lt best.1 c.cfg.similarity_threshold
      then (some c', best.1, none)
      else semantic_hit question c' best (lookup best.0 c'.semantic_entries)

  unfoldable pub set :
      Str
      → List F32
      → QaCacheContext
      → QaQueryOutput F
      → Option (QaCache F F32)
      → Option (QaCache F F32)
  unfolding remove_expired store exact_entry semantic_entry is_semantic_candidate
  set question vector ctx output none = none
  set question vector ctx output (some c) =
      let c' = remove_expired now c in
      some (record c' {
        exact_entries =
            store c.cfg.exact_max_entries (exact_entry c.cfg question ctx output) c'.exact_entries;
        semantic_entries =
            if c.cfg.semantic_enabled && is_semantic_candidate c.cfg vector question
            then store c.cfg.semantic_max_entries (semantic_entry c.cfg question vector ctx output)
                c'.semantic_entries
            else c'.semantic_entries;
      })
