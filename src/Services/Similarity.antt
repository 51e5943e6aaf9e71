-- ===== src/Services/Similarity.antt =====
-- backend/internal/services/qa_cache.go: the similarity of two vectors, and the search of `GetSemantic`
-- for the entry that is most similar to a question.
pub mod Best
use civika.Prelude.{
  ℕ, zero, suc, ◌+◌, ◌-◌, ◌*◌, ◌/◌, ◌≡◌, Bool, true, false, not, ◌&&◌, ◌||◌, Option, none, some,
  List, [], ◌∷◌, ◌++◌, map, length, ltb, leb, ◌==◌, if◌then◌else◌,
}
use civika.Prelude.Int.{ℤ, pos, negsuc}
use civika.Prelude.Sort.{sort_slice}
use civika.Text.{Str, codes, eqb, Runtime, trim_space}
use civika.Float.{FloatOps}
use civika.GoMap.{Map, lookup, insert, sweep}
use civika.GoMap.Delete.{delete_first, earlier}
use civika.Services.Models.{Citation, QaQueryOutput, QaQueryMeta}
use civika.Services.Keys.{
  QaCacheContext, hash_string, build_context_hash, build_exact_cache_key, build_semantic_cache_key,
}
use civika.Services.CacheState.{
  QaCacheConfig, QaCacheEntry, QaCacheMetrics, QaCache, QaCacheMetricsSnapshot,
}

module _ {F F32 : Type 0} (fl : FloatOps F F32) where
  -- The loop of `cosineSimilarity`: the dot product and the two squared norms.
  unfoldable pub sums : F → F → F → List F32 → List F32 → F × F × F
  sums dot norm_a norm_b [] b = (dot, norm_a, norm_b)
  sums dot norm_a norm_b (x ∷ a) [] = (dot, norm_a, norm_b)
  sums dot norm_a norm_b (x ∷ a) (y ∷ b) =
      let av = fl.widen x in
      let bv = fl.widen y in
      sums (fl.add dot (fl.mul av bv)) (fl.add norm_a (fl.mul av av)) (fl.add norm_b (fl.mul bv bv))
        a b

  unfoldable pub cosine_similarity : List F32 → List F32 → F
  unfolding sums
  cosine_similarity a b =
      let nought = fl.of_int (pos 0) in
      let (dot, norm_a, norm_b) = sums nought nought nought a b in
      if length a == 0 || not (length a == length b)
      then fl.of_int (negsuc 0)
      else if fl.eq norm_a nought || fl.eq norm_b nought
      then fl.of_int (negsuc 0)
      else fl.div dot (fl.mul (fl.sqrt norm_a) (fl.sqrt norm_b))

  -- One round of the loop of `GetSemantic`, over the best key and the best score so far.
  unfoldable pub better : List F32 → Str → Str × QaCacheEntry F F32 → Str × F → Str × F
  unfolding cosine_similarity
  better vector context_hash (key, entry) (best_key, best_score) =
      let score = cosine_similarity vector entry.question_vector in
      if not (eqb entry.context_hash context_hash)
      then (best_key, best_score)
      else if fl.lt best_score score
      then (key, score)
      else (best_key, best_score)

  unfoldable pub best_match : List F32 → Str → Map (QaCacheEntry F F32) → Str × F → Str × F
  unfolding better
  best_match vector context_hash [] best = best
  best_match vector context_hash (e ∷ entries) best =
      best_match vector context_hash entries (better vector context_hash e best)
