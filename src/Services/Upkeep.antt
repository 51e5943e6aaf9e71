-- ===== src/Services/Upkeep.antt =====
-- backend/internal/services/qa_cache.go: copies, expiry and eviction of the cache's entries.
pub mod Evict
pub mod Expiry
use civika.Prelude.{
  ℕ, zero, suc, ◌+◌, ◌-◌, ◌*◌, ◌/◌, ◌≡◌, Bool, true, false, not, ◌&&◌, ◌||◌, Option, none, some,
  List, [], ◌∷◌, ◌++◌, map, length, ltb, leb, ◌==◌, if◌then◌else◌,
}
use civika.Prelude.Int.{ℤ, pos, negsuc}
use civika.Prelude.Sort.{sort_slice}
use civika.Text.{Str, codes, eqb, Runtime, trim_space}
use civika.Float.{FloatOps}
use civika.GoMap.{Map, lookup, insert, sweep}
use civika.GoMap.Delete.{delete_first, earlier}
use civika.Services.Models.{Citation, QaQueryOutput, QaQueryMeta}
use civika.Services.Keys.{
  QaCacheContext, hash_string, build_context_hash, build_exact_cache_key, build_semantic_cache_key,
}
use civika.Services.CacheState.{
  QaCacheConfig, QaCacheEntry, QaCacheMetrics, QaCache, QaCacheMetricsSnapshot,
}

-- float64(chars) / 4 is exact, so its ceiling is that of the integers.
unfoldable pub estimate_tokens_from_chars : ℕ → ℕ
estimate_tokens_from_chars chars =
    if chars == 0 then 0 else if ltb ((chars + 3) / 4) 1 then 1 else (chars + 3) / 4

unfoldable pub clone_slice {ℓ} : {A : Type ℓ} → List A → List A
clone_slice [] = []
clone_slice (a ∷ items) = a ∷ clone_slice items

unfoldable pub clone_qa_output : {F : Type 0} → QaQueryOutput F → QaQueryOutput F
unfolding clone_slice
clone_qa_output o = record {
  answer = o.answer;
  language = o.language;
  citations = clone_slice o.citations;
  meta = record {
    confidence = o.meta.confidence;
    used_documents = clone_slice o.meta.used_documents;
  };
}

-- `!entry.ExpiresAt.IsZero() && now.After(entry.ExpiresAt)`
unfoldable pub is_expired : {F F32 : Type 0} → ℕ → QaCacheEntry F F32 → Bool
is_expired now e = not (e.expires_at == 0) && ltb e.expires_at now

unfoldable pub remove_expired : {F F32 : Type 0} → ℕ → QaCache F F32 → QaCache F F32
unfolding is_expired
remove_expired now c = record c {
  exact_entries = sweep (is_expired now) c.exact_entries;
  semantic_entries = sweep (is_expired now) c.semantic_entries;
}

-- The key and the age of each entry.
abbrev pub stamps : {F F32 : Type 0} → Map (QaCacheEntry F F32) → Map ℕ
stamps = map (λ e. (e.0, e.1.created_at))

unfoldable pub evict_oldest :
    {F F32 : Type 0} → ℕ → Map (QaCacheEntry F F32) → Map (QaCacheEntry F F32)
unfolding sort_slice delete_first
evict_oldest max entries =
    if max == 0 || leb (length entries) max
    then entries
    else delete_first (length entries - max) (sort_slice earlier (stamps entries)) entries
