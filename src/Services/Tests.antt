-- ===== src/Services/Tests.antt =====
-- The theorems on the cache and the service at concrete inputs.
use civika.Prelude.{
  ℕ, ◌+◌, ◌<◌, ◌≡◌, refl, false, none, some, List, [], ◌∷◌, inr, any, length, min, ltb, ◌==◌,
  if◌then◌else◌, arith,
}
use civika.Text.{Str, codes, eqb, trim_space, to_lower, to_upper, itoa}
use civika.Text.Laws.{eqb_iff}
use civika.Text.Split.{Lacks}
use civika.GoMap.{Map, lookup, insert, sweep, Distinct}
use civika.Services.Keys.{exact_key_text, build_context_hash, build_exact_cache_key}
use civika.Services.Keys.Laws.{IsBarFree, IsSameContext, exact_key_text-injective}
use civika.Services.Models.{QaQueryOutput}
use civika.Services.CacheState.{QaCache, QaCacheEntry}
use civika.Services.Upkeep.{evict_oldest}
use civika.Services.Upkeep.Evict.{length-evict_oldest}
use civika.Services.Similarity.{best_match}
use civika.Services.Similarity.Best.{IsStrict, best_match-order}
use civika.Services.QaCache.{get_exact, get_semantic, set}
use civika.Services.QaCache.Invariant.{IsValid, OptionIsValid}
use civika.Services.QaCache.Runs.{Call, gets_exact, sets, takes_snapshot, run, run-new-IsValid}
use civika.Services.QaCache.Hits.{
  live_output, IsBestHit, get_semantic-IsBestHit, get_exact-live_output,
}
use civika.Services.QaCache.RoundTrip.{get_exact-set}
use civika.Services.QaCache.Memory.{recalled, remembered}
use civika.Services.QaCache.Follows.{run-recalled}
use civika.Services.CacheMetrics.{new_qa_cache, metrics_snapshot}
use civika.Samples.{
  plain_runtime, whole, cache_config, answer_ja, context_zh, entry_at, three_entries, empty_cache,
  cache_of,
}

pub empty_cache-IsValid : IsValid whole plain_runtime empty_cache
empty_cache-IsValid = record {
  exact_distinct = tt;
  semantic_distinct = tt;
  exact_fits = inr (omega arith);
  semantic_fits = inr (omega arith);
  exact_valid = tt;
  semantic_valid = tt;
}

pub empty-older :
    (n : ℕ) (j : Str) (e : QaCacheEntry ℕ ℕ)
    → lookup j empty_cache.exact_entries ≡ some e
    → e.created_at < n
unfolding lookup
empty-older n j e h = cc

get_exact-set_example :
    (get_exact whole plain_runtime 90 (codes "Ja?") context_zh (
      set whole plain_runtime 10
        (codes "Ja?")
        (1 ∷ 0 ∷ [])
        context_zh
        answer_ja
        (some empty_cache))).1
    ≡ (if ltb (10 + empty_cache.cfg.exact_ttl) 90 then none else some answer_ja)
get_exact-set_example =
    get_exact-set whole plain_runtime 10 90 (codes "Ja?") (1 ∷ 0 ∷ []) context_zh answer_ja
      empty_cache empty_cache-IsValid (omega arith) (empty-older 10)

run-new-IsValid_example : OptionIsValid whole plain_runtime (
    run whole plain_runtime (new_qa_cache whole cache_config) (
      sets 1 (codes "Ja?") (1 ∷ []) context_zh answer_ja
      ∷ gets_exact 2 (codes "Ja?") context_zh
      ∷ takes_snapshot 3
      ∷ []))
run-new-IsValid_example = run-new-IsValid whole plain_runtime cache_config (
    sets 1 (codes "Ja?") (1 ∷ []) context_zh answer_ja
    ∷ gets_exact 2 (codes "Ja?") context_zh
    ∷ takes_snapshot 3
    ∷ [])

-- A second answer to the same question.
abbrev answer_nein : QaQueryOutput ℕ
answer_nein = record answer_ja { answer = codes "nein" }

abbrev two_sets : List (Call whole plain_runtime)
two_sets =
    sets 1 (codes "Ja?") (1 ∷ []) context_zh answer_nein
    ∷ sets 2 (codes "Ja?") (1 ∷ []) context_zh answer_ja
    ∷ takes_snapshot 3
    ∷ []

second_found :
    (get_exact whole plain_runtime 90
      (codes "Ja?")
      context_zh
      (run whole plain_runtime (new_qa_cache whole cache_config) two_sets)).1
    ≡ some answer_ja
unfolding run get_exact new_qa_cache eqb lookup sweep metrics_snapshot set insert
    build_exact_cache_key
second_found = refl

run-recalled_example :
    recalled 100 90 (
      remembered whole plain_runtime
        (λ k. none)
        two_sets
        (build_exact_cache_key plain_runtime (codes "Ja?") context_zh))
    ≡ some answer_ja
run-recalled_example =
    run-recalled whole plain_runtime cache_config two_sets 90 (codes "Ja?") context_zh answer_ja
      (omega arith) second_found

whole-IsStrict : IsStrict whole
whole-IsStrict = record { irrefl = λ a. ground arith; trans = λ a b c p q. ground arith }

abbrev hit_cache : QaCache ℕ ℕ
hit_cache = cache_of (build_context_hash plain_runtime context_zh)

one_entry : (e : QaCacheEntry ℕ ℕ) → Distinct ((codes "k", e) ∷ [])
unfolding lookup
one_entry e = (refl, tt)

hit_cache-answers :
    (get_semantic whole plain_runtime 10 (1 ∷ 0 ∷ []) (codes "Ja?") context_zh (some hit_cache)).2
    ≡ some answer_ja
unfolding get_semantic eqb lookup sweep build_context_hash
hit_cache-answers = refl

get_semantic-IsBestHit_example :
    IsBestHit whole plain_runtime 10
      (codes "Ja?")
      context_zh
      hit_cache
      whole-IsStrict
      (1 ∷ 0 ∷ [])
      (get_semantic whole plain_runtime 10 (1 ∷ 0 ∷ []) (codes "Ja?") context_zh (some hit_cache)).1
      answer_ja
get_semantic-IsBestHit_example =
    get_semantic-IsBestHit whole plain_runtime 10 (codes "Ja?") context_zh hit_cache whole-IsStrict
      (1 ∷ 0 ∷ []) answer_ja
      (one_entry (entry_at (codes "k") (build_context_hash plain_runtime context_zh) 5))
      hit_cache-answers

get_exact-live_output_example :
    (get_exact whole plain_runtime 10 (codes "Ja?") context_zh (some empty_cache)).1
    ≡ live_output 10 (
        lookup
          (build_exact_cache_key plain_runtime (codes "Ja?") context_zh)
          empty_cache.exact_entries)
get_exact-live_output_example =
    get_exact-live_output whole plain_runtime 10 (codes "Ja?") context_zh empty_cache tt

three_entries-Distinct : Distinct three_entries
unfolding lookup eqb
three_entries-Distinct = (refl, (refl, (refl, tt)))

length-evict_oldest_example :
    length (evict_oldest 2 three_entries)
    ≡ (if 2 == 0 then length three_entries else min 2 (length three_entries))
length-evict_oldest_example = length-evict_oldest 2 three_entries three_entries-Distinct

youngest-there : lookup (codes "c") three_entries ≡ some (entry_at (codes "c") [] 9)
unfolding lookup eqb
youngest-there = refl

others-older :
    (j : Str) (e : QaCacheEntry ℕ ℕ)
    → lookup j three_entries ≡ some e
    → eqb (codes "c") j ≡ false
    → e.created_at < 9
unfolding lookup
others-older j e h other = ground arith

abbrev two_entries : Map (QaCacheEntry ℕ ℕ)
two_entries = (codes "a", entry_at (codes "a") [] 7) ∷ (codes "b", entry_at (codes "b") [] 5) ∷ []

abbrev swapped : Map (QaCacheEntry ℕ ℕ)
swapped = (codes "b", entry_at (codes "b") [] 5) ∷ (codes "a", entry_at (codes "a") [] 7) ∷ []

two_entries-Distinct : Distinct two_entries × Distinct swapped
unfolding lookup eqb
two_entries-Distinct = ((refl, (refl, tt)), (refl, (refl, tt)))

same_entries : (k : Str) → lookup k two_entries ≡ lookup k swapped
unfolding lookup
same_entries k = ground (arith, eqb_iff (codes "a") k, eqb_iff (codes "b") k)

best_match-order_example :
    (whole.lt
        (best_match whole (1 ∷ 0 ∷ []) [] two_entries ([], 0)).1
        (best_match whole (1 ∷ 0 ∷ []) [] swapped ([], 0)).1
      ≡ false)
    × (whole.lt
          (best_match whole (1 ∷ 0 ∷ []) [] swapped ([], 0)).1
          (best_match whole (1 ∷ 0 ∷ []) [] two_entries ([], 0)).1
        ≡ false)
best_match-order_example =
    best_match-order whole whole-IsStrict (1 ∷ 0 ∷ []) [] two_entries swapped ([], 0)
      two_entries-Distinct.0 two_entries-Distinct.1 same_entries

lacks : (s : Str) → any (λ c. c == b'|') s ≡ false → Lacks b'|' s
lacks [] h = tt
lacks (c ∷ s) h = (ground arith, lacks s (ground arith))

context_zh-IsBarFree : IsBarFree plain_runtime context_zh
unfolding to_lower to_upper trim_space itoa
context_zh-IsBarFree = record {
  language = lacks (to_lower plain_runtime (trim_space context_zh.language)) refl;
  votation_id = lacks (trim_space context_zh.votation_id) refl;
  object_id = lacks (trim_space context_zh.object_id) refl;
  canton = lacks (to_upper plain_runtime (trim_space context_zh.canton)) refl;
  rag_mode = lacks (trim_space context_zh.rag_mode) refl;
  embedder_name = lacks (trim_space context_zh.embedder_name) refl;
  summarizer_name = lacks (trim_space context_zh.summarizer_name) refl;
  top_k = lacks (trim_space (itoa context_zh.top_k)) refl;
}

same_text :
    exact_key_text plain_runtime (codes " Ja? ") context_zh
    ≡ exact_key_text plain_runtime (codes "Ja?") context_zh
unfolding exact_key_text
same_text = refl

exact_key_text-injective_example :
    (trim_space (codes " Ja? ") ≡ trim_space (codes "Ja?"))
    × IsSameContext plain_runtime context_zh context_zh
exact_key_text-injective_example =
    exact_key_text-injective plain_runtime (codes " Ja? ") (codes "Ja?") context_zh context_zh
      context_zh-IsBarFree context_zh-IsBarFree same_text
