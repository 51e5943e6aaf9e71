-- ===== src/Services/QaCache/Memory.antt =====
-- backend/internal/services/qa_cache.go: what the exact answers promise. The abstract cache is a memory
-- without bounds that keeps, for each key, the last answer that was set and its time; the cache may
-- forget an answer of it, and never returns another one.
use civika.Prelude.{
  ℕ, ◌+◌, ◌≡◌, sym, ◌∙◌, Option, none, some, List, [], ◌∷◌, Bool-cases, inl, inr, ltb,
  if◌then◌else◌,
}
use civika.Text.{Str, eqb, Runtime}
use civika.Text.Laws.{eqb_iff}
use civika.Float.{FloatOps}
use civika.GoMap.{Map, lookup, insert, lookup-insert, Distinct}
use civika.Services.Models.{QaQueryOutput}
use civika.Services.Keys.{build_exact_cache_key}
use civika.Services.CacheState.{QaCacheEntry, QaCache}
use civika.Services.Upkeep.{remove_expired}
use civika.Services.Upkeep.Evict.{evict_oldest_subset}
use civika.Services.Upkeep.Expiry.{lookup-remove_expired}
use civika.Services.QaCache.{store}
use civika.Services.QaCache.Hits.{live_of_kept}
use civika.Services.QaCache.Runs.{
  Call, gets_exact, gets_semantic, sets, records_miss, records_bypass_sensitive_question,
  records_bypass_semantic_disabled, records_bypass_question_too_short, takes_snapshot,
}

-- The last answer that was set under a key, and when.
abbrev pub Memory : Type 0 → Type 0
Memory F = Str → Option (ℕ × QaQueryOutput F)

-- What a memory gives at a time.
abbrev pub recalled : {F : Type 0} → ℕ → ℕ → Option (ℕ × QaQueryOutput F) → Option (QaQueryOutput F)
recalled ttl now none = none
recalled ttl now (some (t, output)) = if ltb (t + ttl) now then none else some output

module _ {F F32 : Type 0} (fl : FloatOps F F32) (rt : Runtime) where
  -- Only Set changes the memory.
  abbrev pub remember : Memory F → Call fl rt → Memory F
  remember m (sets now q vector ctx output) =
      λ k. if eqb (build_exact_cache_key rt q ctx) k then some (now, output) else m k
  remember m (gets_exact now q ctx) = m
  remember m (gets_semantic now vector q ctx) = m
  remember m records_miss = m
  remember m records_bypass_sensitive_question = m
  remember m records_bypass_semantic_disabled = m
  remember m records_bypass_question_too_short = m
  remember m (takes_snapshot now) = m

  abbrev pub remembered : Memory F → List (Call fl rt) → Memory F
  remembered m [] = m
  remembered m (call ∷ calls) = remembered (remember m call) calls

-- Each entry is remembered.
abbrev pub Held : {F F32 : Type 0} → Memory F → Map (QaCacheEntry F F32) → Type 0
Held {F} {F32} m entries =
    (k : Str) (e : QaCacheEntry F F32)
    → lookup k entries ≡ some e
    → m k ≡ some (e.created_at, e.output)

module _ {F F32 : Type 0} (m : Memory F) where
  pub insert-Held :
      (key : Str) (e : QaCacheEntry F F32) (entries : Map (QaCacheEntry F F32))
      → Held m entries
      → m key ≡ some (e.created_at, e.output)
      → Held m (insert key e entries)
  insert-Held key e entries h known k f there = elim (Bool-cases (eqb key k)) [
    | inl same ↦
        let found : some e ≡ some f = sym (lookup-insert key k e entries ∙ rw same) ∙ there in
        let at_key : key ≡ k = (eqb_iff key k).0 same in cc
    | inr other ↦ h k f (sym (lookup-insert key k e entries ∙ rw other) ∙ there)
  ]

  pub remove_expired-Held :
      (now : ℕ) (c : QaCache F F32)
      → Distinct c.exact_entries
      → Held m c.exact_entries
      → Held m (remove_expired now c).exact_entries
  remove_expired-Held now c d h k e there =
      h k e
        (live_of_kept now (lookup k c.exact_entries) e
          (sym (lookup-remove_expired now k c d) ∙ there)).0

  pub store-Held :
      (max now : ℕ) (output : QaQueryOutput F) (e : QaCacheEntry F F32)
      (entries : Map (QaCacheEntry F F32))
      → Held m entries
      → e.created_at ≡ now
      → e.output ≡ output
      → Held (λ k. if eqb e.key k then some (now, output) else m k) (store max e entries)
  unfolding store
  store-Held max now output e entries h at same k f there =
      let inserted : lookup k (insert e.key e entries) ≡ some f =
        evict_oldest_subset max (insert e.key e entries) k f there in
      elim (Bool-cases (eqb e.key k)) [
        | inl t ↦
            let found : some e ≡ some f = sym (lookup-insert e.key k e entries ∙ rw t) ∙ inserted in
            rw t cc
        | inr t ↦ rw t (h k f (sym (lookup-insert e.key k e entries ∙ rw t) ∙ inserted))
      ]
