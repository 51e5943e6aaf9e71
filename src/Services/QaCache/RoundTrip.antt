-- ===== src/Services/QaCache/RoundTrip.antt =====
-- backend/internal/services/qa_cache.go: `Set`, and then `GetExact`.
use civika.Prelude.{
  ℕ, ◌+◌, ◌≡◌, sym, ◌∙◌, ap, false, none, some, List, ltb, ◌<◌, if◌then◌else◌, arith,
}
use civika.Text.{Str, eqb, Runtime}
use civika.Float.{FloatOps}
use civika.GoMap.{Map, lookup, insert, Distinct, lookup-insert, lookup-insert_self, insert-Distinct}
use civika.Services.Models.{QaQueryOutput}
use civika.Services.Keys.{QaCacheContext, build_exact_cache_key}
use civika.Services.CacheState.{QaCacheEntry, QaCache}
use civika.Services.Upkeep.{is_expired, remove_expired}
use civika.Services.Upkeep.Evict.{evict_oldest_youngest, evict_oldest_subset}
use civika.Services.Upkeep.Expiry.{clone_qa_output-id, lookup-remove_expired}
use civika.Services.QaCache.{store, exact_entry, get_exact, set}
use civika.Services.QaCache.Invariant.{IsValid, remove_expired-IsValid, set-IsValid}
use civika.Services.QaCache.Hits.{live_output, live_of_kept, get_exact-live_output}

module _ {F F32 : Type 0} where
  -- An entry that is younger than all others is under its key after it is stored.
  lookup-store :
      (max : ℕ) (e : QaCacheEntry F F32) (m : Map (QaCacheEntry F F32))
      → Distinct m
      → ((j : Str) (f : QaCacheEntry F F32) → lookup j m ≡ some f → f.created_at < e.created_at)
      → lookup e.key (store max e m) ≡ some e
  unfolding store
  lookup-store max e m d older =
      evict_oldest_youngest max (insert e.key e m) e.key e (insert-Distinct e.key e m d)
        (lookup-insert_self e.key e m)
        (λ j f there other. older j f (sym (lookup-insert e.key j e m ∙ rw other) ∙ there))

  -- Storing an entry leaves what is under another key, or takes it away.
  lookup-store_ne :
      (max : ℕ) (e f : QaCacheEntry F F32) (m : Map (QaCacheEntry F F32)) (j : Str)
      → eqb e.key j ≡ false
      → lookup j (store max e m) ≡ some f
      → lookup j m ≡ some f
  unfolding store
  lookup-store_ne max e f m j other there =
      sym (lookup-insert e.key j e m ∙ rw other)
      ∙ evict_oldest_subset max (insert e.key e m) j f there

module _ {F F32 : Type 0} (fl : FloatOps F F32) (rt : Runtime) (now later : ℕ) (question : Str)
    (vector : List F32) (ctx : QaCacheContext) (output : QaQueryOutput F) where
  live_output-exact_entry :
      (c : QaCache F F32)
      → 0 < c.cfg.exact_ttl
      → live_output later (some (exact_entry fl rt now c.cfg question ctx output))
        ≡ (if ltb (now + c.cfg.exact_ttl) later then none else some output)
  unfolding exact_entry is_expired
  live_output-exact_entry c positive = ground (arith, clone_qa_output-id output)

  set-exact :
      (c : QaCache F F32)
      → IsValid fl rt c
      → ((j : Str) (e : QaCacheEntry F F32)
          → lookup j c.exact_entries ≡ some e
          → e.created_at < now)
      → lookup (build_exact_cache_key rt question ctx) (
          store c.cfg.exact_max_entries
            (exact_entry fl rt now c.cfg question ctx output)
            (remove_expired now c).exact_entries)
        ≡ some (exact_entry fl rt now c.cfg question ctx output)
  unfolding exact_entry
  set-exact c v older =
      lookup-store c.cfg.exact_max_entries (exact_entry fl rt now c.cfg question ctx output)
        (remove_expired now c).exact_entries (remove_expired-IsValid fl rt now c v).exact_distinct
        (λ j e there.
          older j e
            (live_of_kept now (lookup j c.exact_entries) e
              (sym (lookup-remove_expired now j c v.exact_distinct) ∙ there)).0)

  -- For a valid cache with a positive TTL whose exact entries are all older than the call of Set at
  -- `now`: GetExact at `later`, for the same question and context, on the cache that Set leaves
  -- returns the stored answer if `later` is at most `now` plus the TTL, and nothing after that.
  pub get_exact-set :
      (c : QaCache F F32)
      → IsValid fl rt c
      → 0 < c.cfg.exact_ttl
      → ((j : Str) (e : QaCacheEntry F F32)
          → lookup j c.exact_entries ≡ some e
          → e.created_at < now)
      → (get_exact fl rt later question ctx (set fl rt now question vector ctx output (some c))).1
        ≡ (if ltb (now + c.cfg.exact_ttl) later then none else some output)
  unfolding set
  get_exact-set c v positive older =
      let w = set-IsValid fl rt now question vector ctx output (some c) v in
      get_exact-live_output fl rt later question ctx _ w.exact_distinct
      ∙ (ap (live_output later) (set-exact c v older) ∙ live_output-exact_entry c positive)
