-- ===== src/Services/Upkeep/Expiry.antt =====
-- backend/internal/services/qa_cache.go: copies, and the entries that expire.
use civika.Prelude.{ℕ, ◌≡◌, refl, ap, none, some, List, [], ◌∷◌, if◌then◌else◌}
use civika.Text.{Str}
use civika.GoMap.{lookup, Distinct, lookup-sweep}
use civika.Services.Models.{QaQueryOutput}
use civika.Services.CacheState.{QaCache}
use civika.Services.Upkeep.{clone_slice, clone_qa_output, is_expired, remove_expired}

pub clone_slice-id {ℓ} : {A : Type ℓ} (items : List A) → clone_slice items ≡ items
unfolding clone_slice
clone_slice-id [] = refl
clone_slice-id (a ∷ items) = ap (◌∷◌ a) (clone_slice-id items)

pub clone_qa_output-id : {F : Type 0} (o : QaQueryOutput F) → clone_qa_output o ≡ o
unfolding clone_qa_output
clone_qa_output-id o = rw (clone_slice-id o.citations, clone_slice-id o.meta.used_documents)

module _ {F F32 : Type 0} (now : ℕ) (k : Str) (c : QaCache F F32) where
  -- What is under a key after the removal: the entry, unless it has expired.
  pub lookup-remove_expired :
      Distinct c.exact_entries
      → lookup k (remove_expired now c).exact_entries ≡ elim (lookup k c.exact_entries) [
        | none ↦ none
        | some e ↦ if is_expired now e then none else some e
      ]
  unfolding remove_expired
  lookup-remove_expired d = lookup-sweep (is_expired now) k c.exact_entries d

  pub lookup-remove_expired_semantic :
      Distinct c.semantic_entries
      → lookup k (remove_expired now c).semantic_entries ≡ elim (lookup k c.semantic_entries) [
        | none ↦ none
        | some e ↦ if is_expired now e then none else some e
      ]
  unfolding remove_expired
  lookup-remove_expired_semantic d = lookup-sweep (is_expired now) k c.semantic_entries d
