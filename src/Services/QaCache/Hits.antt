-- ===== src/Services/QaCache/Hits.antt =====
-- backend/internal/services/qa_cache.go: what the two lookups return.
use civika.Prelude.{
  ℕ, ◌≡◌, refl, sym, ◌∙◌, ap, false, Option, none, some, List, [], inl, inr, Bool-cases,
  if◌then◌else◌, arith,
}
use civika.Prelude.Int.{negsuc}
use civika.Text.{Str, eqb, Runtime}
use civika.Text.Laws.{eq_refl}
use civika.Float.{FloatOps}
use civika.GoMap.{lookup, Distinct, sweep-Distinct}
use civika.Services.Models.{QaQueryOutput}
use civika.Services.Keys.{QaCacheContext, build_context_hash, build_exact_cache_key}
use civika.Services.CacheState.{QaCacheEntry, QaCache}
use civika.Services.Upkeep.{is_expired, remove_expired}
use civika.Services.Upkeep.Expiry.{
  clone_qa_output-id, lookup-remove_expired, lookup-remove_expired_semantic,
}
use civika.Services.Similarity.{cosine_similarity, best_match}
use civika.Services.Similarity.Best.{IsStrict, best_match-IsFrom, best_match-ge}
use civika.Services.QaCache.{exact_hit, get_exact, semantic_hit, get_semantic}

-- The answer of an entry that has not expired.
abbrev pub live_output :
    {F F32 : Type 0} → ℕ → Option (QaCacheEntry F F32) → Option (QaQueryOutput F)
live_output now none = none
live_output now (some e) = if is_expired now e then none else some e.output

-- The answer of an entry.
abbrev output_of : {F F32 : Type 0} → Option (QaCacheEntry F F32) → Option (QaQueryOutput F)
output_of none = none
output_of (some e) = some e.output

output_of_live :
    {F F32 : Type 0} (now : ℕ) (o : Option (QaCacheEntry F F32))
    → output_of (elim o [ none ↦ none | some e ↦ if is_expired now e then none else some e ])
      ≡ live_output now o
output_of_live now none = refl
output_of_live now (some e) = ground arith

-- An entry that the removal of the expired ones leaves was there, and has not expired.
pub live_of_kept :
    {F F32 : Type 0} (now : ℕ) (o : Option (QaCacheEntry F F32)) (e : QaCacheEntry F F32)
    → elim o [ none ↦ none | some e ↦ if is_expired now e then none else some e ] ≡ some e
    → (o ≡ some e) × (is_expired now e ≡ false)
live_of_kept now none e h = cc
live_of_kept now (some f) e h = elim (Bool-cases (is_expired now f)) [
  | inl old ↦ absurd (ground arith)
  | inr new ↦
      let same : f ≡ e = ground arith in (ap some same, ap (is_expired now) (sym same) ∙ new)
]

some_eq : {A : Type 0} {a b : A} → some a ≡ some b → a ≡ b
some_eq h = cc

remove_expired-Distinct :
    {F F32 : Type 0} (now : ℕ) (c : QaCache F F32)
    → Distinct c.semantic_entries
    → Distinct (remove_expired now c).semantic_entries
unfolding remove_expired
remove_expired-Distinct now c d = sweep-Distinct (is_expired now) c.semantic_entries d

module _ {F F32 : Type 0} (fl : FloatOps F F32) (rt : Runtime) (now : ℕ) (question : Str)
    (ctx : QaCacheContext) (c : QaCache F F32) where
  exact_hit-output :
      (key : Str) (c' : QaCache F F32) (o : Option (QaCacheEntry F F32))
      → (exact_hit fl rt now question key c' o).1 ≡ output_of o
  unfolding exact_hit
  exact_hit-output key c' none = refl
  exact_hit-output key c' (some e) = ap some (clone_qa_output-id e.output)

  -- With no key twice among the exact entries: GetExact returns the answer that is stored under the
  -- key of the question and its context if that entry has not expired, and nothing otherwise.
  pub get_exact-live_output :
      Distinct c.exact_entries
      → (get_exact fl rt now question ctx (some c)).1
        ≡ live_output now (lookup (build_exact_cache_key rt question ctx) c.exact_entries)
  unfolding get_exact
  get_exact-live_output d =
      let key = build_exact_cache_key rt question ctx in
      exact_hit-output key (remove_expired now c) _
      ∙ (ap output_of (lookup-remove_expired now key c d)
          ∙ output_of_live now (lookup key c.exact_entries))

  semantic_hit-eq-some :
      (c' : QaCache F F32) (best : Str × F) (o : Option (QaCacheEntry F F32))
      (output : QaQueryOutput F)
      → (semantic_hit fl rt now question c' best o).2 ≡ some output
      → (e : QaCacheEntry F F32) × (o ≡ some e)
        × (output ≡ e.output)
        × ((semantic_hit fl rt now question c' best o).1 ≡ best.1)
  unfolding semantic_hit
  semantic_hit-eq-some c' best none output h = cc
  semantic_hit-eq-some c' best (some e) output h = (e, refl, cc (clone_qa_output-id e.output), refl)

  module _ (strict : IsStrict fl) (vector : List F32) where
    -- A semantic hit is the answer of an entry of the same context that has not expired; its
    -- similarity is the score, which is not below the threshold, and no such entry has a higher one.
    pub record IsBestHit (score : F) (output : QaQueryOutput F) : Type 0 where
      pub key : Str
      pub entry : QaCacheEntry F F32
      pub stored : lookup key c.semantic_entries ≡ some entry
      pub fresh : is_expired now entry ≡ false
      pub context : entry.context_hash ≡ build_context_hash rt ctx
      pub answer : output ≡ entry.output
      pub similarity : score ≡ cosine_similarity fl vector entry.question_vector
      pub above : fl.lt score c.cfg.similarity_threshold ≡ false
      pub best :
          (j : Str) (other : QaCacheEntry F F32)
          → lookup j c.semantic_entries ≡ some other
          → is_expired now other ≡ false
          → other.context_hash ≡ build_context_hash rt ctx
          → fl.lt score (cosine_similarity fl vector other.question_vector) ≡ false

    abbrev found : Str × F
    found =
        best_match fl vector (build_context_hash rt ctx) (remove_expired now c).semantic_entries
          ([], fl.of_int (negsuc 0))

    abbrev looked_up : Option (QaCacheEntry F F32)
    looked_up = lookup found.0 (remove_expired now c).semantic_entries

    get_semantic-eq-some :
        (output : QaQueryOutput F)
        → (get_semantic fl rt now vector question ctx (some c)).2 ≡ some output
        → (eqb found.0 [] ≡ false)
          × (fl.lt found.1 c.cfg.similarity_threshold ≡ false)
          × ((semantic_hit fl rt now question (remove_expired now c) found looked_up).2
              ≡ some output)
          × ((get_semantic fl rt now vector question ctx (some c)).1
              ≡ (semantic_hit fl rt now question (remove_expired now c) found looked_up).1)
    unfolding get_semantic
    get_semantic-eq-some output h = ground arith

    found_context :
        (e : QaCacheEntry F F32)
        → Distinct (remove_expired now c).semantic_entries
        → looked_up ≡ some e
        → eqb found.0 [] ≡ false
        → (e.context_hash ≡ build_context_hash rt ctx)
          × (found.1 ≡ cosine_similarity fl vector e.question_vector)
    found_context e d kept nonempty =
        elim (best_match-IsFrom fl strict vector (build_context_hash rt ctx)
          (remove_expired now c).semantic_entries ([], fl.of_int (negsuc 0)) d) [
            | inl stays ↦
                absurd (ground (arith, ap (λ (b : Str × F). eqb b.0 []) stays, eq_refl []))
            | inr (f, there, context, similarity) ↦
                let one : f ≡ e = some_eq (sym there ∙ kept) in
                (rw (← one) context, rw (← one) similarity)
          ]

    -- With a strict order on scores and no key twice among the semantic entries: an answer that
    -- GetSemantic returns is the answer of an entry that has not expired and has the hash of the same
    -- context, the score is the similarity of the entry's vector and is not below the threshold, and
    -- no entry of that kind has a higher similarity.
    pub get_semantic-IsBestHit :
        (output : QaQueryOutput F)
        → Distinct c.semantic_entries
        → (get_semantic fl rt now vector question ctx (some c)).2 ≡ some output
        → IsBestHit (get_semantic fl rt now vector question ctx (some c)).1 output
    get_semantic-IsBestHit output d h =
        let (nonempty, high, hit, score) = get_semantic-eq-some output h in
        let (e, kept, same, score') =
          semantic_hit-eq-some (remove_expired now c) found looked_up output hit in
        let (stored, fresh) =
          live_of_kept now (lookup found.0 c.semantic_entries) e
            (sym (lookup-remove_expired_semantic now found.0 c d) ∙ kept) in
        let (context, similarity) =
          found_context e (remove_expired-Distinct now c d) kept nonempty in
        rw (score, score')
          (record {
            key = found.0;
            entry = e;
            stored = stored;
            fresh = fresh;
            context = context;
            answer = same;
            similarity = similarity;
            above = high;
            best = λ j other there live context'.
                best_match-ge fl strict vector (build_context_hash rt ctx)
                  (remove_expired now c).semantic_entries ([], fl.of_int (negsuc 0)) j other
                  (lookup-remove_expired_semantic now j c d ∙ rw (there, live)) context';
          })
