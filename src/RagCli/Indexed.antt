-- ===== src/RagCli/Indexed.antt =====
-- backend/cmd/rag-cli/main.go: what processDocumentGroup hands to the store.
use civika.Prelude.{
  ℕ, ◌-◌, ◌≡◌, ◌≢◌, refl, sym, ap, ◌∙◌, subst, true, none, some, List, [], ◌∷◌, map, length,
  length-map, All, Bool-cases, inl, inr, arith, ◌==◌,
}
use civika.Prelude.Result.{ok, Result-cases}
use civika.Prelude.StateResult.{wrap_error, Ends, and_then-Ends, wrap_error-Ends, Ends-state}
use civika.Text.{Str, codes, eqb, Runtime, trim_space}
use civika.Float.{FloatOps}
use civika.GoMap.{keys, lookup}
use civika.Rag.Document.{Document, Chunk}
use civika.Rag.Chunk.{chunk_documents}
use civika.Rag.IndexState.{IndexDocumentState}
use civika.Rag.IndexSkip.{group_documents}
use civika.Rag.Usage.{UsageScope, with_usage_document_id}
use civika.Rag.Translator.{TranslationRequest, Translator}
use civika.Rag.EnsureTranslations.{ensure_missing_translations}
use civika.Rag.EnsureTranslations.Labels.{label, pairs, IsCode}
use civika.Rag.EnsureTranslations.Inputs.{IsKept}
use civika.Langs.{normalize_or_fallback}
use civika.Rag.EnsureTranslations.Complete.{ensure-Ends, IsReported}
use civika.RagCli.{
  EmbeddedChunk, UsageDocumentMetrics, ProcessError, empty_group, id_required, no_translator,
  inconsistent_vectors, ensure_failed, chunk_failed, embed_failed, upsert_failed, metrics_failed,
  Job, ProcessResult, no_state, embedded_chunks, ensured_group, document_metrics, stored_group,
  chunked_group, process_document_group,
}

map-embedded_chunks :
    {S F32 : Type 0} (chunks : List (Chunk S)) (vectors : List (List F32))
    → (length vectors == length chunks) ≡ true
    → map (λ (item : EmbeddedChunk S F32). item.chunk) (embedded_chunks chunks vectors) ≡ chunks
unfolding embedded_chunks
map-embedded_chunks [] vectors e = refl
map-embedded_chunks (chunk ∷ chunks) [] e = absurd (ground arith)
map-embedded_chunks (chunk ∷ chunks) (vector ∷ vectors) e =
    ap (λ l. chunk ∷ l) (map-embedded_chunks chunks vectors (ground arith))

module _ {F S F32 W E : Type 0} (rt : Runtime) (fl : FloatOps F F32) (text : Str → S)
    (package_langs : List Str) (clock : W → ℕ) (job : Job F S F32 W E)
    (group : List (Document S)) where
  -- The chunks of the group's documents in all supported languages, each with a vector.
  pub record AreIndexable (items : List (EmbeddedChunk S F32)) : Type 0 where
    pub docs : List (Document S)
    pub languages : map label docs ≡ pairs (keys (group_documents [] group)) job.supported_languages
    pub chunks :
        chunk_documents rt package_langs fl docs job.chunk_cfg
        ≡ ok (map (λ (item : EmbeddedChunk S F32). item.chunk) items)

  module _ (I : W → Type 0) (J : List (EmbeddedChunk S F32) → W → Type 0) where
    abbrev Stored : W → Type 0
    Stored v = (items : List (EmbeddedChunk S F32)) × AreIndexable items × J items v

    -- Where the indexing fails before the store is called, and after.
    abbrev pub IsFailure : W → ProcessError E → Type 0
    IsFailure v (upsert_failed e) = Stored v
    IsFailure v (metrics_failed e) = Stored v
    IsFailure v empty_group = I v
    IsFailure v id_required = I v
    IsFailure v no_translator = I v
    IsFailure v inconsistent_vectors = I v
    IsFailure v (ensure_failed e) = I v
    IsFailure v (chunk_failed e) = I v
    IsFailure v (embed_failed e) = I v

    abbrev pub IsSuccess : W → ProcessResult → Type 0
    IsSuccess v r =
        (items : List (EmbeddedChunk S F32)) × AreIndexable items
        × J items v
        × (r.chunk_count ≡ length items)

    module _
        (embeds : (s : UsageScope) (texts : List Str) (w : W)
          → I w
          → I (job.embedder.embed_texts s texts w).0)
        (stores : (items : List (EmbeddedChunk S F32)) (w : W)
          → I w
          → AreIndexable items
          → J items (job.store.upsert_chunks items w).0)
        (measures : (items : List (EmbeddedChunk S F32)) (metric : UsageDocumentMetrics) (w : W)
          → J items w
          → J items (job.store.upsert_index_document_metrics metric w).0) where
      stored_group-Ends :
          (doc_id : Str) (docs : List (Document S)) (chunks : List (Chunk S))
          (vectors : List (List F32)) (duration : ℕ) (w : W)
          → I w
          → map label docs ≡ pairs (keys (group_documents [] group)) job.supported_languages
          → chunk_documents rt package_langs fl docs job.chunk_cfg ≡ ok chunks
          → Ends IsSuccess IsFailure (
              stored_group rt fl text package_langs clock job doc_id docs chunks vectors duration w)
      unfolding stored_group
      stored_group-Ends doc_id docs chunks vectors duration w i languages made =
          elim (Bool-cases (length vectors == length chunks)) [
            | inr e ↦ rw (stored_group, e) i
            | inl e ↦
                let items = embedded_chunks chunks vectors in
                let same = map-embedded_chunks chunks vectors e in
                let a : AreIndexable items = record {
                  docs = docs;
                  languages = languages;
                  chunks = made ∙ ap ok (sym same);
                } in
                let count : length chunks ≡ length items =
                  sym (ap length same)
                  ∙ length-map items (λ (item : EmbeddedChunk S F32). item.chunk) in
                rw (stored_group, e)
                  (and_then-Ends (λ v done. J items v) IsSuccess IsFailure _ _
                    (wrap_error-Ends (λ v done. J items v) (λ v x. J items v) IsFailure
                      upsert_failed (job.store.upsert_chunks items w)
                      (Ends-state (J items) (job.store.upsert_chunks items w) (stores items w i a))
                      (λ x v j. (items, a, j)))
                    (λ done v j.
                      let metric =
                        document_metrics rt fl text package_langs clock job doc_id docs chunks v in
                      and_then-Ends (λ u done'. J items u) IsSuccess IsFailure _ _
                        (wrap_error-Ends (λ u done'. J items u) (λ u x. J items u) IsFailure
                          metrics_failed (job.store.upsert_index_document_metrics metric v)
                          (Ends-state (J items) (job.store.upsert_index_document_metrics metric v)
                            (measures items metric v j))
                          (λ x u k. (items, a, k)))
                        (λ done' u k. (items, a, k, count))))
          ]

      chunked_group-Ends :
          (doc_id : Str) (docs : List (Document S)) (w : W)
          → I w
          → map label docs ≡ pairs (keys (group_documents [] group)) job.supported_languages
          → Ends IsSuccess IsFailure
              (chunked_group rt fl text package_langs clock job doc_id docs w)
      unfolding chunked_group
      chunked_group-Ends doc_id docs w i languages =
          elim (Result-cases (chunk_documents rt package_langs fl docs job.chunk_cfg)) [
            | inr (e, n) ↦ rw (chunked_group, n) i
            | inl (chunks, n) ↦
                let s = with_usage_document_id doc_id job.scope in
                let texts = map (λ (chunk : Chunk S). chunk.text) chunks in
                rw (chunked_group, n)
                  (and_then-Ends (λ v vectors. I v) IsSuccess IsFailure _ _
                    (wrap_error-Ends (λ v vectors. I v) (λ v x. I v) IsFailure embed_failed
                      (job.embedder.embed_texts s texts w)
                      (Ends-state I (job.embedder.embed_texts s texts w) (embeds s texts w i))
                      (λ x v j. j))
                    (λ vectors v j.
                      stored_group-Ends doc_id docs chunks vectors (clock v - clock w) v j languages
                        n))
          ]

      module _ (translator : Translator W E)
          (keeps : (s : UsageScope) (request : TranslationRequest) (v : W)
            → I v
            → I (translator.translate s request v).0)
          (mode : eqb job.mode (codes "llm") ≡ true) (there : job.translator ≡ some translator)
          (filled : job.supported_languages ≢ [])
          (codes_kept : All (IsCode rt) job.supported_languages) where
        abbrev IsEnsured : W → List (Document S) → Type 0
        IsEnsured v docs =
            I v
            × (map label docs ≡ pairs (keys (group_documents [] group)) job.supported_languages)
            × All
                (IsKept rt job.supported_languages
                  (normalize_or_fallback rt job.default_language (codes "fr")
                    job.supported_languages)
                  group)
                docs

        ensured_group-Ends :
            (doc_id : Str) (w : W)
            → I w
            → Ends IsEnsured IsFailure
                (ensured_group rt fl text package_langs clock job doc_id group w)
        unfolding ensured_group
        ensured_group-Ends doc_id w i =
            let state : IndexDocumentState = elim (lookup doc_id job.existing_state) [
              | none ↦ no_state
              | some s ↦ s
            ] in
            let run =
              ensure_missing_translations rt text package_langs clock job.scope
                ((doc_id, state) ∷ []) job.supported_languages (some translator) group
                job.default_language w in
            let same : ensured_group rt fl text package_langs clock job doc_id group w
                ≡ wrap_error ensure_failed run =
              rw (ensured_group, mode, there) refl in
            subst (Ends IsEnsured IsFailure) (sym same) (
              wrap_error-Ends IsEnsured
                (λ v x.
                  I v
                  × IsReported rt text package_langs clock translator job.scope
                      ((doc_id, state) ∷ []) job.supported_languages group job.default_language v x)
                IsFailure ensure_failed run
                (ensure-Ends rt text package_langs clock translator job.scope ((doc_id, state) ∷ [])
                  job.supported_languages group job.default_language I keeps w i filled codes_kept)
                (λ x v (j, e). j))

        started-Ends :
            (docs : List (Document S)) (w : W)
            → docs ≡ group
            → I w
            → Ends IsSuccess IsFailure
                (process_document_group rt fl text package_langs clock job docs w)
        unfolding process_document_group
        started-Ends [] w e i = i
        started-Ends (doc ∷ docs) w e i = elim (Bool-cases (eqb (trim_space doc.id) [])) [
          | inl t ↦ rw (process_document_group, t) i
          | inr t ↦
              rw (process_document_group, t)
                (and_then-Ends IsEnsured IsSuccess IsFailure _ _
                  (subst
                    (λ g.
                      Ends IsEnsured IsFailure
                        (ensured_group rt fl text package_langs clock job (trim_space doc.id) g w))
                    (sym e) (ensured_group-Ends (trim_space doc.id) w i))
                  (λ r v (j, languages, kept).
                    chunked_group-Ends (trim_space doc.id) r v j languages))
        ]

      -- In the mode with a language model, with a translator, and with supported languages that are
      -- normalised codes, and at least one: let I be what translations and embeddings keep, and let
      -- UpsertChunks lead from I to J when it is called with the chunks of documents whose identifiers
      -- and languages are each of the group's with each supported language, each chunk with a vector;
      -- and let the metrics keep J. From a state with I, processDocumentGroup ends with J and the
      -- number of those chunks, or with J and an error of the store, or with I and any other error.
      pub process_document_group-Ends :
          (translator : Translator W E) (w : W)
          → ((s : UsageScope) (request : TranslationRequest) (v : W)
              → I v
              → I (translator.translate s request v).0)
          → eqb job.mode (codes "llm") ≡ true
          → job.translator ≡ some translator
          → job.supported_languages ≢ []
          → All (IsCode rt) job.supported_languages
          → I w
          → Ends IsSuccess IsFailure
              (process_document_group rt fl text package_langs clock job group w)
      process_document_group-Ends translator w keeps mode there filled codes_kept i =
          started-Ends translator keeps mode there filled codes_kept group w refl i
