-- ===== src/RagCli.antt =====
-- backend/cmd/rag-cli/main.go: the indexing of one group of documents. `W` is the state that the translator,
-- the embedder, the store and the clock share; what is logged, and the text of an error, is left out.
pub mod Usage
pub mod Indexed
mod Tests
use civika.Prelude.{
  ℕ, ◌-◌, false, not, Option, none, some, List, [], ◌∷◌, map, length, ◌==◌, if◌then◌else◌,
}
use civika.Prelude.Int.{ℤ, pos}
use civika.Prelude.Result.{Result, ok, err}
use civika.Prelude.StateResult.{and_then, wrap_error}
use civika.Text.{Str, codes, eqb, Runtime, trim_space, to_lower}
use civika.Float.{FloatOps}
use civika.GoMap.{Map, lookup}
use civika.Rag.Document.{Document, Chunk, ChunkConfig}
use civika.Rag.Chunk.{ChunkError, chunk_documents}
use civika.Rag.IndexState.{IndexDocumentState}
use civika.Rag.Usage.{UsageScope, with_usage_document_id}
use civika.Rag.Translator.{Translator}
use civika.Rag.EnsureTranslations.{EnsureError, ensure_missing_translations}
use civika.RagCli.Usage.{
  IndexUsageCollector, Snapshot, snapshot_of, no_accumulator, snapshot_document, sum_chunk_tokens,
}

pub record EmbeddedChunk (S F32 : Type 0) : Type 0 where
  pub chunk : Chunk S
  pub vector : List F32

pub record UsageDocumentMetrics : Type 0 where
  pub run_id : Str
  pub document_id : Str
  pub source_lang : Str
  pub source_content_chars : ℕ
  pub title_chars : ℕ
  pub usage : Snapshot
  pub chunks_count : ℕ
  pub chunks_tokens_sum : ℤ
  pub status : Str
  pub indexed_at_utc : ℕ

-- The interfaces `indexStore` and `Embedder`.
pub record IndexStore (S F32 W E : Type 0) : Type 0 where
  pub upsert_chunks : List (EmbeddedChunk S F32) → W → W × Result E Unit
  pub upsert_index_document_metrics : UsageDocumentMetrics → W → W × Result E Unit

pub record TextEmbedder (F32 W E : Type 0) : Type 0 where
  pub embed_texts : UsageScope → List Str → W → W × Result E (List (List F32))

pub data ProcessError (E : Type 0) : Type 0 where
  empty_group id_required no_translator inconsistent_vectors : ProcessError E
  ensure_failed : EnsureError E → ProcessError E
  chunk_failed : ChunkError → ProcessError E
  embed_failed upsert_failed metrics_failed : E → ProcessError E

-- `processDocumentGroupInput` without the documents; `usage` reads the collector, if there is one.
pub record Job (F S F32 W E : Type 0) : Type 0 where
  pub mode : Str
  pub supported_languages : List Str
  pub default_language : Str
  pub scope : UsageScope
  pub store : IndexStore S F32 W E
  pub usage : Option (W → IndexUsageCollector)
  pub embedder : TextEmbedder F32 W E
  pub translator : Option (Translator W E)
  pub existing_state : Map IndexDocumentState
  pub chunk_cfg : ChunkConfig F
  pub index_run_id : Str

pub record ProcessResult : Type 0 where
  pub document_id : Str
  pub chunk_count : ℕ
  pub embedding_duration : ℕ
  pub upsert_duration : ℕ

-- The zero value of `IndexDocumentState`, which is read for a document that is not indexed.
abbrev pub no_state : IndexDocumentState
no_state = record {
  document_id = [];
  source_fingerprint = [];
  source_fingerprint_confidence = [];
  index_complete = false;
  indexed_chunk_count = 0;
  translations = [];
}

-- `for _, doc := range documents { if … == lang { return doc } }`
unfoldable pub first_in : {S : Type 0} → Runtime → Str → List (Document S) → Option (Document S)
unfolding to_lower trim_space
first_in rt lang [] = none
first_in rt lang (doc ∷ docs) =
    if eqb (to_lower rt (trim_space doc.language)) lang then some doc else first_in rt lang docs

-- `none` is the zero document.
unfoldable pub pick_source_document_for_metrics :
    {S : Type 0} → Runtime → List (Document S) → Str → Option (Document S)
unfolding to_lower trim_space first_in
pick_source_document_for_metrics rt documents default_lang =
    let lang = to_lower rt (trim_space default_lang) in
    elim (if eqb lang [] then none else first_in rt lang documents) [
      | some doc ↦ some doc
      | none ↦ elim (first_in rt (codes "fr") documents) [
        | some doc ↦ some doc
        | none ↦ elim documents [ [] ↦ none | doc ∷ docs ↦ some doc ]
      ]
    ]

-- `embedded = append(embedded, EmbeddedChunk{chunk, vectors[idx]})`, for as many vectors as chunks.
unfoldable pub embedded_chunks :
    {S F32 : Type 0} → List (Chunk S) → List (List F32) → List (EmbeddedChunk S F32)
embedded_chunks [] vectors = []
embedded_chunks (chunk ∷ chunks) [] = []
embedded_chunks (chunk ∷ chunks) (vector ∷ vectors) =
    record { chunk = chunk; vector = vector } ∷ embedded_chunks chunks vectors

module _ {F S F32 W E : Type 0} (rt : Runtime) (fl : FloatOps F F32) (text : Str → S)
    (package_langs : List Str) (clock : W → ℕ) (job : Job F S F32 W E) where
  -- The documents in all languages, in the mode with a language model.
  unfoldable pub ensured_group :
      Str → List (Document S) → W → W × Result (ProcessError E) (List (Document S))
  unfolding ensure_missing_translations lookup
  ensured_group doc_id group w =
      if not (eqb job.mode (codes "llm")) then (w, ok group) else elim job.translator [
        | none ↦ (w, err no_translator)
        | some translator ↦ wrap_error ensure_failed (
            ensure_missing_translations rt text package_langs clock job.scope
              ((doc_id, elim (lookup doc_id job.existing_state) [ none ↦ no_state | some s ↦ s ])
                ∷ [])
              job.supported_languages (some translator) group job.default_language w)
      ]

  unfoldable pub document_metrics :
      Str → List (Document S) → List (Chunk S) → W → UsageDocumentMetrics
  unfolding snapshot_document snapshot_of sum_chunk_tokens pick_source_document_for_metrics
  document_metrics doc_id group chunks w =
      let source = pick_source_document_for_metrics rt group job.default_language in
      record {
        run_id = job.index_run_id;
        document_id = doc_id;
        source_lang = elim source [ none ↦ [] | some doc ↦ doc.language ];
        source_content_chars = elim source [ none ↦ 0 | some doc ↦ length doc.content ];
        title_chars = elim source [ none ↦ 0 | some doc ↦ length doc.title ];
        usage = elim job.usage [
          | none ↦ snapshot_of no_accumulator
          | some collector ↦ snapshot_document doc_id (collector w)
        ];
        chunks_count = length chunks;
        chunks_tokens_sum = sum_chunk_tokens (pos 0) chunks;
        status = codes "success";
        indexed_at_utc = clock w;
      }

  -- From the embedded chunks on.
  unfoldable pub stored_group :
      Str
      → List (Document S)
      → List (Chunk S)
      → List (List F32)
      → ℕ
      → W
      → W × Result (ProcessError E) ProcessResult
  unfolding embedded_chunks document_metrics
  stored_group doc_id group chunks vectors embedding_duration w =
      if not (length vectors == length chunks)
      then (w, err inconsistent_vectors)
      else and_then
          (wrap_error upsert_failed (job.store.upsert_chunks (embedded_chunks chunks vectors) w))
          (λ done v.
            and_then
              (wrap_error metrics_failed (
                job.store.upsert_index_document_metrics (document_metrics doc_id group chunks v) v))
              (λ done' u. (
                u,
                ok (record {
                  document_id = doc_id;
                  chunk_count = length chunks;
                  embedding_duration = embedding_duration;
                  upsert_duration = clock v - clock w;
                }),
              )))

  -- From the documents in their languages on.
  unfoldable pub chunked_group :
      Str → List (Document S) → W → W × Result (ProcessError E) ProcessResult
  unfolding chunk_documents stored_group with_usage_document_id
  chunked_group doc_id group w = elim (chunk_documents rt package_langs fl group job.chunk_cfg) [
    | err e ↦ (w, err (chunk_failed e))
    | ok chunks ↦
        and_then
          (wrap_error embed_failed (
            job.embedder.embed_texts (with_usage_document_id doc_id job.scope)
              (map (λ chunk. chunk.text) chunks) w))
          (λ vectors v. stored_group doc_id group chunks vectors (clock v - clock w) v)
  ]

  -- `processDocumentGroup`
  unfoldable pub process_document_group :
      List (Document S) → W → W × Result (ProcessError E) ProcessResult
  unfolding trim_space ensured_group chunked_group
  process_document_group [] w = (w, err empty_group)
  process_document_group (doc ∷ docs) w =
      let doc_id = trim_space doc.id in
      if eqb doc_id []
      then (w, err id_required)
      else and_then (ensured_group doc_id (doc ∷ docs) w) (λ group v. chunked_group doc_id group v)
