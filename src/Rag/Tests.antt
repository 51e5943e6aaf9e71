-- ===== src/Rag/Tests.antt =====
-- The theorems on metadata, chunks and the index at concrete inputs.
use civika.Prelude.{◌≡◌, ◌≢◌, ◌↔◌, refl, true, false, List, [], ◌∷◌, length, arith, In}
use civika.Prelude.Result.{ok}
use civika.Text.{Str, codes, eqb, fields}
use civika.GoMap.{Map, lookup}
use civika.Rag.Metadata.{MetaMap, end, entry, scalar, dict, nil_value, sanitize_metadata_map}
use civika.Rag.Metadata.Clean.{HasCleanKeys, sanitize_metadata_map-HasCleanKeys}
use civika.Rag.Document.{Document, Chunk}
use civika.Rag.Chunk.{chunk_of, chunk_document, chunk_documents}
use civika.Rag.Chunk.Count.{chunk_documents-expected}
use civika.Rag.Chunk.Cover.{IsTiling, chunk_document-IsTiling}
use civika.Rag.ExpectedCount.{expected_chunk_count_for_group}
use civika.Rag.Fingerprint.{document_content_hash, prepare_documents_for_index}
use civika.Rag.IndexState.{IndexDocumentState, status_ready}
use civika.Rag.IndexSkip.{should_skip_document_group, is_skipped, filter_documents_for_index}
use civika.Rag.IndexSkip.Sound.{IsUpToDate}
use civika.Rag.IndexSkip.Filter.{with_id, In-filter_documents_for_index}
use civika.Rag.IndexSkip.Complete.{should_skip_document_group_iff}
use civika.Samples.{plain_runtime, percent, document_of, chunk_config}

abbrev mixed : MetaMap Str
mixed = entry (codes "Contact") (scalar (codes "x")) (
    entry (codes "a") (dict (entry (codes "email") nil_value end))
      (entry (codes "b") nil_value end))

sanitize_metadata_map-HasCleanKeys_example :
    HasCleanKeys plain_runtime (sanitize_metadata_map plain_runtime mixed)
sanitize_metadata_map-HasCleanKeys_example = sanitize_metadata_map-HasCleanKeys plain_runtime mixed

abbrev text_1 : Document Str
text_1 = document_of (codes "d1") (codes "eins zwei drei")

abbrev chunk_1 : Chunk Str
chunk_1 = chunk_of plain_runtime [] text_1 (codes "eins" ∷ codes "zwei" ∷ codes "drei" ∷ []) 0 3 0

chunked : chunk_documents plain_runtime [] percent (text_1 ∷ []) chunk_config ≡ ok (chunk_1 ∷ [])
unfolding chunk_documents chunk_of fields
chunked = refl

chunk_documents-expected_example :
    length (chunk_1 ∷ []) ≡ expected_chunk_count_for_group percent (text_1 ∷ []) chunk_config
chunk_documents-expected_example =
    chunk_documents-expected plain_runtime [] percent (text_1 ∷ []) chunk_config (chunk_1 ∷ [])
      chunked

some_tokens : fields text_1.content ≢ []
unfolding fields
some_tokens h = cc

chunk_document-IsTiling_example :
    IsTiling (fields text_1.content) 2 1 0 (chunk_document plain_runtime [] 2 1 text_1)
chunk_document-IsTiling_example =
    chunk_document-IsTiling plain_runtime [] 2 1 text_1 (omega arith) (omega arith) some_tokens

abbrev indexed : IndexDocumentState
indexed = record {
  document_id = codes "d1";
  source_fingerprint = [];
  source_fingerprint_confidence = [];
  index_complete = true;
  indexed_chunk_count = 1;
  translations =
      (
        codes "de",
        record {
          translation_id = codes "t1";
          lang = codes "de";
          title = codes "t";
          content = codes "eins zwei drei";
          status = status_ready;
          provider = [];
          source_hash = [];
          content_hash = document_content_hash plain_runtime text_1;
        },
      )
      ∷ [];
}

skips :
    should_skip_document_group plain_runtime percent
      (text_1 ∷ [])
      indexed
      (codes "de" ∷ [])
      chunk_config
    ≡ true
unfolding should_skip_document_group document_content_hash fields lookup eqb
skips = refl

should_skip_document_group_iff_example :
    (should_skip_document_group plain_runtime percent
        (text_1 ∷ [])
        indexed
        (codes "de" ∷ [])
        chunk_config
      ≡ true)
    ↔ IsUpToDate plain_runtime indexed percent (text_1 ∷ []) (codes "de" ∷ []) chunk_config
should_skip_document_group_iff_example =
    should_skip_document_group_iff plain_runtime indexed percent (text_1 ∷ []) (codes "de" ∷ [])
      chunk_config

abbrev existing : Map IndexDocumentState
existing = (codes "d1", indexed) ∷ []

abbrev incoming : List (Document Str)
incoming = text_1 ∷ document_of (codes "d2") (codes "neu") ∷ []

In-filter_documents_for_index_example :
    In text_1
      (filter_documents_for_index plain_runtime percent
        (codes "de" ∷ [])
        []
        chunk_config
        existing
        (λ s. s)
        incoming).0
    ↔ (In text_1 (prepare_documents_for_index plain_runtime (λ s. s) incoming)
        × (is_skipped plain_runtime percent
              (codes "de" ∷ [])
              []
              chunk_config
              existing
              text_1.id
              (with_id text_1.id (prepare_documents_for_index plain_runtime (λ s. s) incoming))
            ≡ false))
In-filter_documents_for_index_example =
    In-filter_documents_for_index plain_runtime percent (codes "de" ∷ []) [] chunk_config existing
      (λ s. s) incoming text_1
