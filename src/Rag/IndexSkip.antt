-- ===== src/Rag/IndexSkip.antt =====
-- backend/internal/rag/index_skip.go: which groups of documents are indexed again. The keys of the map of
-- the groups are sorted before the loop, so that its order does not matter.
pub mod Sound
pub mod Complete
pub mod Filter
use civika.Prelude.{
  ℕ, suc, ◌+◌, ◌-◌, Bool, true, false, not, ◌&&◌, ◌||◌, Option, none, some, List, [], ◌∷◌, ◌++◌,
  map, length, ltb, ◌==◌, if◌then◌else◌,
}
use civika.Prelude.Sort.{sort_slice}
use civika.Text.{Str, codes, eqb, Runtime, trim_space, str_lt}
use civika.Float.{FloatOps}
use civika.GoMap.{Map, lookup, insert, keys}
use civika.Langs.{contains}
use civika.Rag.Document.{Document, ChunkConfig}
use civika.Rag.ExpectedCount.{expected_chunk_count_for_group}
use civika.Rag.Fingerprint.{
  confidence_high, document_content_hash, source_fingerprint_for_document,
  prepare_documents_for_index,
}
use civika.Rag.IndexState.{
  IndexTranslationState, IndexDocumentState, IndexSkipReport, has_ready_translations_for_languages,
  required_languages_for_group, pick_source_from_docs,
}

unfoldable pub fingerprint_is : IndexDocumentState → Str × Str → Bool
fingerprint_is state (fingerprint, confidence) =
    if not (eqb confidence confidence_high) then false else eqb fingerprint state.source_fingerprint

unfoldable pub content_hash_is : Str → Option IndexTranslationState → Bool
unfolding trim_space
content_hash_is expected none = false
content_hash_is expected (some existing) =
    if eqb expected [] || eqb (trim_space existing.content_hash) []
    then false
    else if not (eqb expected existing.content_hash)
    then false
    else true

module _ {S : Type 0} (rt : Runtime) where
  unfoldable pub source_fingerprint_matches : List (Document S) → IndexDocumentState → Bool
  unfolding trim_space pick_source_from_docs source_fingerprint_for_document fingerprint_is
  source_fingerprint_matches docs state =
      if eqb (trim_space state.source_fingerprint) []
      then false
      else if not (eqb (trim_space state.source_fingerprint_confidence) confidence_high)
      then false
      else elim (pick_source_from_docs docs) [
        | none ↦ false
        | some source ↦ fingerprint_is state (source_fingerprint_for_document rt source)
      ]

  unfoldable pub fallback_content_hashes_match : List (Document S) → IndexDocumentState → Bool
  unfolding trim_space document_content_hash content_hash_is
  fallback_content_hashes_match [] state = true
  fallback_content_hashes_match (doc ∷ docs) state =
      if content_hash_is (document_content_hash rt doc)
        (lookup (trim_space doc.language) state.translations)
      then fallback_content_hashes_match docs state
      else false

  unfoldable pub should_skip_document_group :
      {F F32 : Type 0}
      → FloatOps F F32
      → List (Document S)
      → IndexDocumentState
      → List Str
      → ChunkConfig F
      → Bool
  unfolding expected_chunk_count_for_group has_ready_translations_for_languages
      source_fingerprint_matches fallback_content_hashes_match
  should_skip_document_group fl docs state required_langs cfg =
      let expected = expected_chunk_count_for_group fl docs cfg in
      if not state.index_complete
      then false
      else if expected == 0
      then false
      else if not (state.indexed_chunk_count == expected)
      then false
      else if not (has_ready_translations_for_languages state required_langs)
      then false
      else if source_fingerprint_matches docs state
      then true
      else fallback_content_hashes_match docs state

-- `grouped[doc.ID] = append(grouped[doc.ID], doc)`
unfoldable pub add_to_group :
    {S : Type 0} → Document S → Map (List (Document S)) → Map (List (Document S))
add_to_group doc grouped =
    insert doc.id (elim (lookup doc.id grouped) [ none ↦ doc ∷ [] | some docs ↦ docs ++ doc ∷ [] ])
      grouped

unfoldable pub group_documents :
    {S : Type 0} → Map (List (Document S)) → List (Document S) → Map (List (Document S))
unfolding add_to_group
group_documents grouped [] = grouped
group_documents grouped (doc ∷ docs) = group_documents (add_to_group doc grouped) docs

-- `grouped[docID]`
unfoldable pub group_of : {S : Type 0} → Map (List (Document S)) → Str → List (Document S)
group_of grouped doc_id = elim (lookup doc_id grouped) [ none ↦ [] | some docs ↦ docs ]

module _ {S F F32 : Type 0} (rt : Runtime) (fl : FloatOps F F32) (supported : List Str) (mode : Str)
    (cfg : ChunkConfig F) (existing : Map IndexDocumentState) where
  -- `if !exists … if shouldSkipDocumentGroup …`
  unfoldable pub is_skipped : Str → List (Document S) → Bool
  unfolding should_skip_document_group required_languages_for_group
  is_skipped doc_id docs = elim (lookup doc_id existing) [
    | none ↦ false
    | some state ↦
        should_skip_document_group rt fl docs state
          (required_languages_for_group docs supported mode) cfg
  ]

  -- The loop over the sorted keys: the documents to process and the number of skipped groups.
  unfoldable pub filter_loop :
      Map (List (Document S)) → List Str → List (Document S) → ℕ → List (Document S) × ℕ
  unfolding is_skipped group_of
  filter_loop grouped [] out skipped = (out, skipped)
  filter_loop grouped (doc_id ∷ doc_ids) out skipped =
      let docs = group_of grouped doc_id in
      let without = filter_loop grouped doc_ids out (skipped + 1) in
      let with_docs = filter_loop grouped doc_ids (out ++ docs) skipped in
      if is_skipped doc_id docs then without else with_docs

  unfoldable pub filter_documents_for_index :
      (Str → S) → List (Document S) → List (Document S) × IndexSkipReport
  unfolding prepare_documents_for_index group_documents filter_loop sort_slice str_lt
  filter_documents_for_index text documents =
      let grouped = group_documents [] (prepare_documents_for_index rt text documents) in
      let (out, skipped) = filter_loop grouped (sort_slice str_lt (keys grouped)) [] 0 in
      (
        out,
        record {
          grouped_documents = length grouped;
          skipped_documents = skipped;
          processed_docs = length grouped - skipped;
        },
      )
