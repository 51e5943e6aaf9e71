-- ===== src/Rag/IndexSkip/Sound.antt =====
-- backend/internal/rag/index_skip.go: the reasons to skip a group.
use civika.Prelude.{
  ◌<◌, ◌≡◌, ◌≢◌, refl, sym, ◌∙◌, true, Option, none, some, List, [], ◌∷◌, All, ◌⊎◌, inl, inr,
  Bool-cases, Option-cases, length, arith,
}
use civika.Prelude.Result.{ok}
use civika.Text.{Str, Runtime, trim_space}
use civika.Text.Laws.{eqb_iff}
use civika.Float.{FloatOps}
use civika.GoMap.{lookup}
use civika.Rag.Document.{Document, Chunk, ChunkConfig}
use civika.Rag.Chunk.{chunk_documents}
use civika.Rag.Chunk.Count.{chunk_documents-expected}
use civika.Rag.ExpectedCount.{expected_chunk_count_for_group}
use civika.Rag.Fingerprint.{confidence_high, document_content_hash, source_fingerprint_for_document}
use civika.Rag.IndexState.{
  IndexTranslationState, IndexDocumentState, status_ready, has_ready_translations_for_languages,
  pick_source_from_docs,
}
use civika.Rag.IndexSkip.{
  fingerprint_is, source_fingerprint_matches, content_hash_is, fallback_content_hashes_match,
  should_skip_document_group,
}

module _ (state : IndexDocumentState) where
  -- The language has a translation that is ready.
  abbrev pub IsReady : Str → Type 0
  IsReady lang =
      (t : IndexTranslationState) × (lookup lang state.translations ≡ some t)
      × (trim_space t.status ≡ status_ready)

  has_ready_translations_for_languages-IsReady :
      (langs : List Str)
      → has_ready_translations_for_languages state langs ≡ true
      → All IsReady langs
  unfolding has_ready_translations_for_languages
  has_ready_translations_for_languages-IsReady [] h = tt
  has_ready_translations_for_languages-IsReady (lang ∷ langs) h =
      elim (Option-cases (lookup lang state.translations)) [
        | inl missing ↦ absurd (ground arith)
        | inr (t, found) ↦ (
          (t, found, (eqb_iff (trim_space t.status) status_ready).0 (ground arith)),
          has_ready_translations_for_languages-IsReady langs (ground arith),
        )
      ]

  fingerprint_is-eq :
      (fp : Str × Str)
      → fingerprint_is state fp ≡ true
      → fp ≡ (state.source_fingerprint, confidence_high)
  unfolding fingerprint_is
  fingerprint_is-eq (f, c) h =
      ground (arith, eqb_iff f state.source_fingerprint, eqb_iff c confidence_high)

  content_hash_is-eq :
      (hash : Str) (o : Option IndexTranslationState)
      → content_hash_is hash o ≡ true
      → (t : IndexTranslationState) × (o ≡ some t)
        × (hash ≡ t.content_hash)
        × (hash ≢ [])
        × (trim_space t.content_hash ≢ [])
  unfolding content_hash_is
  content_hash_is-eq hash none h = cc
  content_hash_is-eq hash (some t) h = (
    t,
    refl,
    ground (arith, eqb_iff hash t.content_hash),
    ground (arith, eqb_iff hash []),
    ground (arith, eqb_iff (trim_space t.content_hash) []),
  )

module _ {S : Type 0} (rt : Runtime) (state : IndexDocumentState) where
  -- The source of the group has the fingerprint that was stored, and both are reliable.
  abbrev pub HasSameSource : List (Document S) → Type 0
  HasSameSource docs =
      (source : Document S) × (pick_source_from_docs docs ≡ some source)
      × (source_fingerprint_for_document rt source ≡ (state.source_fingerprint, confidence_high))
      × (trim_space state.source_fingerprint ≢ [])
      × (trim_space state.source_fingerprint_confidence ≡ confidence_high)

  -- The document has the content whose hash was stored for its language.
  abbrev pub HasSameContent : Document S → Type 0
  HasSameContent doc =
      (t : IndexTranslationState) × (lookup (trim_space doc.language) state.translations ≡ some t)
      × (document_content_hash rt doc ≡ t.content_hash)
      × (document_content_hash rt doc ≢ [])
      × (trim_space t.content_hash ≢ [])

  source_fingerprint_matches-HasSameSource :
      (docs : List (Document S))
      → source_fingerprint_matches rt docs state ≡ true
      → HasSameSource docs
  unfolding source_fingerprint_matches
  source_fingerprint_matches-HasSameSource docs h =
      elim (Option-cases (pick_source_from_docs docs)) [
        | inl missing ↦ absurd (ground arith)
        | inr (source, found) ↦ (
          source,
          found,
          fingerprint_is-eq state (source_fingerprint_for_document rt source) (ground arith),
          ground (arith, eqb_iff (trim_space state.source_fingerprint) []),
          ground (arith, eqb_iff (trim_space state.source_fingerprint_confidence) confidence_high),
        )
      ]

  fallback-HasSameContent :
      (docs : List (Document S))
      → fallback_content_hashes_match rt docs state ≡ true
      → All HasSameContent docs
  unfolding fallback_content_hashes_match
  fallback-HasSameContent [] h = tt
  fallback-HasSameContent (doc ∷ docs) h = (
    content_hash_is-eq state (document_content_hash rt doc)
        (lookup (trim_space doc.language) state.translations) (ground arith),
    fallback-HasSameContent docs (ground arith),
  )

  -- Why a group may be skipped.
  pub record IsUpToDate {F F32 : Type 0} (fl : FloatOps F F32) (docs : List (Document S))
      (langs : List Str) (cfg : ChunkConfig F) : Type 0 where
    pub complete : state.index_complete ≡ true
    pub counted : state.indexed_chunk_count ≡ expected_chunk_count_for_group fl docs cfg
    pub nonempty : 0 < state.indexed_chunk_count
    pub ready : All (IsReady state) langs
    pub unchanged : HasSameSource docs ⊎ All HasSameContent docs

  pub should_skip_document_group-IsUpToDate :
      {F F32 : Type 0} (fl : FloatOps F F32) (docs : List (Document S)) (langs : List Str)
      (cfg : ChunkConfig F)
      → should_skip_document_group rt fl docs state langs cfg ≡ true
      → IsUpToDate fl docs langs cfg
  unfolding should_skip_document_group
  should_skip_document_group-IsUpToDate fl docs langs cfg h = record {
    complete = ground arith;
    counted = ground arith;
    nonempty = ground arith;
    ready = has_ready_translations_for_languages-IsReady state langs (ground arith);
    unchanged = elim (Bool-cases (source_fingerprint_matches rt docs state)) [
      | inl e ↦ inl (source_fingerprint_matches-HasSameSource docs e)
      | inr e ↦ inr (fallback-HasSameContent docs (ground arith))
    ];
  }

  -- When a group of documents is skipped and ChunkDocuments returns chunks for it with the same
  -- settings, there are as many of them as the index holds.
  pub should_skip_document_group-chunks :
      {F F32 : Type 0} (fl : FloatOps F F32) (docs : List (Document S)) (langs supported : List Str)
      (cfg : ChunkConfig F) (chunks : List (Chunk S))
      → should_skip_document_group rt fl docs state langs cfg ≡ true
      → chunk_documents rt supported fl docs cfg ≡ ok chunks
      → length chunks ≡ state.indexed_chunk_count
  should_skip_document_group-chunks fl docs langs supported cfg chunks h k =
      chunk_documents-expected rt supported fl docs cfg chunks k
      ∙ sym (should_skip_document_group-IsUpToDate fl docs langs cfg h).counted
