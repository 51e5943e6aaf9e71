-- ===== src/Rag/IndexSkip/Complete.antt =====
-- backend/internal/rag/index_skip.go: the decision to skip a group, and its reasons.
use civika.Prelude.{
  ◌≡◌, ◌≢◌, ◌↔◌, refl, ap, true, false, some, List, [], ◌∷◌, All, ◌⊎◌, inl, inr, if◌then◌else◌,
  arith,
}
use civika.Text.{Str, eqb, Runtime, trim_space}
use civika.Text.Laws.{eqb_iff}
use civika.Float.{FloatOps}
use civika.Rag.Document.{Document, ChunkConfig}
use civika.Rag.IndexState.{
  IndexTranslationState, IndexDocumentState, status_ready, has_ready_translations_for_languages,
}
use civika.Rag.Fingerprint.{source_fingerprint_for_document, confidence_high, document_content_hash}
use civika.Rag.IndexSkip.{
  fingerprint_is, source_fingerprint_matches, content_hash_is, fallback_content_hashes_match,
  should_skip_document_group,
}
use civika.Rag.IndexSkip.Sound.{
  IsReady, HasSameSource, HasSameContent, IsUpToDate, should_skip_document_group-IsUpToDate,
}

eqb_of_ne : (s t : Str) → s ≢ t → eqb s t ≡ false
eqb_of_ne s t h = ground (arith, eqb_iff s t)

eqb_of_eq : (s t : Str) → s ≡ t → eqb s t ≡ true
eqb_of_eq s t h = (eqb_iff s t).1 h

module _ (state : IndexDocumentState) where
  ready_complete :
      (langs : List Str)
      → All (IsReady state) langs
      → has_ready_translations_for_languages state langs ≡ true
  unfolding has_ready_translations_for_languages
  ready_complete [] h = refl
  ready_complete (lang ∷ langs) ((t, found, same), h) =
      ground
        (arith, found, eqb_of_eq (trim_space t.status) status_ready same, ready_complete langs h)

  content_hash_is_complete :
      (hash : Str) (t : IndexTranslationState)
      → hash ≡ t.content_hash
      → hash ≢ []
      → trim_space t.content_hash ≢ []
      → content_hash_is hash (some t) ≡ true
  unfolding content_hash_is
  content_hash_is_complete hash t same some_hash stored = ground (
    arith,
    eqb_of_eq hash t.content_hash same,
    eqb_of_ne hash [] some_hash,
    eqb_of_ne (trim_space t.content_hash) [] stored,
  )

  fingerprint_is_complete :
      (fp : Str × Str)
      → fp ≡ (state.source_fingerprint, confidence_high)
      → fingerprint_is state fp ≡ true
  unfolding fingerprint_is
  fingerprint_is_complete (f, c) h = ground (
    arith,
    eqb_of_eq f state.source_fingerprint (ap (λ p. p.0) h),
    eqb_of_eq c confidence_high (ap (λ p. p.1) h),
  )

module _ {S : Type 0} (rt : Runtime) (state : IndexDocumentState) where
  source_fingerprint_matches_complete :
      (docs : List (Document S))
      → HasSameSource rt state docs
      → source_fingerprint_matches rt docs state ≡ true
  unfolding source_fingerprint_matches
  source_fingerprint_matches_complete docs (source, found, same, stored, high) =
      rw
        (
          eqb_of_ne (trim_space state.source_fingerprint) [] stored,
          eqb_of_eq (trim_space state.source_fingerprint_confidence) confidence_high high,
          found,
        )
        (fingerprint_is_complete state (source_fingerprint_for_document rt source) same)

  fallback_complete :
      (docs : List (Document S))
      → All (HasSameContent rt state) docs
      → fallback_content_hashes_match rt docs state ≡ true
  unfolding fallback_content_hashes_match
  fallback_complete [] h = refl
  fallback_complete (doc ∷ docs) ((t, found, same, some_hash, stored), h) =
      rw
        (
          found,
          content_hash_is_complete state (document_content_hash rt doc) t same some_hash stored,
        )
        (fallback_complete docs h)

  unchanged_complete :
      (docs : List (Document S))
      → HasSameSource rt state docs ⊎ All (HasSameContent rt state) docs
      → (if source_fingerprint_matches rt docs state
          then true
          else fallback_content_hashes_match rt docs state)
        ≡ true
  unchanged_complete docs (inl same) = rw (source_fingerprint_matches_complete docs same) refl
  unchanged_complete docs (inr same) = ground (arith, fallback_complete docs same)

  -- A group of documents is skipped exactly if its index is complete, has as many chunks as are
  -- expected of the documents and at least one, has a ready translation for each required language,
  -- and one of two holds: the group's source has a fingerprint of high confidence that is the stored
  -- one, which is not blank and is stored with high confidence, or each document has a content hash
  -- that is not empty and is the one stored for its language, which is not blank.
  pub should_skip_document_group_iff :
      {F F32 : Type 0} (fl : FloatOps F F32) (docs : List (Document S)) (langs : List Str)
      (cfg : ChunkConfig F)
      → (should_skip_document_group rt fl docs state langs cfg ≡ true)
        ↔ IsUpToDate rt state fl docs langs cfg
  unfolding should_skip_document_group
  should_skip_document_group_iff fl docs langs cfg = (
    should_skip_document_group-IsUpToDate rt state fl docs langs cfg,
    λ u. ground (
      arith,
      u.complete,
      u.counted,
      u.nonempty,
      ready_complete state langs u.ready,
      unchanged_complete docs u.unchanged,
    ),
  )
