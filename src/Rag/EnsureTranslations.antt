-- ===== src/Rag/EnsureTranslations.antt =====
-- backend/internal/rag/translate.go: EnsureMissingTranslations, over any translator. `W` is the state of
-- the translator, which the clock reads too. The keys of a map are visited in the order of its list.
pub mod Groups
pub mod Labels
pub mod Pairs
pub mod Inputs
pub mod Steps
pub mod Complete
pub mod Ready
pub mod Sources
pub mod Reuse
pub mod AtHand
use civika.Prelude.{
  ℕ, Bool, true, false, not, ◌||◌, Option, none, some, List, [], ◌∷◌, ◌++◌, length, ◌==◌,
  if◌then◌else◌,
}
use civika.Prelude.Result.{Result, ok, err}
use civika.Prelude.StateResult.{and_then, wrap_error}
use civika.Text.{Str, codes, eqb, Runtime, trim_space}
use civika.GoMap.{Map, lookup, insert}
use civika.Langs.{normalize, normalize_or_fallback}
use civika.Rag.Metadata.{MetaMap, scalar, put, sanitize_metadata_map}
use civika.Rag.Document.{Document}
use civika.Rag.Chunk.{normalize_language}
use civika.Rag.Fingerprint.{
  normalize_whitespace, build_translation_source_hash, with_index_metadata,
}
use civika.Rag.IndexState.{
  IndexTranslationState, IndexDocumentState, status_ready, pick_source_document,
}
use civika.Rag.IndexSkip.{group_documents}
use civika.Rag.Usage.{UsageScope, with_usage_document_id}
use civika.Rag.Translator.{TranslationRequest, Translator}

pub data TranslationError (E : Type 0) : Type 0 where
  target_invalid : TranslationError E
  translator_error : E → TranslationError E

pub data EnsureError (E : Type 0) : Type 0 where
  languages_required translator_required : EnsureError E
  no_source : Str → EnsureError E
  translate_failed : Str → Str → TranslationError E → EnsureError E

-- `normalizeNonEmpty` of store.go.
unfoldable pub normalize_non_empty : Str → Str → Str
unfolding trim_space
normalize_non_empty value fallback = if eqb (trim_space value) [] then fallback else value

-- `buildTranslationID` of ingest.go; `package_langs` is the package's list of supported languages.
unfoldable pub build_translation_id : Runtime → List Str → Str → Str → Str
unfolding normalize_language
build_translation_id rt package_langs document_id lang =
    let l = normalize_language rt package_langs lang in
    document_id ++ (codes ":" ++ (if eqb l [] then codes "fr" else l))

-- `options.ExistingByDocument[id].Translations[lang]`
unfoldable pub existing_translation :
    Map IndexDocumentState → Str → Str → Option IndexTranslationState
existing_translation existing doc_id lang = elim (lookup doc_id existing) [
  | none ↦ none
  | some state ↦ lookup lang state.translations
]

module _ {S : Type 0} (rt : Runtime) (text : Str → S) (package_langs : List Str) where
  -- The five keys of a translation's origin.
  unfoldable pub put_translation : Str → Str → Str → Str → MetaMap S → MetaMap S
  unfolding put
  put_translation provider source_lang source_hash updated_at m =
      put (codes "translation_updated_at") (scalar (text updated_at)) (
        put (codes "translation_source_hash") (scalar (text source_hash)) (
          put (codes "translation_source_lang") (scalar (text source_lang)) (
            put (codes "translation_provider") (scalar (text provider))
              (put (codes "translation_status") (scalar (text status_ready)) m))))

  -- `doc` under its language, which is resolved to a supported one.
  unfoldable pub with_language : List Str → Str → Document S → Document S
  unfolding normalize_or_fallback build_translation_id
  with_language supported default_lang doc =
      let language = normalize_or_fallback rt doc.language default_lang supported in
      record doc {
        language = language;
        translation_id = build_translation_id rt package_langs doc.id language;
      }

  unfoldable pub by_language :
      List Str → Str → Map (Document S) → List (Document S) → Map (Document S)
  unfolding with_language
  by_language supported default_lang by_lang [] = by_lang
  by_language supported default_lang by_lang (doc ∷ docs) =
      let labelled = with_language supported default_lang doc in
      by_language supported default_lang (insert labelled.language labelled by_lang) docs

  -- The document of a language that the group has.
  unfoldable pub source_translation : ℕ → Document S → Document S
  unfolding put_translation build_translation_source_hash sanitize_metadata_map with_index_metadata
  source_translation now existing = with_index_metadata rt text (record existing {
    metadata = sanitize_metadata_map rt (
        put_translation (codes "source") existing.language
          (build_translation_source_hash rt existing.language existing.title existing.content)
          (rt.format_utc now) existing.metadata);
  })

  -- The guards of `reuseExistingReadyTranslation` on the state that the index has.
  unfoldable pub is_reusable : Str → IndexTranslationState → Bool
  unfolding trim_space
  is_reusable source_hash existing =
      if not (eqb existing.status status_ready)
      then false
      else if eqb (trim_space existing.content) []
      then false
      else if eqb (trim_space existing.source_hash) [] || not (eqb existing.source_hash source_hash)
      then false
      else true

  unfoldable pub reused : ℕ → Document S → Str → Str → IndexTranslationState → Document S
  unfolding normalize_non_empty put_translation put sanitize_metadata_map build_translation_id
      normalize_whitespace with_index_metadata
  reused now source target_lang source_hash existing = with_index_metadata rt text (record source {
    translation_id = build_translation_id rt package_langs source.id target_lang;
    language = target_lang;
    title = normalize_non_empty existing.title source.title;
    content = normalize_whitespace existing.content;
    metadata = sanitize_metadata_map rt (
        put_translation (normalize_non_empty existing.provider (codes "existing_db"))
          source.language source_hash (rt.format_utc now)
          (put (codes "display_title")
            (scalar (text (normalize_non_empty existing.title source.title))) source.metadata));
  })

  -- The reuse of the state that the index has for a language, if it has one.
  unfoldable pub reuse_state :
      ℕ → Document S → Str → Str → Option IndexTranslationState → Option (Document S)
  unfolding is_reusable reused
  reuse_state now source target_lang source_hash none = none
  reuse_state now source target_lang source_hash (some state) =
      if is_reusable source_hash state
      then some (reused now source target_lang source_hash state)
      else none

  unfoldable pub reuse_existing_ready_translation :
      ℕ → Document S → Str → Map IndexDocumentState → Str → Option (Document S)
  unfolding normalize existing_translation reuse_state
  reuse_existing_ready_translation now source lang existing source_hash =
      let target_lang = normalize rt lang in
      if eqb target_lang []
      then none
      else reuse_state now source target_lang source_hash
          (existing_translation existing source.id target_lang)

  module _ {W E : Type 0} (clock : W → ℕ) (translator : Translator W E) (scope : UsageScope) where
    -- The document that `translateDocument` makes of the translated title and content.
    unfoldable pub translated : Document S → Str → Str → Str → Str → W → Document S
    unfolding put_translation put build_translation_source_hash sanitize_metadata_map
        build_translation_id normalize_whitespace with_index_metadata
    translated source source_lang target_lang title content w =
        with_index_metadata rt text (record source {
          translation_id = build_translation_id rt package_langs source.id target_lang;
          language = target_lang;
          title = title;
          content = normalize_whitespace content;
          metadata = sanitize_metadata_map rt (
              put_translation translator.name source_lang
                (build_translation_source_hash rt source_lang source.title source.content)
                (rt.format_utc (clock w))
                (put (codes "display_title") (scalar (text title)) source.metadata));
        })

    -- One call of the translator for a document.
    abbrev pub translate_part :
        Document S → Str → Str → Str → Str → W → W × Result (TranslationError E) Str
    translate_part source source_lang target_lang label part w = wrap_error translator_error (
        translator.translate (with_usage_document_id source.id scope)
          (record {
            text = part;
            source_lang = source_lang;
            target_lang = target_lang;
            content_label = label;
          })
          w)

    unfoldable pub translate_document :
        Document S → Str → W → W × Result (TranslationError E) (Document S)
    unfolding normalize translated
    translate_document source lang w =
        let target_lang = normalize rt lang in
        let source_lang =
          if eqb (normalize rt source.language) []
          then codes "en"
          else normalize rt source.language in
        if eqb target_lang []
        then (w, err target_invalid)
        else and_then (translate_part source source_lang target_lang (codes "title") source.title w)
            (λ title w1.
              and_then
                (translate_part source source_lang target_lang (codes "document content")
                  source.content w1)
                (λ content w2.
                  (w2, ok (translated source source_lang target_lang title content w2))))

    module _ (existing : Map IndexDocumentState) (supported : List Str) where
      -- The document of one language: the group's, the index's or a new translation.
      unfoldable pub ensured :
          Map (Document S) → Document S → Str → W → W × Result (EnsureError E) (Document S)
      unfolding source_translation reuse_existing_ready_translation translate_document
          with_index_metadata build_translation_source_hash
      ensured by_lang source lang w = elim (lookup lang by_lang) [
        | some doc ↦ (w, ok (source_translation (clock w) doc))
        | none ↦
            elim (reuse_existing_ready_translation (clock w) source lang existing
              (build_translation_source_hash rt source.language source.title source.content)) [
                | some doc ↦ (w, ok doc)
                | none ↦ wrap_error (translate_failed source.id lang) (
                    and_then (translate_document source lang w)
                      (λ doc v. (v, ok (with_index_metadata rt text doc))))
              ]
      ]

      unfoldable pub ensure_languages :
          Map (Document S)
          → Document S
          → List Str
          → List (Document S)
          → W
          → W × Result (EnsureError E) (List (Document S))
      unfolding ensured
      ensure_languages by_lang source [] out w = (w, ok out)
      ensure_languages by_lang source (lang ∷ langs) out w =
          and_then (ensured by_lang source lang w)
            (λ doc v. ensure_languages by_lang source langs (out ++ doc ∷ []) v)

      unfoldable pub ensure_group :
          Str
          → Str
          → List (Document S)
          → List (Document S)
          → W
          → W × Result (EnsureError E) (List (Document S))
      unfolding by_language pick_source_document with_index_metadata ensure_languages
      ensure_group default_lang doc_id docs out w =
          let by_lang = by_language supported default_lang [] docs in
          elim (pick_source_document by_lang supported) [
            | none ↦ (w, err (no_source doc_id))
            | some source ↦
                ensure_languages by_lang (with_index_metadata rt text source) supported out w
          ]

      unfoldable pub ensure_groups :
          Str
          → Map (List (Document S))
          → List (Document S)
          → W
          → W × Result (EnsureError E) (List (Document S))
      unfolding ensure_group
      ensure_groups default_lang [] out w = (w, ok out)
      ensure_groups default_lang ((doc_id, docs) ∷ groups) out w =
          and_then (ensure_group default_lang doc_id docs out w)
            (λ documents v. ensure_groups default_lang groups documents v)

  -- `EnsureMissingTranslationsWithOptions`; a nil translator is `none`.
  unfoldable pub ensure_missing_translations :
      {W E : Type 0}
      → (W → ℕ)
      → UsageScope
      → Map IndexDocumentState
      → List Str
      → Option (Translator W E)
      → List (Document S)
      → Str
      → W
      → W × Result (EnsureError E) (List (Document S))
  unfolding normalize_or_fallback group_documents ensure_groups
  ensure_missing_translations clock scope existing supported maybe_translator documents default_lang
        w =
      if length documents == 0
      then (w, ok [])
      else if length supported == 0
      then (w, err languages_required)
      else elim maybe_translator [
        | none ↦ (w, err translator_required)
        | some translator ↦
            ensure_groups clock translator scope existing supported
              (normalize_or_fallback rt default_lang (codes "fr") supported)
              (group_documents [] documents) [] w
      ]
