-- ===== src/Rag/EnsureTests.antt =====
-- The theorems on the missing translations at concrete inputs.
use civika.Prelude.{
  ℕ, suc, ◌≡◌, ◌≢◌, refl, some, List, [], ◌∷◌, map, All, inl, inr, true, false, ◌↔◌, AreDistinct,
}
use civika.Prelude.Result.{Result, ok, err}
use civika.Text.{Str, codes, eqb, trim_space}
use civika.Text.Laws.{eqb_iff}
use civika.GoMap.{Map, lookup, insert}
use civika.Langs.{normalize, normalize_or_fallback}
use civika.Rag.Document.{Document}
use civika.Rag.IndexSkip.{group_documents}
use civika.Rag.Translator.{Translator, TranslateError, disabled, disabled_translator}
use civika.Rag.LlmTranslator.{llm_translator}
use civika.Rag.EnsureTranslations.{
  EnsureError, translate_failed, translator_error, ensure_missing_translations,
}
use civika.Rag.EnsureTranslations.Labels.{label, IsCode, IsTranslatorError}
use civika.Rag.EnsureTranslations.Complete.{
  ensure_missing_translations-pairs, ensure_missing_translations-error, IsMatched,
  ensure_missing_translations-IsMatched, ArePairs,
}
use civika.Rag.EnsureTranslations.AtHand.{AreAtHand, ensure_missing_translations_idle}
use civika.Rag.IndexState.{IndexTranslationState, IndexDocumentState}
use civika.Rag.Fingerprint.{build_translation_source_hash}
use civika.Samples.{plain_runtime, whole, document_of}
use civika.Rag.LlmSamples.{plain_json, patient_net, config, scope, quiet}

-- A translator that counts its calls and returns the text.
abbrev echo : Translator ℕ TranslateError
echo = record { name = codes "echo"; translate = λ s r w. (suc w, ok r.text) }

abbrev documents : List (Document Str)
documents =
    document_of (codes "d1") (codes "eins zwei") ∷ document_of (codes "d2") (codes "drei") ∷ []

abbrev two_languages : List Str
two_languages = codes "de" ∷ codes "fr" ∷ []

two_codes : All (IsCode plain_runtime) two_languages
unfolding normalize eqb trim_space
two_codes = (((λ e. cc), refl), (((λ e. cc), refl), tt))

some_languages : two_languages ≢ []
some_languages e = cc

abbrev documents_or_none :
    ℕ × Result (EnsureError TranslateError) (List (Document Str)) → List (Document Str)
documents_or_none (w, ok out) = out
documents_or_none (w, err e) = []

abbrev ensure_with :
    Translator ℕ TranslateError → ℕ × Result (EnsureError TranslateError) (List (Document Str))
ensure_with translator =
    ensure_missing_translations plain_runtime (λ s. s) two_languages (λ w. w) scope [] two_languages
      (some translator) documents (codes "de") 0

all_ensured : ensure_with echo ≡ (4, ok (documents_or_none (ensure_with echo)))
unfolding ensure_missing_translations normalize eqb trim_space lookup group_documents insert
all_ensured = refl

distinct_languages : AreDistinct two_languages
unfolding eqb
distinct_languages = (
  λ i. elim i [
    | inl e ↦ let h : false ≡ true = (eqb_iff (codes "de") (codes "fr")).1 e in absurd cc
    | inr j ↦ j
  ],
  ((λ i. i), tt),
)

ensure_missing_translations-pairs_example :
    ArePairs plain_runtime two_languages
      (normalize_or_fallback plain_runtime (codes "de") (codes "fr") two_languages)
      documents
      (documents_or_none (ensure_with echo))
ensure_missing_translations-pairs_example =
    ensure_missing_translations-pairs plain_runtime (λ s. s) two_languages (λ w. w) echo scope []
      two_languages documents (codes "de") 0 4 (documents_or_none (ensure_with echo)) two_codes
      some_languages distinct_languages all_ensured

all_refused :
    ensure_with disabled_translator
    ≡ (0, err (translate_failed (codes "d1") (codes "fr") (translator_error disabled)))
unfolding ensure_missing_translations normalize eqb trim_space lookup group_documents insert
all_refused = refl

ensure_missing_translations-error_example :
    IsTranslatorError {W = ℕ} disabled_translator scope
      (codes "d1" ∷ codes "d2" ∷ [])
      two_languages
      0
      (translate_failed (codes "d1") (codes "fr") (translator_error disabled))
ensure_missing_translations-error_example =
    ensure_missing_translations-error plain_runtime (λ s. s) two_languages (λ w. w)
      disabled_translator scope [] two_languages documents (codes "de") 0 0
      (translate_failed (codes "d1") (codes "fr") (translator_error disabled)) two_codes
      some_languages all_refused

ensure_missing_translations-IsMatched_example :
    IsMatched quiet
      (ensure_missing_translations plain_runtime
        (λ s. s)
        two_languages
        (λ w. 7)
        scope
        []
        two_languages
        (some (llm_translator plain_runtime whole plain_json config patient_net))
        documents
        (codes "de")
        quiet).0
ensure_missing_translations-IsMatched_example =
    ensure_missing_translations-IsMatched plain_runtime whole plain_json config patient_net (λ s. s)
      two_languages (λ w. 7) scope [] two_languages documents (codes "de") 2 quiet refl refl
      two_codes some_languages

abbrev one_document : List (Document Str)
one_document = document_of (codes "d1") (codes "eins zwei") ∷ []

-- The index has the French translation of the document.
abbrev ready : IndexTranslationState
ready = record {
  translation_id = codes "d1:fr";
  lang = codes "fr";
  title = codes "titre";
  content = codes "un deux";
  status = codes "ready";
  provider = [];
  source_hash =
      build_translation_source_hash plain_runtime (codes "de") (codes "t") (codes "eins zwei");
  content_hash = [];
}

abbrev existing : Map IndexDocumentState
existing =
    (
      codes "d1",
      record {
        document_id = codes "d1";
        source_fingerprint = [];
        source_fingerprint_confidence = [];
        index_complete = true;
        indexed_chunk_count = 1;
        translations = (codes "fr", ready) ∷ [];
      },
    )
    ∷ []

ensure_missing_translations_idle_example :
    AreAtHand plain_runtime existing two_languages
      (normalize_or_fallback plain_runtime (codes "de") (codes "fr") two_languages)
      one_document
    ↔ ((out : List (Document Str)) × (ensure_missing_translations plain_runtime
            (λ s. s)
            two_languages
            (λ (w : ℕ). w)
            scope
            existing
            two_languages
            (some disabled_translator)
            one_document
            (codes "de")
            0
          ≡ (0, ok out)))
ensure_missing_translations_idle_example =
    ensure_missing_translations_idle plain_runtime (λ s. s) two_languages (λ w. w)
      disabled_translator scope existing two_languages one_document (codes "de") 0 (λ s r u. tt)
      two_codes some_languages

-- The index is used: the translator would fail.
reused_from_index :
    map label (
      documents_or_none (
        ensure_missing_translations plain_runtime
          (λ s. s)
          two_languages
          (λ w. w)
          scope
          existing
          two_languages
          (some disabled_translator)
          one_document
          (codes "de")
          0))
    ≡ (codes "d1", codes "de") ∷ (codes "d1", codes "fr") ∷ []
unfolding ensure_missing_translations normalize eqb trim_space lookup group_documents insert
reused_from_index = refl
