-- ===== src/Rag/EnsureTranslations/Labels.antt =====
-- backend/internal/rag/translate.go: the documents that are reused from the index or translated.
use civika.Prelude.{
  ℕ, ◌≡◌, ◌≢◌, refl, subst, Option, none, some, List, [], ◌∷◌, ◌++◌, map, In, Bool-cases, inl, inr,
  if◌then◌else◌,
}
use civika.Prelude.Result.{err}
use civika.Prelude.StateResult.{Ends, and_then-Ends, wrap_error-Ends, Ends-known}
use civika.Text.{Str, eqb, codes, Runtime}
use civika.Text.Laws.{eqb_empty}
use civika.GoMap.{Map}
use civika.Langs.{normalize}
use civika.Rag.Document.{Document}
use civika.Rag.Fingerprint.{with_index_metadata}
use civika.Rag.IndexState.{IndexTranslationState, IndexDocumentState}
use civika.Rag.Usage.{UsageScope, with_usage_document_id}
use civika.Rag.Translator.{TranslationRequest, Translator}
use civika.Rag.EnsureTranslations.{
  TranslationError, translator_error, EnsureError, translate_failed, is_reusable, reused,
  reuse_state, existing_translation, reuse_existing_ready_translation, translated, translate_part,
  translate_document,
}

-- The identifier and the language of a document.
abbrev pub label : {S : Type 0} → Document S → Str × Str
label doc = (doc.id, doc.language)

-- Each identifier with each language, in order.
abbrev pub pairs : List Str → List Str → List (Str × Str)
pairs [] langs = []
pairs (k ∷ ks) langs = map (λ lang. (k, lang)) langs ++ pairs ks langs

-- Codes that normalize keeps.
abbrev pub IsCode : Runtime → Str → Type 0
IsCode rt lang = (lang ≢ []) × (normalize rt lang ≡ lang)

-- What the translator returned for a request in a language, with the scope of a document.
abbrev pub IsRefusal : {W E : Type 0} → Translator W E → UsageScope → Str → Str → W → E → Type 0
IsRefusal {W} translator scope doc_id lang v e =
    (request : TranslationRequest) × (u : W) × (request.target_lang ≡ lang)
    × (translator.translate (with_usage_document_id doc_id scope) request u ≡ (v, err e))

-- An error that the translator returned, wrapped with the document and the language of its request.
abbrev pub IsTranslatorError :
    {W E : Type 0} → Translator W E → UsageScope → List Str → List Str → W → EnsureError E → Type 0
IsTranslatorError {W} {E} translator scope ids langs v x =
    (doc_id : Str) × (lang : Str) × (e : E) × In doc_id ids
    × In lang langs
    × IsRefusal translator scope doc_id lang v e
    × (x ≡ translate_failed doc_id lang (translator_error e))

-- A state of I, and an error that the translator returned.
abbrev pub FromTranslator :
    {W E : Type 0}
    → Translator W E
    → UsageScope
    → (W → Type 0)
    → Str
    → Str
    → W
    → TranslationError E
    → Type 0
FromTranslator {W} {E} translator scope I doc_id lang v x =
    I v × ((e : E) × IsRefusal translator scope doc_id lang v e × (x ≡ translator_error e))

module _ {S : Type 0} (rt : Runtime) (text : Str → S) (package_langs : List Str) where
  reuse_state-label :
      (now : ℕ) (source doc : Document S) (lang source_hash : Str)
      (state : Option IndexTranslationState)
      → reuse_state rt text package_langs now source lang source_hash state ≡ some doc
      → label doc ≡ (source.id, lang)
  unfolding reuse_state reused with_index_metadata
  reuse_state-label now source doc lang source_hash none h = absurd cc
  reuse_state-label now source doc lang source_hash (some state) h =
      elim (Bool-cases (is_reusable rt text package_langs source_hash state)) [
        | inl r ↦
            let i : some (reused rt text package_langs now source lang source_hash state)
                ≡ some doc =
              rw (reuse_state, r) at h in
            subst (λ d. label d ≡ (source.id, lang))
              (let j : reused rt text package_langs now source lang source_hash state ≡ doc = cc in
                j)
              refl
        | inr r ↦ absurd (let i : none ≡ some doc = rw (reuse_state, r) at h in cc)
      ]

  pub reuse_label :
      (now : ℕ) (source doc : Document S) (lang source_hash : Str)
      (existing : Map IndexDocumentState)
      → IsCode rt lang
      → reuse_existing_ready_translation rt text package_langs now source lang existing source_hash
        ≡ some doc
      → label doc ≡ (source.id, lang)
  unfolding reuse_existing_ready_translation
  reuse_label now source doc lang source_hash existing (filled, kept) h =
      reuse_state-label now source doc lang source_hash
        (existing_translation existing source.id lang)
        (rw (reuse_existing_ready_translation, kept, eqb_empty lang filled) at h)

module _ {S W E : Type 0} (rt : Runtime) (text : Str → S) (package_langs : List Str) (clock : W → ℕ)
    (translator : Translator W E) (scope : UsageScope) (I : W → Type 0)
    (keeps : (s : UsageScope) (request : TranslationRequest) (w : W)
      → I w
      → I (translator.translate s request w).0) where
  translate_part-Ends :
      (source : Document S) (source_lang target_lang part_label part : Str) (w : W)
      → I w
      → Ends
          (λ v a. I v)
          (FromTranslator translator scope I source.id target_lang)
          (translate_part rt text package_langs clock translator scope source source_lang
            target_lang part_label part w)
  translate_part-Ends source source_lang target_lang part_label part w i =
      let request : TranslationRequest = record {
        text = part;
        source_lang = source_lang;
        target_lang = target_lang;
        content_label = part_label;
      } in
      let s = with_usage_document_id source.id scope in
      let run = translator.translate s request w in
      wrap_error-Ends (λ v a. I v) (λ v x. I v × (run ≡ (v, err x)))
        (FromTranslator translator scope I source.id target_lang) translator_error run
        (Ends-known I run (keeps s request w i))
        (λ e v (j, same). (j, (e, (request, w, refl, same), refl)))

  pub translate_document-Ends :
      (source : Document S) (lang : Str) (w : W)
      → I w
      → IsCode rt lang
      → Ends
          (λ v a. I v × (label a ≡ (source.id, lang)))
          (FromTranslator translator scope I source.id lang)
          (translate_document rt text package_langs clock translator scope source lang w)
  unfolding translate_document translated with_index_metadata
  translate_document-Ends source lang w i (filled, kept) =
      let source_lang =
        if eqb (normalize rt source.language) []
        then codes "en"
        else normalize rt source.language in
      rw (translate_document, kept, eqb_empty lang filled)
        (and_then-Ends (λ v a. I v) (λ v a. I v × (label a ≡ (source.id, lang)))
          (FromTranslator translator scope I source.id lang) _ _
          (translate_part-Ends source source_lang lang (codes "title") source.title w i)
          (λ title v j.
            and_then-Ends (λ u a. I u) (λ u a. I u × (label a ≡ (source.id, lang)))
              (FromTranslator translator scope I source.id lang) _ _
              (translate_part-Ends source source_lang lang (codes "document content") source.content
                v j)
              (λ content u k. (k, refl))))
