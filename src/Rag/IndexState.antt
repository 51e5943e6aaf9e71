-- ===== src/Rag/IndexState.antt =====
-- backend/internal/rag/index_skip.go and translate.go: the state of an indexed document, and the choice of
-- the source among the documents of a group.
use civika.Prelude.{
  ℕ, Bool, true, false, not, ◌&&◌, ◌||◌, Option, none, some, List, [], ◌∷◌, ◌++◌, length, ltb, ◌==◌,
  if◌then◌else◌,
}
use civika.Prelude.Sort.{sort_slice}
use civika.Text.{Str, codes, eqb, trim_space, str_lt}
use civika.GoMap.{Map, lookup, insert}
use civika.Langs.{contains}
use civika.Rag.Document.{Document}

pub record IndexTranslationState : Type 0 where
  pub translation_id : Str
  pub lang : Str
  pub title : Str
  pub content : Str
  pub status : Str
  pub provider : Str
  pub source_hash : Str
  pub content_hash : Str

pub record IndexDocumentState : Type 0 where
  pub document_id : Str
  pub source_fingerprint : Str
  pub source_fingerprint_confidence : Str
  pub index_complete : Bool
  pub indexed_chunk_count : ℕ
  pub translations : Map IndexTranslationState

pub record IndexSkipReport : Type 0 where
  pub grouped_documents : ℕ
  pub skipped_documents : ℕ
  pub processed_docs : ℕ

-- `TranslationStatusReady`
abbrev pub status_ready : Str
status_ready = codes "ready"

unfoldable pub has_ready_translations_for_languages : IndexDocumentState → List Str → Bool
unfolding trim_space
has_ready_translations_for_languages state [] = true
has_ready_translations_for_languages state (lang ∷ langs) = elim (lookup lang state.translations) [
  | none ↦ false
  | some translation ↦
      if not (eqb (trim_space translation.status) status_ready)
      then false
      else has_ready_translations_for_languages state langs
]

-- The languages of the documents, in the order in which they come first.
unfoldable pub langs_in_docs : {S : Type 0} → List Str → List (Document S) → List Str
unfolding contains trim_space
langs_in_docs seen [] = seen
langs_in_docs seen (doc ∷ docs) =
    let lang = trim_space doc.language in
    langs_in_docs (if eqb lang [] || contains seen lang then seen else seen ++ lang ∷ []) docs

unfoldable pub required_languages_for_group :
    {S : Type 0} → List (Document S) → List Str → Str → List Str
unfolding langs_in_docs sort_slice str_lt
required_languages_for_group docs supported mode =
    if eqb mode (codes "llm") && ltb 0 (length supported)
    then supported
    else sort_slice str_lt (langs_in_docs [] docs)

-- The loop of `pickSourceDocument` over the preferred languages. Its set `seen` only spares lookups.
unfoldable pub first_preferred : {S : Type 0} → Map (Document S) → List Str → Option (Document S)
first_preferred by_lang [] = none
first_preferred by_lang (lang ∷ preferred) = elim (lookup lang by_lang) [
  | none ↦ first_preferred by_lang preferred
  | some doc ↦ some doc
]

-- `pickSourceDocument` of translate.go.
unfoldable pub pick_source_document :
    {S : Type 0} → Map (Document S) → List Str → Option (Document S)
unfolding first_preferred
pick_source_document by_lang supported =
    elim (first_preferred by_lang
      (codes "en" ∷ codes "fr" ∷ codes "de" ∷ codes "it" ∷ codes "rm" ∷ supported)) [
        | some doc ↦ some doc
        | none ↦ elim by_lang [ [] ↦ none | e ∷ rest ↦ some e.1 ]
      ]

-- The documents by their languages; a later document takes the place of an earlier one.
unfoldable pub docs_by_lang : {S : Type 0} → Map (Document S) → List (Document S) → Map (Document S)
unfolding trim_space
docs_by_lang by_lang [] = by_lang
docs_by_lang by_lang (doc ∷ docs) =
    let lang = trim_space doc.language in
    docs_by_lang (if eqb lang [] then by_lang else insert lang doc by_lang) docs

unfoldable pub pick_source_from_docs : {S : Type 0} → List (Document S) → Option (Document S)
unfolding docs_by_lang langs_in_docs pick_source_document
pick_source_from_docs [] = none
pick_source_from_docs (doc ∷ docs) =
    let by_lang = docs_by_lang [] (doc ∷ docs) in
    if length by_lang == 0
    then some doc
    else elim (pick_source_document by_lang (langs_in_docs [] (doc ∷ docs))) [
      | some source ↦ some source
      | none ↦ some doc
    ]
