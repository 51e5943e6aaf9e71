-- ===== src/Rag/EnsureTranslations/Steps.antt =====
-- backend/internal/rag/translate.go: how each loop of EnsureMissingTranslations ends.
use civika.Prelude.{
  ℕ, ◌≡◌, refl, sym, subst, ap, ◌∙◌, none, some, List, [], ◌∷◌, ◌++◌, map, append_assoc, append-nil,
  All, All-append, In, Option-cases, inl, inr,
}
use civika.Prelude.StateResult.{Ends, and_then-Ends, wrap_error-Ends}
use civika.Text.{Str, Runtime}
use civika.GoMap.{Map, lookup, keys}
use civika.Rag.Document.{Document}
use civika.Rag.Fingerprint.{with_index_metadata, build_translation_source_hash}
use civika.Rag.IndexState.{IndexDocumentState, pick_source_document}
use civika.Rag.Usage.{UsageScope}
use civika.Rag.Translator.{TranslationRequest, Translator}
use civika.Rag.EnsureTranslations.{
  EnsureError, translate_failed, by_language, source_translation, with_language,
  reuse_existing_ready_translation, ensured, ensure_languages, ensure_group, ensure_groups,
}
use civika.Rag.EnsureTranslations.Inputs.{
  last_of, IsGroupOf, IsGroupOf-All, IsGroupOf-In, IsKept, IsKept-at, IsView, by_language-IsView,
}
use civika.Rag.EnsureTranslations.Groups.{
  IsByLanguage, pick_source_document_id, by_language-IsByLanguage, by_language_filled,
}
use civika.Rag.EnsureTranslations.Labels.{
  label, pairs, IsCode, IsTranslatorError, FromTranslator, reuse_label, translate_document-Ends,
}

map_append : {A B : Type 0} (f : A → B) (xs ys : List A) → map f (xs ++ ys) ≡ map f xs ++ map f ys
map_append f [] ys = refl
map_append f (x ∷ xs) ys = ap (λ l. f x ∷ l) (map_append f xs ys)

pub no_entry : {V : Type 0} (k : Str) (v : V) → lookup k [] ≡ some v → ⊥
unfolding lookup
no_entry k v e = cc

pub some_eq : {A : Type 0} {a b : A} → some a ≡ some b → a ≡ b
some_eq h = cc

pub none-some : {A : Type 0} {a : A} → none ≡ some a → ⊥
none-some h = cc

module _ {S W E : Type 0} (rt : Runtime) (text : Str → S) (package_langs : List Str) (clock : W → ℕ)
    (translator : Translator W E) (scope : UsageScope) (I : W → Type 0)
    (keeps : (s : UsageScope) (request : TranslationRequest) (w : W)
      → I w
      → I (translator.translate s request w).0)
    (existing : Map IndexDocumentState) (supported : List Str) (default_lang : Str)
    (documents : List (Document S)) where
  abbrev pub FromEnsure : W → EnsureError E → Type 0
  FromEnsure v x =
      I v × IsTranslatorError translator scope (map (λ d. d.id) documents) supported v x

  -- A document for an identifier and a language.
  abbrev IsFor : Str → Str → W → Document S → Type 0
  IsFor id lang v a = I v × (label a ≡ (id, lang)) × IsKept rt supported default_lang documents a

  -- Documents with these labels.
  abbrev pub AreFor : List (Str × Str) → W → List (Document S) → Type 0
  AreFor labels v docs =
      I v × (map label docs ≡ labels) × All (IsKept rt supported default_lang documents) docs

  abbrev IsListed : Str → Type 0
  IsListed lang = IsCode rt lang × In lang supported

  ensured-Ends :
      (by_lang : Map (Document S)) (source : Document S) (lang : Str) (w : W)
      → I w
      → IsListed lang
      → In source.id (map (λ d. d.id) documents)
      → IsByLanguage source.id by_lang
      → IsView rt supported default_lang documents text package_langs source.id by_lang
      → Ends (IsFor source.id lang) FromEnsure (
          ensured rt text package_langs clock translator scope existing supported by_lang source
            lang w)
  unfolding ensured source_translation with_index_metadata with_language
  ensured-Ends by_lang source lang w i (c, listed) there h view =
      let source_hash =
        build_translation_source_hash rt source.language source.title source.content in
      elim (Option-cases (last_of rt supported default_lang documents source.id lang)) [
        | inr (d, n) ↦
            let doc = with_language rt text package_langs supported default_lang d in
            let m : lookup lang by_lang ≡ some doc = view lang ∙ rw n refl in
            let (a, b) = h lang doc m in
            let q : label doc ≡ (source.id, lang) = rw (a, b) refl in
            rw (ensured, m)
              (
                i,
                q,
                IsKept-at rt supported default_lang documents
                    (source_translation rt text package_langs (clock w) doc) source.id lang q
                    (λ found e.
                      let same : d ≡ found = some_eq (sym n ∙ e) in
                      (
                        ap (λ (x : Document S). x.title) same,
                        ap (λ (x : Document S). x.content) same,
                      )),
              )
        | inl n ↦
            let m : lookup lang by_lang ≡ none = view lang ∙ rw n refl in
            let new : (a : Document S)
                → label a ≡ (source.id, lang)
                → IsKept rt supported default_lang documents a =
              λ a q.
                IsKept-at rt supported default_lang documents a source.id lang q
                  (λ found e. absurd (none-some (sym n ∙ e))) in
            elim (Option-cases (
              reuse_existing_ready_translation rt text package_langs (clock w) source lang existing
                source_hash)) [
                  | inr (doc, r) ↦
                      let q =
                        reuse_label rt text package_langs (clock w) source doc lang source_hash
                          existing c r in
                      rw (ensured, m, r) (i, q, new doc q)
                  | inl r ↦
                      let P = IsFor source.id lang in
                      let Q = FromTranslator translator scope I source.id lang in
                      rw (ensured, m, r)
                        (wrap_error-Ends P Q FromEnsure (translate_failed source.id lang) _
                          (and_then-Ends (λ v a. I v × (label a ≡ (source.id, lang))) P Q _ _
                            (translate_document-Ends rt text package_langs clock translator scope I
                              keeps source lang w i c)
                            (λ doc v (j, q). (j, q, new (with_index_metadata rt text doc) q)))
                          (λ x v (j, (e, refused, q)). (
                            j,
                            (
                              source.id,
                              lang,
                              e,
                              there,
                              listed,
                              refused,
                              ap (translate_failed source.id lang) q,
                            ),
                          )))
                ]
      ]

  -- The documents of a group: one for each language, in order.
  ensure_languages-Ends :
      (by_lang : Map (Document S)) (source : Document S) (langs : List Str)
      (out : List (Document S)) (w : W)
      → I w
      → All IsListed langs
      → In source.id (map (λ d. d.id) documents)
      → IsByLanguage source.id by_lang
      → IsView rt supported default_lang documents text package_langs source.id by_lang
      → All (IsKept rt supported default_lang documents) out
      → Ends (AreFor (map label out ++ map (λ lang. (source.id, lang)) langs)) FromEnsure (
          ensure_languages rt text package_langs clock translator scope existing supported by_lang
            source langs out w)
  unfolding ensure_languages
  ensure_languages-Ends by_lang source [] out w i c there h view kept =
      (i, sym (append-nil (map label out)), kept)
  ensure_languages-Ends by_lang source (lang ∷ langs) out w i c there h view kept =
      and_then-Ends (IsFor source.id lang)
        (AreFor (map label out ++ ((source.id, lang) ∷ map (λ l. (source.id, l)) langs))) FromEnsure
        _ _ (ensured-Ends by_lang source lang w i c.0 there h view)
        (λ doc v (j, e, k).
          subst
            (λ l. Ends (AreFor l) FromEnsure (
              ensure_languages rt text package_langs clock translator scope existing supported
                by_lang source langs (out ++ doc ∷ []) v))
            (ap (λ l. l ++ map (λ x. (source.id, x)) langs) (map_append label out (doc ∷ []))
              ∙ (append_assoc (map label out) (label doc ∷ []) (map (λ x. (source.id, x)) langs)
                  ∙ ap (λ p. map label out ++ (p ∷ map (λ x. (source.id, x)) langs)) e))
            (ensure_languages-Ends by_lang source langs (out ++ doc ∷ []) v j c.1 there h view
              (All-append _ out (doc ∷ []) kept (k, tt))))

  module _ (listed : All IsListed supported) where
    ensure_group-Ends :
        (doc_id : Str) (docs out : List (Document S)) (w : W)
        → I w
        → IsGroupOf documents (doc_id, docs)
        → All (IsKept rt supported default_lang documents) out
        → Ends (AreFor (map label out ++ map (λ lang. (doc_id, lang)) supported)) FromEnsure (
            ensure_group rt text package_langs clock translator scope existing supported
              default_lang doc_id docs out w)
    unfolding ensure_group with_index_metadata
    ensure_group-Ends doc_id docs out w i g kept =
        let by_lang = by_language rt text package_langs supported default_lang [] docs in
        let h =
          by_language-IsByLanguage rt text package_langs supported default_lang doc_id [] docs
            (IsGroupOf-All documents doc_id docs g) (λ lang doc e. absurd (no_entry lang doc e)) in
        let (source, found, q) =
          pick_source_document_id doc_id by_lang supported h
            (by_language_filled rt text package_langs supported default_lang docs g.1) in
        let at : (k : Str)
            → doc_id ≡ k
            → In k (map (λ d. d.id) documents)
              × IsByLanguage k by_lang
              × IsView rt supported default_lang documents text package_langs k by_lang =
          λ k e.
            subst
              (λ k'.
                In k' (map (λ (d : Document S). d.id) documents)
                × IsByLanguage k' by_lang
                × IsView rt supported default_lang documents text package_langs k' by_lang)
              e
              (
                IsGroupOf-In documents doc_id docs g,
                h,
                by_language-IsView rt supported default_lang documents text package_langs doc_id
                    docs g,
              ) in
        let (there, ids, view) = at source.id (sym q) in
        let f : pick_source_document
              (by_language rt text package_langs supported default_lang [] docs) supported
            ≡ some source =
          found in
        rw (ensure_group, f)
          (subst
            (λ k. Ends (AreFor (map label out ++ map (λ lang. (k, lang)) supported)) FromEnsure (
              ensure_languages rt text package_langs clock translator scope existing supported
                by_lang (with_index_metadata rt text source) supported out w))
            q
            (ensure_languages-Ends by_lang (with_index_metadata rt text source) supported out w i
              listed there ids view kept))

    pub ensure_groups-Ends :
        (groups : Map (List (Document S))) (out : List (Document S)) (w : W)
        → I w
        → All (IsGroupOf documents) groups
        → All (IsKept rt supported default_lang documents) out
        → Ends (AreFor (map label out ++ pairs (keys groups) supported)) FromEnsure (
            ensure_groups rt text package_langs clock translator scope existing supported
              default_lang groups out w)
    unfolding ensure_groups
    ensure_groups-Ends [] out w i g kept = (i, sym (append-nil (map label out)), kept)
    ensure_groups-Ends ((doc_id, docs) ∷ groups) out w i g kept =
        and_then-Ends (AreFor (map label out ++ map (λ lang. (doc_id, lang)) supported))
          (AreFor (
            map label out
            ++ (map (λ lang. (doc_id, lang)) supported ++ pairs (keys groups) supported)))
          FromEnsure _ _ (ensure_group-Ends doc_id docs out w i g.0 kept)
          (λ r v (j, e, k).
            subst
              (λ l. Ends (AreFor l) FromEnsure (
                ensure_groups rt text package_langs clock translator scope existing supported
                  default_lang groups r v))
              (ap (λ l. l ++ pairs (keys groups) supported) e
                ∙ append_assoc (map label out) (map (λ lang. (doc_id, lang)) supported)
                    (pairs (keys groups) supported))
              (ensure_groups-Ends groups r v j g.1 k))
