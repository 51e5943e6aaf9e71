-- ===== src/Rag/EnsureTranslations/Reuse.antt =====
-- backend/internal/rag/translate.go: the documents that EnsureMissingTranslations completes without the
-- translator.
use civika.Prelude.{
  ℕ, ◌≡◌, ◌≢◌, ◌⊎◌, refl, sym, subst, ◌∙◌, none, some, List, [], ◌∷◌, ◌++◌, All, Bool-cases,
  Option-cases, inl, inr,
}
use civika.Prelude.Result.{Result}
use civika.Prelude.StateResult.{Ends, and_then-Ends, wrap_error-Ends, Ends-map}
use civika.Text.{Str, eqb, Runtime}
use civika.Rag.EnsureTranslations.Labels.{IsCode}
use civika.Rag.EnsureTranslations.Ready.{IsReady, ready-reused, reused-ready}
use civika.Rag.EnsureTranslations.Steps.{none-some}
use civika.GoMap.{Map, lookup}
use civika.Langs.{normalize}
use civika.Rag.Document.{Document}
use civika.Rag.Fingerprint.{with_index_metadata, build_translation_source_hash}
use civika.Rag.IndexState.{IndexDocumentState, pick_source_document}
use civika.Rag.Usage.{UsageScope}
use civika.Rag.Translator.{TranslationRequest, Translator}
use civika.Rag.EnsureTranslations.{
  EnsureError, translator_error, translate_failed, by_language, translate_document,
  reuse_existing_ready_translation, ensured, ensure_languages, ensure_group, ensure_groups,
}

module _ {S W E : Type 0} (rt : Runtime) (text : Str → S) (package_langs : List Str) (clock : W → ℕ)
    (translator : Translator W E) (scope : UsageScope) (existing : Map IndexDocumentState)
    (supported : List Str) (default_lang : Str) where
  -- The same of a group: a language that it has, or that the index has.
  abbrev pub IsHeld : Map (Document S) → Document S → Str → Type 0
  IsHeld by_lang source lang =
      (lookup lang by_lang ≢ none)
      ⊎ IsReady existing source.id lang
          (build_translation_source_hash rt source.language source.title source.content)

  abbrev pub IsComplete : Str × List (Document S) → Type 0
  IsComplete (doc_id, docs) =
      let by_lang = by_language rt text package_langs supported default_lang [] docs in
      (source : Document S) × (pick_source_document by_lang supported ≡ some source)
      × All (IsHeld by_lang (with_index_metadata rt text source)) supported

  -- A call ends with a value and the state it began with.
  abbrev pub IsIdle : {A : Type 0} → W → W × Result (EnsureError E) A → Type 0
  IsIdle w m = Ends (λ v a. v ≡ w) (λ v x. ⊥) m

  ensured-IsIdle :
      (by_lang : Map (Document S)) (source : Document S) (lang : Str) (w : W)
      → IsCode rt lang
      → IsHeld by_lang source lang
      → IsIdle w (
          ensured rt text package_langs clock translator scope existing supported by_lang source
            lang w)
  unfolding ensured
  ensured-IsIdle by_lang source lang w c h =
      let hash = build_translation_source_hash rt source.language source.title source.content in
      elim (Option-cases (lookup lang by_lang)) [
        | inr (doc, n) ↦ rw (ensured, n) refl
        | inl n ↦
            elim (Option-cases (
              reuse_existing_ready_translation rt text package_langs (clock w) source lang existing
                hash)) [
                  | inr (doc, m) ↦ rw (ensured, n, m) refl
                  | inl m ↦ absurd (elim h [
                    | inl a ↦ a n
                    | inr b ↦
                        ready-reused rt text package_langs existing supported (clock w) source lang
                          hash c b m
                  ])
                ]
      ]

  ensure_languages-IsIdle :
      (by_lang : Map (Document S)) (source : Document S) (langs : List Str)
      (out : List (Document S)) (w : W)
      → All (IsCode rt) langs
      → All (IsHeld by_lang source) langs
      → IsIdle w (
          ensure_languages rt text package_langs clock translator scope existing supported by_lang
            source langs out w)
  unfolding ensure_languages
  ensure_languages-IsIdle by_lang source [] out w c h = refl
  ensure_languages-IsIdle by_lang source (lang ∷ langs) out w c h =
      and_then-Ends (λ v a. v ≡ w) (λ v a. v ≡ w) (λ v x. ⊥) _ _
        (ensured-IsIdle by_lang source lang w c.0 h.0)
        (λ doc v e.
          subst
            (λ u. IsIdle w (
              ensure_languages rt text package_langs clock translator scope existing supported
                by_lang source langs (out ++ doc ∷ []) u))
            (sym e) (ensure_languages-IsIdle by_lang source langs (out ++ doc ∷ []) w c.1 h.1))

  pub ensure_groups-IsIdle :
      (groups : Map (List (Document S))) (out : List (Document S)) (w : W)
      → All (IsCode rt) supported
      → All IsComplete groups
      → IsIdle w (
          ensure_groups rt text package_langs clock translator scope existing supported default_lang
            groups out w)
  unfolding ensure_groups ensure_group
  ensure_groups-IsIdle [] out w c h = refl
  ensure_groups-IsIdle ((doc_id, docs) ∷ groups) out w c h =
      let (source, e, held) = h.0 in
      and_then-Ends (λ v a. v ≡ w) (λ v a. v ≡ w) (λ v x. ⊥) _ _
        (rw (ensure_group, e)
          (ensure_languages-IsIdle
            (by_language rt text package_langs supported default_lang [] docs)
            (with_index_metadata rt text source) supported out w c held))
        (λ r v e'.
          subst
            (λ u. IsIdle w (
              ensure_groups rt text package_langs clock translator scope existing supported
                default_lang groups r u))
            (sym e') (ensure_groups-IsIdle groups r w c h.1))

  -- With a translator that always fails, a call that returns has used what was held.
  module _
      (fails : (s : UsageScope) (request : TranslationRequest) (w : W)
        → Ends (λ v a. ⊥) (λ v x. Unit) (translator.translate s request w)) where
    translate_document-fails :
        (source : Document S) (lang : Str) (w : W)
        → Ends
            (λ v a. ⊥)
            (λ v x. Unit)
            (translate_document rt text package_langs clock translator scope source lang w)
    unfolding translate_document
    translate_document-fails source lang w = elim (Bool-cases (eqb (normalize rt lang) [])) [
      | inl t ↦ rw (translate_document, t) tt
      | inr t ↦
          rw (translate_document, t)
            (and_then-Ends (λ v a. ⊥) (λ v a. ⊥) (λ v x. Unit) _ _
              (wrap_error-Ends (λ v a. ⊥) (λ v x. Unit) (λ v x. Unit) translator_error _
                (fails _ _ _) (λ x v u. tt))
              (λ title v impossible. elim impossible [ ]))
    ]

    ensured-IsHeld :
        (by_lang : Map (Document S)) (source : Document S) (lang : Str) (w : W)
        → IsCode rt lang
        → Ends
            (λ v a. IsHeld by_lang source lang)
            (λ v x. Unit)
            (ensured rt text package_langs clock translator scope existing supported by_lang source
              lang w)
    unfolding ensured
    ensured-IsHeld by_lang source lang w c =
        let hash = build_translation_source_hash rt source.language source.title source.content in
        let run =
          ensured rt text package_langs clock translator scope existing supported by_lang source
            lang w in
        let P : W → Document S → Type 0 = λ v a. IsHeld by_lang source lang in
        elim (Option-cases (lookup lang by_lang)) [
          | inr (doc, n) ↦
              let held : IsHeld by_lang source lang = inl (λ e. none-some (sym e ∙ n)) in
              Ends-map (λ v a. Unit) P (λ v x. Unit) run (rw (ensured, n) tt) (λ v a u. held)
          | inl n ↦
              elim (Option-cases (
                reuse_existing_ready_translation rt text package_langs (clock w) source lang
                  existing hash)) [
                    | inr (doc, m) ↦
                        let held : IsHeld by_lang source lang = inr (
                          reused-ready rt text package_langs existing supported (clock w) source
                            lang hash c (λ e. none-some (sym e ∙ m))) in
                        Ends-map (λ v a. Unit) P (λ v x. Unit) run (rw (ensured, n, m) tt)
                          (λ v a u. held)
                    | inl m ↦
                        Ends-map (λ v a. ⊥) P (λ v x. Unit) run
                          (rw (ensured, n, m)
                            (wrap_error-Ends (λ v a. ⊥) (λ v x. Unit) (λ v x. Unit)
                              (translate_failed source.id lang) _
                              (and_then-Ends (λ v a. ⊥) (λ v a. ⊥) (λ v x. Unit) _ _
                                (translate_document-fails source lang w)
                                (λ doc v impossible. impossible))
                              (λ x v u. tt)))
                          (λ v a impossible. elim impossible [ ])
                  ]
        ]

    ensure_languages-AreHeld :
        (by_lang : Map (Document S)) (source : Document S) (langs : List Str)
        (out : List (Document S)) (w : W)
        → All (IsCode rt) langs
        → Ends
            (λ v a. All (IsHeld by_lang source) langs)
            (λ v x. Unit)
            (ensure_languages rt text package_langs clock translator scope existing supported
              by_lang source langs out w)
    unfolding ensure_languages
    ensure_languages-AreHeld by_lang source [] out w c = tt
    ensure_languages-AreHeld by_lang source (lang ∷ langs) out w c =
        and_then-Ends (λ v a. IsHeld by_lang source lang)
          (λ v a. IsHeld by_lang source lang × All (IsHeld by_lang source) langs) (λ v x. Unit) _ _
          (ensured-IsHeld by_lang source lang w c.0)
          (λ doc v h.
            Ends-map (λ u a. All (IsHeld by_lang source) langs)
              (λ u a. IsHeld by_lang source lang × All (IsHeld by_lang source) langs) (λ u x. Unit)
              (ensure_languages rt text package_langs clock translator scope existing supported
                by_lang source langs (out ++ doc ∷ []) v)
              (ensure_languages-AreHeld by_lang source langs (out ++ doc ∷ []) v c.1)
              (λ u a k. (h, k)))

    pub ensure_groups-AreComplete :
        (groups : Map (List (Document S))) (out : List (Document S)) (w : W)
        → All (IsCode rt) supported
        → Ends
            (λ v r. All IsComplete groups)
            (λ v x. Unit)
            (ensure_groups rt text package_langs clock translator scope existing supported
              default_lang groups out w)
    unfolding ensure_groups ensure_group
    ensure_groups-AreComplete [] out w c = tt
    ensure_groups-AreComplete ((doc_id, docs) ∷ groups) out w c =
        let by_lang = by_language rt text package_langs supported default_lang [] docs in
        let P : W → List (Document S) → Type 0 = λ v r. IsComplete (doc_id, docs) in
        let run =
          ensure_group rt text package_langs clock translator scope existing supported default_lang
            doc_id docs out w in
        let one : Ends P (λ v x. Unit) run =
          elim (Option-cases (pick_source_document by_lang supported)) [
            | inl n ↦
                Ends-map (λ v a. ⊥) P (λ v x. Unit) run (rw (ensure_group, n) tt)
                  (λ v a impossible. elim impossible [ ])
            | inr (source, n) ↦
                let held = All (IsHeld by_lang (with_index_metadata rt text source)) supported in
                let same : run
                    ≡ ensure_languages rt text package_langs clock translator scope existing
                        supported by_lang (with_index_metadata rt text source) supported out w =
                  rw (ensure_group, n) refl in
                Ends-map (λ v a. held) P (λ v x. Unit) run
                  (subst (Ends (λ v a. held) (λ v x. Unit)) (sym same) (
                    ensure_languages-AreHeld by_lang (with_index_metadata rt text source) supported
                      out w c))
                  (λ v a k. (source, n, k))
          ] in
        and_then-Ends P (λ v r. IsComplete (doc_id, docs) × All IsComplete groups) (λ v x. Unit) _ _
          one
          (λ r v h.
            Ends-map (λ u a. All IsComplete groups)
              (λ u a. IsComplete (doc_id, docs) × All IsComplete groups) (λ u x. Unit)
              (ensure_groups rt text package_langs clock translator scope existing supported
                default_lang groups r v)
              (ensure_groups-AreComplete groups r v c) (λ u a k. (h, k)))
