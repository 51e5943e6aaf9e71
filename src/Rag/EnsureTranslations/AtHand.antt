-- ===== src/Rag/EnsureTranslations/AtHand.antt =====
-- backend/internal/rag/translate.go: when EnsureMissingTranslations needs no translator.
use civika.Prelude.{
  not_empty_list, ℕ, ◌≡◌, ◌≢◌, ◌⊎◌, refl, sym, subst, ap, ◌∙◌, ◌↔◌, map, In, In-map-cases, All-map,
  empty_list, All-at, All-of-In, none, some, List, [], All, length, ◌==◌, Bool-cases, Option-cases,
  inl, inr,
}
use civika.Prelude.Result.{Result, ok, err}
use civika.Prelude.StateResult.{Ends, Ends-map, Ends-else}
use civika.Text.{Str, codes, Runtime}
use civika.Rag.EnsureTranslations.Labels.{IsCode}
use civika.Rag.EnsureTranslations.Groups.{
  group_documents-IsGroup, by_language-IsByLanguage, pick_source_document_id, by_language_filled,
}
use civika.Rag.EnsureTranslations.Inputs.{
  last_of, IsGroupOf, IsGroupOf-All, IsGroupOf-In, IsView, by_language-IsView,
  group_documents-IsGroupOf, group_keys-In,
}
use civika.Rag.EnsureTranslations.Ready.{IsReady}
use civika.Rag.EnsureTranslations.Sources.{preferred, source_of, source_picked, fallback-In}
use civika.Rag.EnsureTranslations.Steps.{none-some, some_eq, no_entry}
use civika.GoMap.{Map, lookup}
use civika.Langs.{normalize_or_fallback}
use civika.Rag.Document.{Document}
use civika.Rag.Fingerprint.{with_index_metadata, build_translation_source_hash}
use civika.Rag.IndexState.{IndexDocumentState, pick_source_document}
use civika.Rag.IndexSkip.{group_documents}
use civika.Rag.Usage.{UsageScope}
use civika.Rag.Translator.{TranslationRequest, Translator}
use civika.Rag.EnsureTranslations.{
  EnsureError, by_language, with_language, ensure_missing_translations,
}
use civika.Rag.EnsureTranslations.Reuse.{
  IsHeld, IsComplete, IsIdle, ensure_groups-IsIdle, ensure_groups-AreComplete,
}

module _ {S : Type 0} (rt : Runtime) (existing : Map IndexDocumentState) (supported : List Str)
    (default_lang : Str) (documents : List (Document S)) where
  -- A document is given, or the index has a ready translation of the source.
  abbrev pub IsAtHand : Str → Str → Type 0
  IsAtHand id lang =
      (last_of rt supported default_lang documents id lang ≢ none)
      ⊎ ((source : Document S) × (source_of rt supported default_lang documents id
              (preferred supported)
            ≡ some source)
          × IsReady existing id lang (
              build_translation_source_hash rt
                (normalize_or_fallback rt source.language default_lang supported) source.title
                source.content))

  abbrev pub AreAtHand : Type 0
  AreAtHand =
      (id lang : Str) → In id (map (λ d. d.id) documents) → In lang supported → IsAtHand id lang

module _ {S W E : Type 0} (rt : Runtime) (text : Str → S) (package_langs : List Str) (clock : W → ℕ)
    (translator : Translator W E) (scope : UsageScope) (existing : Map IndexDocumentState)
    (supported : List Str) (documents : List (Document S)) where
  -- A group of the documents, its source, and the map of its languages.
  module _ (default_lang id : Str) (docs : List (Document S)) (g : IsGroupOf documents (id, docs))
      (filled : supported ≢ []) (i : In default_lang (preferred supported)) where
    abbrev by_lang : Map (Document S)
    by_lang = by_language rt text package_langs supported default_lang [] docs

    view : IsView rt supported default_lang documents text package_langs id by_lang
    view = by_language-IsView rt supported default_lang documents text package_langs id docs g

    -- The source as it stands in the map.
    abbrev labelled : Document S → Document S
    labelled s =
        with_index_metadata rt text (with_language rt text package_langs supported default_lang s)

    picked_id :
        (s : Document S)
        → pick_source_document by_lang supported
          ≡ some (with_language rt text package_langs supported default_lang s)
        → s.id ≡ id
    unfolding with_language
    picked_id s p =
        let h =
          by_language-IsByLanguage rt text package_langs supported default_lang id [] docs
            (IsGroupOf-All documents id docs g) (λ lang doc e. absurd (no_entry lang doc e)) in
        let (doc, q, e) =
          pick_source_document_id id by_lang supported h
            (by_language_filled rt text package_langs supported default_lang docs g.1) in
        ap (λ (d : Document S). d.id) (some_eq (sym p ∙ q)) ∙ e

    IsHeld-IsAtHand :
        (s : Document S) (lang : Str)
        → source_of rt supported default_lang documents id (preferred supported) ≡ some s
        → s.id ≡ id
        → IsHeld rt text package_langs clock translator scope existing supported default_lang
            by_lang
            (labelled s)
            lang
        → IsAtHand rt existing supported default_lang documents id lang
    unfolding with_language with_index_metadata
    IsHeld-IsAtHand s lang found e (inl h) = inl (λ q. h (view lang ∙ rw q refl))
    IsHeld-IsAtHand s lang found e (inr r) = inr (
      s,
      found,
      subst
          (λ k. IsReady existing k lang (
            build_translation_source_hash rt
              (normalize_or_fallback rt s.language default_lang supported) s.title s.content))
          e r,
    )

    IsAtHand-IsHeld :
        (s : Document S) (lang : Str)
        → source_of rt supported default_lang documents id (preferred supported) ≡ some s
        → s.id ≡ id
        → IsAtHand rt existing supported default_lang documents id lang
        → IsHeld rt text package_langs clock translator scope existing supported default_lang
            by_lang
            (labelled s)
            lang
    unfolding with_language with_index_metadata
    IsAtHand-IsHeld s lang found e (inl h) = inl (λ q.
        elim (Option-cases (last_of rt supported default_lang documents id lang)) [
          | inl n ↦ h n
          | inr (d, n) ↦
              let m : lookup lang by_lang
                  ≡ some (with_language rt text package_langs supported default_lang d) =
                view lang ∙ rw n refl in
              none-some (sym q ∙ m)
        ])
    IsAtHand-IsHeld s lang found e (inr (s', found', r)) =
        let same : s' ≡ s = some_eq (sym found' ∙ found) in
        let hash_of : Document S → Str = λ d.
          build_translation_source_hash rt
            (normalize_or_fallback rt d.language default_lang supported) d.title d.content in
        inr (
          subst (λ k. IsReady existing k lang (hash_of s)) (sym e)
            (subst (λ (d : Document S). IsReady existing id lang (hash_of d)) same r))

    IsComplete-IsAtHand :
        IsComplete rt text package_langs clock translator scope existing supported default_lang
          (id, docs)
        → (lang : Str) → In lang supported
        → IsAtHand rt existing supported default_lang documents id lang
    IsComplete-IsAtHand (source, p, held) lang j =
        let (s, found, picked) =
          source_picked rt supported default_lang documents id text package_langs by_lang view docs
            g filled i in
        let h =
          All-at
            (IsHeld rt text package_langs clock translator scope existing supported default_lang
              by_lang (with_index_metadata rt text source))
            supported lang held j in
        IsHeld-IsAtHand s lang found (picked_id s picked) (
          subst
            (λ d.
              IsHeld rt text package_langs clock translator scope existing supported default_lang
                by_lang (with_index_metadata rt text d) lang)
            (some_eq (sym p ∙ picked)) h)

    IsAtHand-IsComplete :
        ((lang : Str)
          → In lang supported
          → IsAtHand rt existing supported default_lang documents id lang)
        → IsComplete rt text package_langs clock translator scope existing supported default_lang
            (id, docs)
    IsAtHand-IsComplete h =
        let (s, found, picked) =
          source_picked rt supported default_lang documents id text package_langs by_lang view docs
            g filled i in
        (
          with_language rt text package_langs supported default_lang s,
          picked,
          All-of-In
              (IsHeld rt text package_langs clock translator scope existing supported default_lang
                by_lang (labelled s))
              supported (λ lang j. IsAtHand-IsHeld s lang found (picked_id s picked) (h lang j)),
        )

  module _ (default_lang : Str) where
    abbrev fallback : Str
    fallback = normalize_or_fallback rt default_lang (codes "fr") supported

    abbrev IsCompleteGroup : Str × List (Document S) → Type 0
    IsCompleteGroup =
        IsComplete rt text package_langs clock translator scope existing supported fallback

    abbrev run : W → W × Result (EnsureError E) (List (Document S))
    run w =
        ensure_missing_translations rt text package_langs clock scope existing supported
          (some translator) documents default_lang w

    groups : All (IsGroupOf documents) (group_documents [] documents)
    groups = group_documents-IsGroupOf documents (group_documents-IsGroup [] documents tt)

    all_complete :
        supported ≢ []
        → AreAtHand rt existing supported fallback documents
        → All IsCompleteGroup (group_documents [] documents)
    all_complete filled h =
        All-map (group_documents [] documents)
          (λ p g.
            IsAtHand-IsComplete fallback p.0 p.1 g filled
              (fallback-In rt default_lang supported filled)
              (λ lang j. h p.0 lang (IsGroupOf-In documents p.0 p.1 g) j))
          groups

    all_at_hand :
        supported ≢ []
        → All IsCompleteGroup (group_documents [] documents)
        → AreAtHand rt existing supported fallback documents
    all_at_hand filled h id lang i j =
        let (p, there, e) =
          In-map-cases (λ (p : Str × List (Document S)). p.0) id (group_documents [] documents)
            (group_keys-In id documents i) in
        let g = All-at (IsGroupOf documents) (group_documents [] documents) p groups there in
        let c = All-at IsCompleteGroup (group_documents [] documents) p h there in
        subst (λ k. IsAtHand rt existing supported fallback documents k lang) (sym e)
          (IsComplete-IsAtHand fallback p.0 p.1 g filled
            (fallback-In rt default_lang supported filled) c lang j)

    run-IsIdle :
        (w : W)
        → All (IsCode rt) supported
        → supported ≢ []
        → All IsCompleteGroup (group_documents [] documents)
        → IsIdle rt text package_langs clock translator scope existing supported fallback w (run w)
    unfolding ensure_missing_translations
    run-IsIdle w c filled h = elim (Bool-cases (length documents == 0)) [
      | inl t ↦ rw (ensure_missing_translations, t) refl
      | inr t ↦
          Ends-else (λ v a. v ≡ w) (λ v x. ⊥) (length documents == 0) _ _ t
            (Ends-else (λ v a. v ≡ w) (λ v x. ⊥) (length supported == 0) _ _
              (not_empty_list supported filled)
              (ensure_groups-IsIdle rt text package_langs clock translator scope existing supported
                fallback (group_documents [] documents) [] w c h))
    ]

    run-AreComplete :
        (w : W)
        → ((s : UsageScope) (request : TranslationRequest) (u : W)
            → Ends (λ v a. ⊥) (λ v x. Unit) (translator.translate s request u))
        → All (IsCode rt) supported
        → supported ≢ []
        → Ends (λ v r. All IsCompleteGroup (group_documents [] documents)) (λ v x. Unit) (run w)
    unfolding ensure_missing_translations
    run-AreComplete w fails c filled =
        let P : W → List (Document S) → Type 0 =
          λ v r. All IsCompleteGroup (group_documents [] documents) in
        elim (Bool-cases (length documents == 0)) [
          | inl t ↦
              let none_given : All IsCompleteGroup (group_documents [] documents) =
                subst (λ d. All IsCompleteGroup (group_documents [] d))
                  (sym (empty_list documents t)) tt in
              Ends-map (λ v r. Unit) P (λ v x. Unit) (run w)
                (rw (ensure_missing_translations, t) tt) (λ v r u. none_given)
          | inr t ↦
              Ends-else P (λ v x. Unit) (length documents == 0) _ _ t
                (Ends-else P (λ v x. Unit) (length supported == 0) _ _
                  (not_empty_list supported filled)
                  (ensure_groups-AreComplete rt text package_langs clock translator scope existing
                    supported fallback fails (group_documents [] documents) [] w c))
        ]

    idle_result :
        {A : Type 0} (w : W) (m : W × Result (EnsureError E) A)
        → Ends (λ v a. v ≡ w) (λ v x. ⊥) m
        → (a : A) × (m ≡ (w, ok a))
    idle_result w (v, ok a) e = (a, ap (λ u. (u, ok a)) e)
    idle_result w (v, err x) e = elim e [ ]

    -- With supported languages that are normalised codes, at least one of them, and a translator that
    -- always fails: EnsureMissingTranslations returns documents and leaves the state unchanged exactly
    -- if, for each identifier of the input and each supported language, the input has a document with
    -- both (its language resolved as the code does), or the index has a translation with both that is
    -- ready, whose content and source hash are not blank, and whose source hash is the hash of the
    -- source, which is the last input document with the identifier in the first of English, French,
    -- German, Italian, Romansh and the supported languages that has one.
    pub ensure_missing_translations_idle :
        (w : W)
        → ((s : UsageScope) (request : TranslationRequest) (u : W)
            → Ends (λ v a. ⊥) (λ v x. Unit) (translator.translate s request u))
        → All (IsCode rt) supported
        → supported ≢ []
        → AreAtHand rt existing supported fallback documents ↔ (
            (out : List (Document S)) × (ensure_missing_translations rt text package_langs clock
                scope existing supported
                (some translator)
                documents
                default_lang
                w
              ≡ (w, ok out)))
    ensure_missing_translations_idle w fails c filled = (
      λ h. idle_result w (run w) (run-IsIdle w c filled (all_complete filled h)),
      λ (out, e).
          let P : W → List (Document S) → Type 0 =
            λ v r. All IsCompleteGroup (group_documents [] documents) in
          let h : Ends {X = EnsureError E} P (λ v x. Unit) (w, ok out) =
            subst (Ends P (λ v x. Unit)) e (run-AreComplete w fails c filled) in
          all_at_hand filled h,
    )
