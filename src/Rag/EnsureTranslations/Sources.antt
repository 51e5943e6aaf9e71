-- ===== src/Rag/EnsureTranslations/Sources.antt =====
-- backend/internal/rag/translate.go: the document that the others of a group are translated from.
use civika.Prelude.{
  ◌≡◌, ◌≢◌, refl, sym, subst, ap, ◌∙◌, true, Option, none, some, List, [], ◌∷◌, In, In-of-keep,
  Bool-cases, Option-cases, inl, inr, arith,
}
use civika.Text.{Str, codes, eqb, Runtime}
use civika.Text.Laws.{eqb_iff, eq_of_eqb}
use civika.GoMap.{Map, lookup}
use civika.Langs.{normalize_or_fallback, contains}
use civika.Langs.Codes.{normalize_or_fallback-cases}
use civika.Rag.Document.{Document}
use civika.Rag.IndexState.{first_preferred, pick_source_document}
use civika.Rag.EnsureTranslations.{with_language}
use civika.Rag.EnsureTranslations.Inputs.{last_of, IsGroupOf, IsView}

-- The languages in which a source is looked for, the first ones first.
abbrev pub preferred : List Str → List Str
preferred supported = codes "en" ∷ codes "fr" ∷ codes "de" ∷ codes "it" ∷ codes "rm" ∷ supported

-- The last document with an identifier in the first of the languages that has one.
unfoldable pub source_of :
    {S : Type 0}
    → Runtime
    → List Str
    → Str
    → List (Document S)
    → Str
    → List Str
    → Option (Document S)
source_of rt supported default_lang documents id [] = none
source_of rt supported default_lang documents id (lang ∷ langs) =
    elim (last_of rt supported default_lang documents id lang) [
      | some doc ↦ some doc
      | none ↦ source_of rt supported default_lang documents id langs
    ]

contains-In : (xs : List Str) (x : Str) → contains xs x ≡ true → In x xs
unfolding contains
contains-In [] x e = absurd cc
contains-In (y ∷ xs) x e = elim (Bool-cases (eqb y x)) [
  | inl t ↦ inl (sym (eq_of_eqb y x t))
  | inr t ↦ inr (contains-In xs x (ground arith))
]

supported-In : (x : Str) (supported : List Str) → In x supported → In x (preferred supported)
supported-In x supported i = inr (inr (inr (inr (inr i))))

-- A resolved language is one of them.
resolved-In :
    (rt : Runtime) (raw fallback : Str) (supported : List Str)
    → supported ≢ []
    → In fallback (preferred supported)
    → In (normalize_or_fallback rt raw fallback supported) (preferred supported)
resolved-In rt raw fallback supported filled i =
    elim (normalize_or_fallback-cases rt raw fallback supported) [
      | inl e ↦ subst (λ x. In x (preferred supported)) (sym e) i
      | inr (c, inl e) ↦ absurd (filled e)
      | inr (c, inr e) ↦ supported-In _ supported (contains-In supported _ e)
    ]

pub fallback-In :
    (rt : Runtime) (raw : Str) (supported : List Str)
    → supported ≢ []
    → In (normalize_or_fallback rt raw (codes "fr") supported) (preferred supported)
fallback-In rt raw supported filled =
    resolved-In rt raw (codes "fr") supported filled (inr (inl refl))

module _ {S : Type 0} (rt : Runtime) (supported : List Str) (default_lang : Str)
    (documents : List (Document S)) (id : Str) where
  last_of-found :
      (docs : List (Document S)) (d : Document S)
      → In d docs
      → d.id ≡ id
      → last_of rt supported default_lang docs id
          (normalize_or_fallback rt d.language default_lang supported)
        ≢ none
  unfolding last_of
  last_of-found [] d i e q = elim i [ ]
  last_of-found (x ∷ docs) d (inr i) e q =
      elim (Option-cases (
        last_of rt supported default_lang docs id
          (normalize_or_fallback rt d.language default_lang supported))) [
            | inl n ↦ last_of-found docs d i e n
            | inr (found, n) ↦ let r : some found ≡ none = rw (last_of, n) at q in absurd cc
          ]
  last_of-found (x ∷ docs) d (inl p) e q =
      let lang = normalize_or_fallback rt d.language default_lang supported in
      let same : eqb x.id id ≡ true =
        (eqb_iff x.id id).1 (ap (λ (y : Document S). y.id) (sym p) ∙ e) in
      let lang_same : eqb (normalize_or_fallback rt x.language default_lang supported) lang ≡ true =
        (eqb_iff (normalize_or_fallback rt x.language default_lang supported) lang).1 (
          ap (λ (y : Document S). normalize_or_fallback rt y.language default_lang supported)
            (sym p)) in
      elim (Option-cases (last_of rt supported default_lang docs id lang)) [
        | inl n ↦ let r : some x ≡ none = rw (last_of, n, same, lang_same) at q in absurd cc
        | inr (found, n) ↦ let r : some found ≡ none = rw (last_of, n) at q in absurd cc
      ]

  source_of-found :
      (langs : List Str) (lang : Str)
      → In lang langs
      → last_of rt supported default_lang documents id lang ≢ none
      → source_of rt supported default_lang documents id langs ≢ none
  unfolding source_of
  source_of-found [] lang i h q = elim i [ ]
  source_of-found (l ∷ langs) lang i h q =
      elim (Option-cases (last_of rt supported default_lang documents id l)) [
        | inr (d, n) ↦ let r : some d ≡ none = rw (source_of, n) at q in absurd cc
        | inl n ↦ elim i [
          | inl e ↦
              absurd
                (h (subst (λ x. last_of rt supported default_lang documents id x ≡ none) (sym e) n))
          | inr j ↦ source_of-found langs lang j h (rw (source_of, n) at q)
        ]
      ]

  module _ (text : Str → S) (package_langs : List Str) (by_lang : Map (Document S))
      (view : IsView rt supported default_lang documents text package_langs id by_lang) where
    first_preferred-source_of :
        (langs : List Str) (s : Document S)
        → source_of rt supported default_lang documents id langs ≡ some s
        → first_preferred by_lang langs
          ≡ some (with_language rt text package_langs supported default_lang s)
    unfolding first_preferred source_of
    first_preferred-source_of [] s q = absurd cc
    first_preferred-source_of (l ∷ langs) s q =
        elim (Option-cases (last_of rt supported default_lang documents id l)) [
          | inr (d, n) ↦
              let r : some d ≡ some s = rw (source_of, n) at q in
              let m : lookup l by_lang
                  ≡ some (with_language rt text package_langs supported default_lang d) =
                view l ∙ rw n refl in
              rw (first_preferred, m)
                (ap
                  (λ o. elim o as (λ x. Option (Document S)) [
                    | none ↦ none
                    | some x ↦ some (with_language rt text package_langs supported default_lang x)
                  ])
                  r)
          | inl n ↦
              let m : lookup l by_lang ≡ none = view l ∙ rw n refl in
              rw (first_preferred, m) (first_preferred-source_of langs s (rw (source_of, n) at q))
        ]

    -- The source of a group.
    pub source_picked :
        (docs : List (Document S))
        → IsGroupOf documents (id, docs)
        → supported ≢ []
        → In default_lang (preferred supported)
        → (s : Document S) × (source_of rt supported default_lang documents id (preferred supported)
            ≡ some s)
          × (pick_source_document by_lang supported
              ≡ some (with_language rt text package_langs supported default_lang s))
    unfolding pick_source_document
    source_picked [] g filled i = absurd (g.1 refl)
    source_picked (d ∷ docs) g filled i =
        let (there, t) = In-of-keep d (λ x. eqb x.id id) documents (subst (In d) g.0 (inl refl)) in
        let lang = normalize_or_fallback rt d.language default_lang supported in
        elim (Option-cases
          (source_of rt supported default_lang documents id (preferred supported))) [
            | inl n ↦ absurd (
                source_of-found (preferred supported) lang
                  (resolved-In rt d.language default_lang supported filled i)
                  (last_of-found documents d there (eq_of_eqb d.id id t)) n)
            | inr (s, n) ↦
                let f = first_preferred-source_of (preferred supported) s n in
                (s, n, rw (pick_source_document, f) refl)
          ]
