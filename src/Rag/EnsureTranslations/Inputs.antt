-- ===== src/Rag/EnsureTranslations/Inputs.antt =====
-- backend/internal/rag/translate.go: the documents that EnsureMissingTranslations is given.
use civika.Prelude.{
  ◌≡◌, ◌≢◌, refl, sym, ap, ◌∙◌, subst, true, ◌&&◌, Option, none, some, List, [], ◌∷◌, map, All,
  All-of-In, All-at, In, In-map, In-map-cases, In-keep, In-of-keep, inl, inr, Bool-cases,
  Option-cases, if◌then◌else◌, arith,
}
use civika.Text.{Str, eqb, Runtime}
use civika.Text.Laws.{eq_refl, eqb_iff, eq_of_eqb}
use civika.GoMap.{Map, lookup, insert, lookup-insert, keys, Distinct}
use civika.Langs.{normalize_or_fallback}
use civika.Rag.Document.{Document}
use civika.Rag.IndexSkip.{group_of, group_documents}
use civika.Rag.IndexSkip.Filter.{with_id, groups-with_id, In-keys}
use civika.Rag.EnsureTranslations.{by_language, with_language}
use civika.Rag.EnsureTranslations.Labels.{label}
use civika.Rag.EnsureTranslations.Pairs.{groups-Distinct}
use civika.Rag.EnsureTranslations.Groups.{IsGroup}

-- The last document with an identifier whose language is resolved to the one that is asked for.
unfoldable pub last_of :
    {S : Type 0} → Runtime → List Str → Str → List (Document S) → Str → Str → Option (Document S)
last_of rt supported default_lang [] id lang = none
last_of rt supported default_lang (d ∷ docs) id lang =
    elim (last_of rt supported default_lang docs id lang) [
      | some found ↦ some found
      | none ↦
          if eqb d.id id && eqb (normalize_or_fallback rt d.language default_lang supported) lang
          then some d
          else none
    ]

-- A group is all documents with an identifier, and there is one.
abbrev pub IsGroupOf : {S : Type 0} → List (Document S) → Str × List (Document S) → Type 0
IsGroupOf documents (k, docs) = (docs ≡ with_id k documents) × (docs ≢ [])

lookup_of_In :
    {V : Type 0} (k : Str) (v : V) (m : Map V)
    → Distinct m
    → In {A = Str × V} (k, v) m
    → lookup k m ≡ some v
unfolding lookup
lookup_of_In k v [] d i = elim i [ ]
lookup_of_In {V} k v ((j, u) ∷ m) d (inl e) =
    let key : k ≡ j = ap (λ (p : Str × V). p.0) e in
    let value : v ≡ u = ap (λ (p : Str × V). p.1) e in rw (key, eq_refl j, value) refl
lookup_of_In {V} k v ((j, u) ∷ m) d (inr i) = elim (Bool-cases (eqb j k)) [
  | inr t ↦ rw t (lookup_of_In k v m d.1 i)
  | inl t ↦
      let found : lookup k m ≡ some v = lookup_of_In k v m d.1 i in
      absurd (let e = eq_of_eqb j k t in let gone : lookup j m ≡ none = d.0 in ground arith)
]

module _ {S : Type 0} where
  with_id-All : (k : Str) (docs : List (Document S)) → All (λ d. d.id ≡ k) (with_id k docs)
  with_id-All k [] = tt
  with_id-All k (d ∷ docs) = elim (Bool-cases (eqb d.id k)) [
    | inl t ↦ rw t (eq_of_eqb d.id k t, with_id-All k docs)
    | inr t ↦ rw t (with_id-All k docs)
  ]

  pub IsGroupOf-All :
      (documents : List (Document S)) (k : Str) (docs : List (Document S))
      → IsGroupOf documents (k, docs)
      → All (λ d. d.id ≡ k) docs
  IsGroupOf-All documents k docs (e, filled) =
      subst (All (λ (d : Document S). d.id ≡ k)) (sym e) (with_id-All k documents)

  pub IsGroupOf-In :
      (documents : List (Document S)) (k : Str) (docs : List (Document S))
      → IsGroupOf documents (k, docs)
      → In k (map (λ d. d.id) documents)
  IsGroupOf-In documents k [] (e, filled) = absurd (filled refl)
  IsGroupOf-In documents k (d ∷ docs) (e, filled) =
      let (i, t) = In-of-keep d (λ x. eqb x.id k) documents (subst (In d) e (inl refl)) in
      subst (λ z. In z (map (λ (x : Document S). x.id) documents)) (eq_of_eqb d.id k t)
        (In-map (λ x. x.id) d documents i)

  module _ (rt : Runtime) (text : Str → S) (package_langs supported : List Str)
      (default_lang : Str) where
    pub last_of-with_id :
        (id lang : Str) (docs : List (Document S))
        → last_of rt supported default_lang (with_id id docs) id lang
          ≡ last_of rt supported default_lang docs id lang
    unfolding last_of
    last_of-with_id id lang [] = refl
    last_of-with_id id lang (d ∷ docs) = elim (Bool-cases (eqb d.id id)) [
      | inl t ↦ rw (t, last_of-with_id id lang docs) refl
      | inr t ↦
          let ih = last_of-with_id id lang docs in
          elim (Option-cases (last_of rt supported default_lang docs id lang)) [
            | inl n ↦ rw (t, ih, n) (rw t refl)
            | inr (found, n) ↦ rw (t, ih, n) refl
          ]
    ]

    pub lookup-by_language :
        (id lang : Str) (docs : List (Document S)) (m : Map (Document S))
        → All (λ d. d.id ≡ id) docs
        → lookup lang (by_language rt text package_langs supported default_lang m docs)
          ≡ elim (last_of rt supported default_lang docs id lang) [
            | some d ↦ some (with_language rt text package_langs supported default_lang d)
            | none ↦ lookup lang m
          ]
    unfolding last_of by_language with_language
    lookup-by_language id lang [] m a = refl
    lookup-by_language id lang (d ∷ docs) m a =
        let labelled = with_language rt text package_langs supported default_lang d in
        lookup-by_language id lang docs (insert labelled.language labelled m) a.1
        ∙ elim (Option-cases (last_of rt supported default_lang docs id lang)) [
          | inr (found, n) ↦ rw n refl
          | inl n ↦
              let same : eqb d.id id ≡ true = (eqb_iff d.id id).1 a.0 in
              elim (Bool-cases (eqb labelled.language lang)) [
                | inl t ↦
                    rw (n, same, t) (lookup-insert labelled.language lang labelled m ∙ rw t refl)
                | inr t ↦
                    rw (n, same, t) (lookup-insert labelled.language lang labelled m ∙ rw t refl)
              ]
        ]

  pub group_keys-In :
      (id : Str) (documents : List (Document S))
      → In id (map (λ d. d.id) documents)
      → In id (keys (group_documents [] documents))
  group_keys-In id documents i =
      let (d, j, e) = In-map-cases (λ (x : Document S). x.id) id documents i in
      In-keys id (group_documents [] documents) d (
        subst (In d) (sym (groups-with_id documents id))
          (In-keep d (λ x. eqb x.id id) documents ((eqb_iff d.id id).1 (sym e)) j))

  -- The groups of the documents.
  pub group_documents-IsGroupOf :
      (documents : List (Document S))
      → All IsGroup (group_documents [] documents)
      → All (IsGroupOf documents) (group_documents [] documents)
  unfolding group_of
  group_documents-IsGroupOf documents h =
      All-of-In (IsGroupOf documents) (group_documents [] documents) (λ g i.
        let found : group_of (group_documents [] documents) g.0 ≡ g.1 =
          rw
            (
              group_of,
              lookup_of_In g.0 g.1 (group_documents [] documents) (groups-Distinct documents [] tt)
                  i,
            )
            refl in
        (
          sym found ∙ groups-with_id documents g.0,
          (All-at IsGroup (group_documents [] documents) g h i).0,
        ))

module _ {S : Type 0} (rt : Runtime) (supported : List Str) (default_lang : Str)
    (documents : List (Document S)) where
  -- If there was a document with the identifier and the language, this one has the title and the
  -- content of the last.
  abbrev pub IsKept : Document S → Type 0
  IsKept a =
      (doc : Document S)
      → last_of rt supported default_lang documents a.id a.language ≡ some doc
      → (a.title ≡ doc.title) × (a.content ≡ doc.content)

  pub IsKept-at :
      (a : Document S) (id lang : Str)
      → label a ≡ (id, lang)
      → ((doc : Document S)
          → last_of rt supported default_lang documents id lang ≡ some doc
          → (a.title ≡ doc.title) × (a.content ≡ doc.content))
      → IsKept a
  IsKept-at a id lang e h doc q =
      h doc
        (ap (λ (p : Str × Str). last_of rt supported default_lang documents p.0 p.1) (sym e) ∙ q)

  -- A map of the documents with an identifier, under their languages.
  abbrev pub IsView : (Str → S) → List Str → Str → Map (Document S) → Type 0
  IsView text package_langs id by_lang =
      (lang : Str)
      → lookup lang by_lang ≡ elim (last_of rt supported default_lang documents id lang) [
        | some d ↦ some (with_language rt text package_langs supported default_lang d)
        | none ↦ none
      ]

  pub by_language-IsView :
      (text : Str → S) (package_langs : List Str) (id : Str) (docs : List (Document S))
      → IsGroupOf documents (id, docs)
      → IsView text package_langs id
          (by_language rt text package_langs supported default_lang [] docs)
  unfolding lookup
  by_language-IsView text package_langs id docs g lang =
      let same : last_of rt supported default_lang docs id lang
          ≡ last_of rt supported default_lang documents id lang =
        ap (λ l. last_of rt supported default_lang l id lang) g.0
        ∙ last_of-with_id rt text package_langs supported default_lang id lang documents in
      lookup-by_language rt text package_langs supported default_lang id lang docs []
        (IsGroupOf-All documents id docs g)
      ∙ rw same refl
