-- ===== src/Rag/EnsureTranslations/Groups.antt =====
-- backend/internal/rag/translate.go: the groups of documents, and the source of a group.
use civika.Prelude.{
  ◌≡◌, ◌≢◌, refl, subst, some, List, [], ◌∷◌, ◌++◌, All, All-append, Bool-cases, Option-cases, inl,
  inr,
}
use civika.Text.{Str, eqb, codes, Runtime}
use civika.Text.Laws.{eq_of_eqb, eq_refl}
use civika.GoMap.{Map, lookup, insert, lookup-insert}
use civika.Rag.Document.{Document}
use civika.Rag.IndexState.{first_preferred, pick_source_document}
use civika.Rag.IndexSkip.{add_to_group, group_documents}
use civika.Rag.EnsureTranslations.{by_language, with_language}

-- The documents of a group have its identifier, and there is one.
abbrev pub IsGroup : {S : Type 0} → Str × List (Document S) → Type 0
IsGroup (doc_id, docs) = (docs ≢ []) × All (λ doc. doc.id ≡ doc_id) docs

-- A map from languages to documents with one identifier.
abbrev pub IsByLanguage : {S : Type 0} → Str → Map (Document S) → Type 0
IsByLanguage {S} doc_id m =
    (lang : Str) (doc : Document S)
    → lookup lang m ≡ some doc
    → (doc.id ≡ doc_id) × (doc.language ≡ lang)

insert_filled : {V : Type 0} (k : Str) (v : V) (m : Map V) → insert k v m ≢ []
unfolding insert
insert_filled k v [] = λ e. cc
insert_filled k v ((j, w) ∷ m) = elim (Bool-cases (eqb j k)) [
  | inl t ↦ rw t (λ e. cc)
  | inr t ↦ rw t (λ e. cc)
]

All-insert :
    {V : Type 0} (P : Str × V → Type 0) (k : Str) (v : V) (m : Map V)
    → P (k, v)
    → All P m
    → All P (insert k v m)
unfolding insert
All-insert P k v [] p h = (p, tt)
All-insert P k v ((j, w) ∷ m) p h = elim (Bool-cases (eqb j k)) [
  | inl t ↦ rw t (p, h.1)
  | inr t ↦ rw t (h.0, All-insert P k v m p h.1)
]

module _ {S : Type 0} where
  insert-IsByLanguage :
      (doc_id : Str) (doc : Document S) (m : Map (Document S))
      → doc.id ≡ doc_id
      → IsByLanguage doc_id m
      → IsByLanguage doc_id (insert doc.language doc m)
  insert-IsByLanguage doc_id doc m e h lang found q = elim (Bool-cases (eqb doc.language lang)) [
    | inl t ↦
        let i : some doc ≡ some found = rw (lookup-insert, t) at q in
        subst (λ d. (d.id ≡ doc_id) × (d.language ≡ lang)) (let j : doc ≡ found = cc in j)
          (e, eq_of_eqb doc.language lang t)
    | inr t ↦ h lang found (rw (lookup-insert, t) at q)
  ]

  first_preferred_id :
      (doc_id : Str) (m : Map (Document S)) (langs : List Str) (doc : Document S)
      → IsByLanguage doc_id m
      → first_preferred m langs ≡ some doc
      → doc.id ≡ doc_id
  unfolding first_preferred
  first_preferred_id doc_id m [] doc h q = absurd cc
  first_preferred_id doc_id m (lang ∷ langs) doc h q = elim (Option-cases (lookup lang m)) [
    | inl n ↦ first_preferred_id doc_id m langs doc h (rw (first_preferred, n) at q)
    | inr (found, n) ↦
        let i : some found ≡ some doc = rw (first_preferred, n) at q in
        subst (λ d. d.id ≡ doc_id) (let j : found ≡ doc = cc in j) ((h lang found n).0)
  ]

  pub pick_source_document_id :
      (doc_id : Str) (m : Map (Document S)) (supported : List Str)
      → IsByLanguage doc_id m
      → m ≢ []
      → (doc : Document S) × (pick_source_document m supported ≡ some doc) × (doc.id ≡ doc_id)
  unfolding pick_source_document lookup
  pick_source_document_id doc_id [] supported h e = absurd (e refl)
  pick_source_document_id doc_id ((k, d) ∷ m) supported h e =
      elim (Option-cases (
        first_preferred ((k, d) ∷ m)
          (codes "en" ∷ codes "fr" ∷ codes "de" ∷ codes "it" ∷ codes "rm" ∷ supported))) [
            | inl n ↦
                (d, rw (pick_source_document, n) refl, (h k d (rw (lookup, eq_refl k) refl)).0)
            | inr (doc, n) ↦ (
              doc,
              rw (pick_source_document, n) refl,
              first_preferred_id doc_id ((k, d) ∷ m)
                  (codes "en" ∷ codes "fr" ∷ codes "de" ∷ codes "it" ∷ codes "rm" ∷ supported) doc h
                  n,
            )
          ]

  module _ (rt : Runtime) (text : Str → S) (package_langs supported : List Str)
      (default_lang : Str) where
    pub by_language-IsByLanguage :
        (doc_id : Str) (m : Map (Document S)) (docs : List (Document S))
        → All (λ doc. doc.id ≡ doc_id) docs
        → IsByLanguage doc_id m
        → IsByLanguage doc_id (by_language rt text package_langs supported default_lang m docs)
    unfolding by_language with_language
    by_language-IsByLanguage doc_id m [] a h = h
    by_language-IsByLanguage doc_id m (doc ∷ docs) a h =
        let labelled = with_language rt text package_langs supported default_lang doc in
        by_language-IsByLanguage doc_id (insert labelled.language labelled m) docs a.1
          (insert-IsByLanguage doc_id labelled m a.0 h)

    by_language_kept :
        (m : Map (Document S)) (docs : List (Document S))
        → m ≢ []
        → by_language rt text package_langs supported default_lang m docs ≢ []
    unfolding by_language
    by_language_kept m [] h = h
    by_language_kept m (doc ∷ docs) h =
        let labelled = with_language rt text package_langs supported default_lang doc in
        by_language_kept (insert labelled.language labelled m) docs
          (insert_filled labelled.language labelled m)

    pub by_language_filled :
        (docs : List (Document S))
        → docs ≢ []
        → by_language rt text package_langs supported default_lang [] docs ≢ []
    unfolding by_language
    by_language_filled [] h = absurd (h refl)
    by_language_filled (doc ∷ docs) h =
        let labelled = with_language rt text package_langs supported default_lang doc in
        by_language_kept (insert labelled.language labelled []) docs
          (insert_filled labelled.language labelled [])

  lookup-IsGroup :
      (m : Map (List (Document S))) (k : Str) (docs : List (Document S))
      → All IsGroup m
      → lookup k m ≡ some docs
      → IsGroup (k, docs)
  unfolding lookup
  lookup-IsGroup [] k docs h q = absurd cc
  lookup-IsGroup ((j, found) ∷ m) k docs h q = elim (Bool-cases (eqb j k)) [
    | inl t ↦
        let i : some found ≡ some docs = rw (lookup, t) at q in
        subst (λ d. IsGroup (k, d)) (let e : found ≡ docs = cc in e)
          (subst (λ l. IsGroup (l, found)) (eq_of_eqb j k t) h.0)
    | inr t ↦ lookup-IsGroup m k docs h.1 (rw (lookup, t) at q)
  ]

  append_filled : (docs : List (Document S)) (doc : Document S) → docs ++ doc ∷ [] ≢ []
  append_filled [] doc = λ e. cc
  append_filled (d ∷ docs) doc = λ e. cc

  add_to_group-IsGroup :
      (doc : Document S) (m : Map (List (Document S)))
      → All IsGroup m
      → All IsGroup (add_to_group doc m)
  unfolding add_to_group
  add_to_group-IsGroup doc m h = elim (Option-cases (lookup doc.id m)) [
    | inl n ↦
        rw (add_to_group, n) (All-insert IsGroup doc.id (doc ∷ []) m ((λ e. cc), (refl, tt)) h)
    | inr (docs, n) ↦
        let g = lookup-IsGroup m doc.id docs h n in
        rw (add_to_group, n)
          (All-insert IsGroup doc.id (docs ++ doc ∷ []) m
            (append_filled docs doc, All-append _ docs (doc ∷ []) g.1 (refl, tt)) h)
  ]

  pub group_documents-IsGroup :
      (m : Map (List (Document S))) (docs : List (Document S))
      → All IsGroup m
      → All IsGroup (group_documents m docs)
  unfolding group_documents
  group_documents-IsGroup m [] h = h
  group_documents-IsGroup m (doc ∷ docs) h =
      group_documents-IsGroup (add_to_group doc m) docs (add_to_group-IsGroup doc m h)
