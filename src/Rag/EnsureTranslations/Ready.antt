-- ===== src/Rag/EnsureTranslations/Ready.antt =====
-- backend/internal/rag/translate.go: when reuseExistingReadyTranslation reuses a translation of the index.
use civika.Prelude.{
  arith, ℕ, ◌≡◌, ◌≢◌, refl, sym, subst, ap, ◌∙◌, true, none, some, List, [], Bool-cases,
  Option-cases, inl, inr,
}
use civika.Text.{Str, codes, eqb, trim_space, Runtime}
use civika.Text.Laws.{eqb_iff, eqb_empty, not_empty}
use civika.Rag.EnsureTranslations.Labels.{IsCode}
use civika.GoMap.{Map, lookup}
use civika.Rag.Document.{Document}
use civika.Rag.IndexState.{IndexTranslationState, IndexDocumentState}
use civika.Rag.EnsureTranslations.{
  existing_translation, reuse_state, is_reusable, reused, reuse_existing_ready_translation,
}

-- A translation of the index that is ready, has a text, and was made of the source with this hash.
abbrev pub IsReady : Map IndexDocumentState → Str → Str → Str → Type 0
IsReady existing id lang hash =
    (state : IndexDocumentState) × (translation : IndexTranslationState) × (lookup id existing
      ≡ some state)
    × (lookup lang state.translations ≡ some translation)
    × (translation.status ≡ codes "ready")
    × (trim_space translation.content ≢ [])
    × (trim_space translation.source_hash ≢ [])
    × (translation.source_hash ≡ hash)

module _ {S : Type 0} (rt : Runtime) (text : Str → S) (package_langs : List Str)
    (existing : Map IndexDocumentState) (supported : List Str) where
  is_reusable-IsReady :
      (hash : Str) (st : IndexTranslationState)
      → is_reusable rt text package_langs hash st ≡ true
      → (st.status ≡ codes "ready")
        × (trim_space st.content ≢ [])
        × (trim_space st.source_hash ≢ [])
        × (st.source_hash ≡ hash)
  unfolding is_reusable
  is_reusable-IsReady hash st h = (
    (eqb_iff st.status (codes "ready")).0 (ground arith),
    not_empty (trim_space st.content) (ground arith),
    not_empty (trim_space st.source_hash) (ground arith),
    (eqb_iff st.source_hash hash).0 (ground arith),
  )

  IsReady-is_reusable :
      (hash : Str) (st : IndexTranslationState)
      → st.status ≡ codes "ready"
      → trim_space st.content ≢ []
      → trim_space st.source_hash ≢ []
      → st.source_hash ≡ hash
      → is_reusable rt text package_langs hash st ≡ true
  unfolding is_reusable
  IsReady-is_reusable hash st status content filled same =
      let a : eqb st.status (codes "ready") ≡ true = (eqb_iff st.status (codes "ready")).1 status in
      let d : eqb st.source_hash hash ≡ true = (eqb_iff st.source_hash hash).1 same in
      ground (
        arith,
        a,
        d,
        eqb_empty (trim_space st.content) content,
        eqb_empty (trim_space st.source_hash) filled,
      )

  -- The lookup of the reuse.
  reuse_of_code :
      (now : ℕ) (source : Document S) (lang hash : Str)
      → IsCode rt lang
      → reuse_existing_ready_translation rt text package_langs now source lang existing hash
        ≡ reuse_state rt text package_langs now source lang hash
            (existing_translation existing source.id lang)
  unfolding reuse_existing_ready_translation
  reuse_of_code now source lang hash (filled, kept) =
      rw (reuse_existing_ready_translation, kept, eqb_empty lang filled) refl

  pub ready-reused :
      (now : ℕ) (source : Document S) (lang hash : Str)
      → IsCode rt lang
      → IsReady existing source.id lang hash
      → reuse_existing_ready_translation rt text package_langs now source lang existing hash ≢ none
  unfolding existing_translation reuse_state
  ready-reused now source lang hash c (state, st, a, b, status, content, filled, same) e =
      let r = IsReady-is_reusable hash st status content filled same in
      let q : existing_translation existing source.id lang ≡ some st =
        rw (existing_translation, a) b in
      let s : reuse_state rt text package_langs now source lang hash (some st) ≡ none =
        subst (λ o. reuse_state rt text package_langs now source lang hash o ≡ none) q
          (sym (reuse_of_code now source lang hash c) ∙ e) in
      let i : some (reused rt text package_langs now source lang hash st) ≡ none =
        rw (reuse_state, r) at s in
      absurd cc

  reuse_state-IsReady :
      (now : ℕ) (source : Document S) (lang hash : Str) (st : IndexTranslationState)
      → reuse_state rt text package_langs now source lang hash (some st) ≢ none
      → is_reusable rt text package_langs hash st ≡ true
  unfolding reuse_state
  reuse_state-IsReady now source lang hash st h =
      elim (Bool-cases (is_reusable rt text package_langs hash st)) [
        | inl t ↦ t
        | inr t ↦ absurd (h (rw (reuse_state, t) refl))
      ]

  pub reused-ready :
      (now : ℕ) (source : Document S) (lang hash : Str)
      → IsCode rt lang
      → reuse_existing_ready_translation rt text package_langs now source lang existing hash ≢ none
      → IsReady existing source.id lang hash
  unfolding existing_translation reuse_state
  reused-ready now source lang hash c h =
      let state_of = existing_translation existing source.id lang in
      let g : reuse_state rt text package_langs now source lang hash state_of ≢ none =
        λ e. h (reuse_of_code now source lang hash c ∙ e) in
      elim (Option-cases (lookup source.id existing)) [
        | inl n ↦
            let q : state_of ≡ none = rw (existing_translation, n) refl in
            absurd (g (ap (reuse_state rt text package_langs now source lang hash) q))
        | inr (state, n) ↦ elim (Option-cases (lookup lang state.translations)) [
          | inl m ↦
              let q : state_of ≡ none = rw (existing_translation, n) m in
              absurd (g (ap (reuse_state rt text package_langs now source lang hash) q))
          | inr (st, m) ↦
              let q : state_of ≡ some st = rw (existing_translation, n) m in
              let r = reuse_state-IsReady now source lang hash st (
                subst (λ o. reuse_state rt text package_langs now source lang hash o ≢ none) q g) in
              let (w, x, y, z) = is_reusable-IsReady hash st r in (state, st, n, m, w, x, y, z)
        ]
      ]
