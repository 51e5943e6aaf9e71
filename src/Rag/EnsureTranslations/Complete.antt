-- ===== src/Rag/EnsureTranslations/Complete.antt =====
-- backend/internal/rag/translate.go: what EnsureMissingTranslations returns.
use civika.Prelude.{
  empty_list, not_empty_list, ℕ, ◌≡◌, ◌≢◌, ◌+◌, refl, sym, subst, ap, ◌∙◌, true, some, List, [],
  map, All, All-at, All-of-In, In, AreDistinct, ◌↔◌, length, length-append, ◌==◌, Bool-cases, inl,
  inr, arith,
}
use civika.Prelude.Int.{pos}
use civika.Prelude.Result.{Result, ok, err}
use civika.Prelude.StateResult.{Ends, Ends-else}
use civika.Text.{Str, codes, Runtime}
use civika.Float.{FloatOps}
use civika.GoMap.{Map, keys}
use civika.Langs.{normalize_or_fallback}
use civika.Rag.Document.{Document}
use civika.Rag.IndexState.{IndexDocumentState}
use civika.Rag.IndexSkip.{group_documents}
use civika.Rag.Json.{JsonOps}
use civika.Rag.Usage.{UsageScope}
use civika.Rag.Translator.{TranslationRequest, Translator}
use civika.Rag.ChatClient.{Net, World}
use civika.Rag.LlmTranslator.{LlmTranslatorConfig, translate, llm_translator}
use civika.Rag.LlmTranslator.Accounted.{translate-IsAccounted}
use civika.Rag.EnsureTranslations.{EnsureError, ensure_missing_translations}
use civika.Rag.EnsureTranslations.Groups.{group_documents-IsGroup}
use civika.Rag.EnsureTranslations.Labels.{label, pairs, IsCode, IsTranslatorError}
use civika.Rag.EnsureTranslations.Pairs.{
  In-pairs, In-of-pairs, pairs-AreDistinct, group_keys-AreDistinct, In-group_keys,
}
use civika.Rag.EnsureTranslations.Inputs.{IsKept, group_documents-IsGroupOf, group_keys-In}
use civika.Rag.EnsureTranslations.Steps.{ensure_groups-Ends}

listed :
    (P : Str → Type 0) (supported : List Str)
    → All P supported
    → All (λ lang. P lang × In lang supported) supported
listed P supported h =
    All-of-In (λ lang. P lang × In lang supported) supported
      (λ lang i. (All-at P supported lang h i, i))

-- The documents have each identifier of the input with each supported language, once, and keep the
-- last title and content that the input has for them.
pub record ArePairs {S : Type 0} (rt : Runtime) (supported : List Str) (default_lang : Str)
    (documents out : List (Document S)) : Type 0 where
  pub once : AreDistinct (map label out)
  pub each :
      (id lang : Str)
      → In {A = Str × Str} (id, lang) (map label out)
        ↔ (In id (map (λ d. d.id) documents) × In lang supported)
  pub kept : All (IsKept rt supported default_lang documents) out

pairs-ArePairs :
    {S : Type 0} (rt : Runtime) (supported : List Str) (default_lang : Str)
    (documents out : List (Document S))
    → AreDistinct supported
    → map label out ≡ pairs (keys (group_documents [] documents)) supported
    → All (IsKept rt supported default_lang documents) out
    → ArePairs rt supported default_lang documents out
pairs-ArePairs {S} rt supported default_lang documents out d e kept =
    let ids = keys (group_documents [] documents) in
    record {
      once =
          subst (AreDistinct {A = Str × Str}) (sym e)
            (pairs-AreDistinct ids supported (group_keys-AreDistinct documents) d);
      each = λ id lang. (
        λ i.
            let (there, j) =
              In-of-pairs id lang ids supported (subst (In {A = Str × Str} (id, lang)) e i) in
            (elim (In-group_keys id documents [] there) [ inl n ↦ elim n [ ] | inr k ↦ k ], j),
        λ (i, j).
            subst (In {A = Str × Str} (id, lang)) (sym e)
              (In-pairs id lang ids supported (group_keys-In id documents i) j),
      );
      kept = kept;
    }

module _ {S W E : Type 0} (rt : Runtime) (text : Str → S) (package_langs : List Str) (clock : W → ℕ)
    (translator : Translator W E) (scope : UsageScope) (existing : Map IndexDocumentState)
    (supported : List Str) (documents : List (Document S)) (default_lang : Str) where
  abbrev ensure : W → W × Result (EnsureError E) (List (Document S))
  ensure w =
      ensure_missing_translations rt text package_langs clock scope existing supported
        (some translator) documents default_lang w

  -- The language of a document without one.
  abbrev fallback : Str
  fallback = normalize_or_fallback rt default_lang (codes "fr") supported

  abbrev pub IsReported : W → EnsureError E → Type 0
  IsReported v x = IsTranslatorError translator scope (map (λ d. d.id) documents) supported v x

  module _ (I : W → Type 0)
      (keeps : (s : UsageScope) (request : TranslationRequest) (w : W)
        → I w
        → I (translator.translate s request w).0) where
    abbrev pub IsDone : W → List (Document S) → Type 0
    IsDone v r =
        I v
        × (map label r ≡ pairs (keys (group_documents [] documents)) supported)
        × All (IsKept rt supported fallback documents) r

    pub ensure-Ends :
        (w : W)
        → I w
        → supported ≢ []
        → All (IsCode rt) supported
        → Ends IsDone (λ v x. I v × IsReported v x) (ensure w)
    unfolding ensure_missing_translations
    ensure-Ends w i filled c =
        let Q : W → EnsureError E → Type 0 = λ v x. I v × IsReported v x in
        elim (Bool-cases (length documents == 0)) [
          | inl t ↦
              rw (ensure_missing_translations, t)
                (
                  i,
                  ap (λ d. pairs (keys (group_documents [] d)) supported)
                      (sym (empty_list documents t)),
                  tt,
                )
          | inr t ↦ Ends-else IsDone Q (length documents == 0) _ _ t (
              Ends-else IsDone Q (length supported == 0) _ _ (not_empty_list supported filled) (
                ensure_groups-Ends rt text package_langs clock translator scope I keeps existing
                  supported fallback documents (listed (IsCode rt) supported c)
                  (group_documents [] documents) [] w i
                  (group_documents-IsGroupOf documents (group_documents-IsGroup [] documents tt))
                  tt))
        ]

  -- The same, without a property of the state.
  ensure-Ends_stateless :
      (w : W)
      → supported ≢ []
      → All (IsCode rt) supported
      → Ends
          (λ v r.
            Unit
            × (map label r ≡ pairs (keys (group_documents [] documents)) supported)
            × All (IsKept rt supported fallback documents) r)
          (λ v x. Unit × IsReported v x)
          (ensure w)
  ensure-Ends_stateless w filled c = ensure-Ends (λ u. Unit) (λ s r u i. tt) w tt filled c

  -- With supported languages that are distinct normalised codes, and at least one: when
  -- EnsureMissingTranslations returns documents, no pair of an identifier and a language stands twice
  -- among them, the pairs are exactly those of an identifier of the input and a supported language,
  -- and a document has the title and the content of the last input document that has its identifier
  -- and, resolved as the code does, its language, if there is one.
  pub ensure_missing_translations-pairs :
      (w v : W) (out : List (Document S))
      → All (IsCode rt) supported
      → supported ≢ []
      → AreDistinct supported
      → ensure w ≡ (v, ok out)
      → ArePairs rt supported fallback documents out
  ensure_missing_translations-pairs w v out c filled d h =
      let P : W → List (Document S) → Type 0 = λ u r.
        Unit
        × (map label r ≡ pairs (keys (group_documents [] documents)) supported)
        × All (IsKept rt supported fallback documents) r in
      let e : Ends P (λ u x. Unit × IsReported u x) (v, ok out) =
        subst (Ends P (λ u x. Unit × IsReported u x)) h (ensure-Ends_stateless w filled c) in
      pairs-ArePairs rt supported fallback documents out d e.1 e.2

  -- With supported languages that are normalised codes, and at least one: an error of
  -- EnsureMissingTranslations names an identifier of the input and a supported language, and wraps an
  -- error that the translator returned for a request with that target language, in a scope with that
  -- identifier, and the state is the one that this request left; a group without a source or an
  -- invalid target language does not occur.
  pub ensure_missing_translations-error :
      (w v : W) (x : EnsureError E)
      → All (IsCode rt) supported
      → supported ≢ []
      → ensure w ≡ (v, err x)
      → IsTranslatorError translator scope (map (λ d. d.id) documents) supported v x
  ensure_missing_translations-error w v x c filled h =
      let P : W → List (Document S) → Type 0 = λ u r.
        Unit
        × (map label r ≡ pairs (keys (group_documents [] documents)) supported)
        × All (IsKept rt supported fallback documents) r in
      let e : Ends P (λ u y. Unit × IsReported u y) (v, err x) =
        subst (Ends P (λ u y. Unit × IsReported u y)) h (ensure-Ends_stateless w filled c) in
      e.1

-- As many events as requests were added since `w`.
abbrev pub IsMatched : World → World → Type 0
IsMatched w v = length v.events + length w.posted ≡ length w.events + length v.posted

module _ {F F32 : Type 0} (rt : Runtime) (fl : FloatOps F F32) (js : JsonOps F)
    (cfg : LlmTranslatorConfig) (net : Net) where
  translate-IsMatched :
      (n : ℕ) (w : World)
      → cfg.max_retries ≡ pos n
      → net.has_emitter ≡ true
      → (scope : UsageScope) (request : TranslationRequest) (u : World) → IsMatched w u
      → IsMatched w (translate rt fl js cfg net scope request u).0
  translate-IsMatched n w e he scope request u m =
      elim (translate-IsAccounted rt fl js cfg net scope request n u e he) [
        | inl q ↦ subst (IsMatched w) (sym q) m
        | inr a ↦
            let v = (translate rt fl js cfg net scope request u).0 in
            let p = ap length a.posts ∙ length-append a.requests u.posted in
            let q = ap length a.emitted in
            omega (arith, p, q, length-append a.earlier u.events, a.one_each)
      ]

  Ends_kept :
      {W X A : Type 0} (I : W → Type 0) (P : W → A → Type 0) (Q : W → X → Type 0)
      (m : W × Result X A)
      → Ends P Q m
      → ((w : W) (a : A) → P w a → I w)
      → ((w : W) (x : X) → Q w x → I w)
      → I m.0
  Ends_kept I P Q (w, ok a) h p q = p w a h
  Ends_kept I P Q (w, err x) h p q = q w x h

  -- With the language model's translator, a limit of retries that is not negative, an emitter, and
  -- supported languages that are normalised codes: EnsureMissingTranslations emits as many usage
  -- events as it posts requests, whether it returns documents or an error.
  pub ensure_missing_translations-IsMatched :
      {S : Type 0} (text : Str → S) (package_langs : List Str) (clock : World → ℕ)
      (scope : UsageScope) (existing : Map IndexDocumentState) (supported : List Str)
      (documents : List (Document S)) (default_lang : Str) (n : ℕ) (w : World)
      → cfg.max_retries ≡ pos n
      → net.has_emitter ≡ true
      → All (IsCode rt) supported
      → supported ≢ []
      → IsMatched w
          (ensure_missing_translations rt text package_langs clock scope existing supported
            (some (llm_translator rt fl js cfg net))
            documents
            default_lang
            w).0
  ensure_missing_translations-IsMatched text package_langs clock scope existing supported documents
        default_lang n w e he c filled =
      let translator = llm_translator rt fl js cfg net in
      let keeps = translate-IsMatched n w e he in
      Ends_kept (IsMatched w)
        (IsDone rt text package_langs clock translator scope existing supported documents
          default_lang (IsMatched w) keeps)
        (λ v x.
          IsMatched w v
          × IsReported rt text package_langs clock translator scope existing supported documents
              default_lang v x)
        _
        (ensure-Ends rt text package_langs clock translator scope existing supported documents
          default_lang (IsMatched w) keeps w refl filled c)
        (λ v r h. h.0) (λ v x h. h.0)
