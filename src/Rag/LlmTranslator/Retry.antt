-- ===== src/Rag/LlmTranslator/Retry.antt =====
-- backend/internal/rag/translate.go: the attempts of LLMTranslator.Translate.
use civika.Prelude.{
  ℕ, zero, suc, ◌≤◌, ◌<◌, ◌≡◌, ◌≢◌, ◌⊎◌, refl, sym, subst, ap, ◌∙◌, Bool, true, false, none, some,
  [], ◌||◌, if◌then◌else◌, Bool-cases, inl, inr, arith,
}
use civika.Prelude.Int.{ℤ, pos, negsuc, ltb_ℤ}
use civika.Prelude.Result.{Result, ok, err}
use civika.Text.{Str, eqb, Runtime, trim_space}
use civika.Float.{FloatOps}
use civika.Rag.Json.{JsonOps}
use civika.Rag.Usage.{UsageScope}
use civika.Rag.Translator.{TranslationRequest, TranslateError, no_explicit_error}
use civika.Rag.ChatClient.{Net, World}
use civika.Rag.LlmTranslator.{
  LlmTranslatorConfig, translate_once, goes_on, attempts, translate, new_llm_translator,
}
use civika.Rag.LlmTranslator.Attempt.{Sent-explicit, translate_once-cases}

module _ {F F32 : Type 0} (rt : Runtime) (fl : FloatOps F F32) (js : JsonOps F)
    (cfg : LlmTranslatorConfig) (net : Net) (scope : UsageScope)
    (request : TranslationRequest) where
  abbrev pub once : World → World × Result TranslateError Str × Bool
  once w = translate_once rt fl js cfg net scope request w

  abbrev pub continues : World → Bool
  continues w = goes_on rt fl js cfg net scope (once w)

  -- The state before attempt number `k`, counted from 0.
  abbrev pub state_before : ℕ → World → World
  state_before zero w = w
  state_before (suc k) w = state_before k (once w).0

  -- The attempts stop at number `k`: at the first one that does not go on, or at the last.
  pub record StopsAt (k n : ℕ) (w : World) (out : World × Result TranslateError Str) : Type 0 where
    pub in_range : k ≤ n
    pub went_on : (j : ℕ) → j < k → continues (state_before j w) ≡ true
    pub stopped : (continues (state_before k w) ≡ false) ⊎ (k ≡ n)
    pub outcome : out ≡ ((once (state_before k w)).0, (once (state_before k w)).1)

  went_on_suc :
      (w : World) (k : ℕ)
      → continues w ≡ true
      → ((j : ℕ) → j < k → continues (state_before j (once w).0) ≡ true)
      → (j : ℕ) → j < suc k
      → continues (state_before j w) ≡ true
  went_on_suc w k t h zero l = t
  went_on_suc w k t h (suc j) l = h j (omega arith)

  pub attempts-StopsAt :
      (n : ℕ) (w : World) → (k : ℕ) × StopsAt k n w (attempts rt fl js cfg net scope n request w)
  unfolding attempts
  attempts-StopsAt zero w = (
    0,
    record {
      in_range = omega arith;
      went_on = λ j l. absurd (omega arith);
      stopped = inr refl;
      outcome = refl;
    },
  )
  attempts-StopsAt (suc n) w = elim (Bool-cases (continues w)) [
    | inl t ↦
        let (k, s) = attempts-StopsAt n (once w).0 in
        (
          suc k,
          record {
            in_range = omega (arith, s.in_range);
            went_on = went_on_suc w k t s.went_on;
            stopped = elim s.stopped [ inl f ↦ inl f | inr e ↦ inr (ap suc e) ];
            outcome = rw (attempts, t) s.outcome;
          },
        )
    | inr t ↦ (
      0,
      record {
        in_range = omega arith;
        went_on = λ j l. absurd (omega arith);
        stopped = inl t;
        outcome = rw (attempts, t) refl;
      },
    )
  ]

  once_explicit : (w : World) → (once w).1 ≢ err no_explicit_error
  once_explicit w = elim (translate_once-cases rt fl js cfg net scope request) [
    | inl (r, e, h) ↦ λ x. e (ap (λ a. a.1) (sym (h w)) ∙ x)
    | inr h ↦ Sent-explicit rt fl js cfg net scope w (once w) (h w)
  ]

  pub translate_attempts :
      (n : ℕ) (w : World)
      → cfg.max_retries ≡ pos n
      → translate rt fl js cfg net scope request w ≡ attempts rt fl js cfg net scope n request w
  unfolding translate
  translate_attempts n w e =
      ap
        (λ m. elim m [
          | pos i ↦ attempts rt fl js cfg net scope i request w
          | negsuc i ↦ (w, err no_explicit_error)
        ])
        e

  kept_retries : (n : ℤ) → (m : ℕ) × ((if ltb_ℤ n (pos 0) then pos 0 else n) ≡ pos m)
  kept_retries (pos n) = (n, ground arith)
  kept_retries (negsuc n) = (0, ground arith)

  retries_limit :
      (raw : LlmTranslatorConfig)
      → new_llm_translator raw ≡ some cfg
      → (n : ℕ) × (cfg.max_retries ≡ pos n)
  unfolding new_llm_translator
  retries_limit raw made = elim (Bool-cases raw.enabled) [
    | inl t ↦
        elim (Bool-cases (eqb (trim_space raw.base_url) [] || eqb (trim_space raw.model_name) [])) [
          | inl b ↦ absurd (let i : none ≡ some cfg = rw (t, b) at made in cc)
          | inr b ↦
              let i : some _ ≡ some cfg = rw (t, b) at made in
              let q : (if ltb_ℤ raw.max_retries (pos 0) then pos 0 else raw.max_retries)
                  ≡ cfg.max_retries =
                ap (λ o. elim o [ none ↦ pos 0 | some c ↦ c.max_retries ]) i in
              let (m, e) = kept_retries raw.max_retries in (m, sym q ∙ e)
        ]
    | inr t ↦ absurd (let i : none ≡ some cfg = rw t at made in cc)
  ]

  -- For a translator that NewLLMTranslator makes, with a limit of n retries: the loop of Translate
  -- returns in an attempt k of at most n, which is the first that does not go on (success, an error
  -- that is final, a cancelled context) or the n-th, with the state and the result of that attempt;
  -- the error after the loop is never returned.
  pub translate-StopsAt :
      (raw : LlmTranslatorConfig) (w : World)
      → new_llm_translator raw ≡ some cfg
      → (n : ℕ) × (k : ℕ) × (cfg.max_retries ≡ pos n)
        × StopsAt k n w (translate rt fl js cfg net scope request w)
        × ((translate rt fl js cfg net scope request w).1 ≢ err no_explicit_error)
  translate-StopsAt raw w made =
      let (n, e) = retries_limit raw made in
      let (k, s) = attempts-StopsAt n w in
      let q = translate_attempts n w e in
      (
        n,
        k,
        e,
        subst (StopsAt k n w) (sym q) s,
        λ x. once_explicit (state_before k w) (ap (λ a. a.1) (sym (q ∙ s.outcome)) ∙ x),
      )

  ok_stops :
      (a : World × Result TranslateError Str × Bool) (text : Str)
      → a.1 ≡ ok text
      → goes_on rt fl js cfg net scope a ≡ false
  unfolding goes_on
  ok_stops (w, ok t, b) text e = refl
  ok_stops (w, err x, b) text e = absurd cc

  -- A success that the attempts reach is returned.
  attempts_succeed :
      (n k : ℕ) (w : World) (text : Str)
      → k ≤ n
      → ((j : ℕ) → j < k → continues (state_before j w) ≡ true)
      → (once (state_before k w)).1 ≡ ok text
      → (attempts rt fl js cfg net scope n request w).1 ≡ ok text
  unfolding attempts
  attempts_succeed zero zero w text l h e = e
  attempts_succeed zero (suc k) w text l h e = absurd (omega arith)
  attempts_succeed (suc n) zero w text l h e = rw (attempts, ok_stops (once w) text e) e
  attempts_succeed (suc n) (suc k) w text l h e =
      rw (attempts, h 0 (omega arith))
        (attempts_succeed n k (once w).0 text (omega arith) (λ j m. h (suc j) (omega arith)) e)

  -- If an attempt that the limit of retries allows succeeds, and all attempts before it end in errors
  -- that may be retried in a context that is not cancelled, then Translate returns the text of that
  -- attempt.
  pub translate_succeeds :
      (n k : ℕ) (w : World) (text : Str)
      → cfg.max_retries ≡ pos n
      → k ≤ n
      → ((j : ℕ) → j < k → continues (state_before j w) ≡ true)
      → (once (state_before k w)).1 ≡ ok text
      → (translate rt fl js cfg net scope request w).1 ≡ ok text
  translate_succeeds n k w text m l h e =
      ap (λ a. a.1) (translate_attempts n w m) ∙ attempts_succeed n k w text l h e
