-- ===== src/Rag/LlmTranslator/Attempt.antt =====
-- backend/internal/rag/translate.go: what an attempt of translateOnce posts, emits and returns.
use civika.Prelude.{
  ℕ, ◌≡◌, ◌≢◌, ◌⊎◌, refl, Bool, false, ◌||◌, [], ◌∷◌, ◌++◌, ltb, leb, length, take, Bool-cases,
  Option-cases, inl, inr,
}
use civika.Prelude.Int.{pos}
use civika.Prelude.Result.{Result, ok, err}
use civika.Text.{Str, codes, eqb, Runtime, trim_space}
use civika.Float.{FloatOps}
use civika.Rag.Json.{JsonOps}
use civika.Rag.Usage.{UsageScope, UsageEvent, emit_usage_event}
use civika.Text.Laws.{not_empty}
use civika.Rag.Completion.{extract_openai_choice_text, first_choice, usage_or_unknown}
use civika.Rag.Translator.{
  TranslationRequest, TranslateError, text_required, languages_invalid, create_failed,
  no_explicit_error,
}
use civika.Langs.{normalize}
use civika.Rag.ChatClient.{Post, Response, failed, responded, Net, World, chat_url}
use civika.Rag.LlmTranslator.{
  LlmTranslatorConfig, prepare, Settled, request_event, with_tokens, failing, succeeding,
  choice_settled, body_settled, response_settled, post, cut, build_translation_prompt,
  translate_once,
}

-- The event of an attempt tells its result.
abbrev pub IsTold : Result TranslateError Str → UsageEvent → Type 0
IsTold (ok text) event =
    (text ≢ [])
    × (event.status ≡ codes "success")
    × (event.output_chars ≡ pos (length text))
    × (event.error_code ≡ [])
IsTold (err error) event =
    (error ≢ no_explicit_error)
    × (event.status ≡ codes "error")
    × (event.output_chars ≡ pos 0)
    × (event.error_code ≢ [])

-- The event of a request before its exchange is settled.
abbrev IsOpen : UsageEvent → Type 0
IsOpen event =
    (event.status ≡ codes "error") × (event.output_chars ≡ pos 0) × (event.error_code ≡ [])

abbrev pub IsReport : Settled → Type 0
IsReport s = IsTold s.result s.event

choice_settled-IsReport :
    (c : Str × Bool) (event : UsageEvent) → IsOpen event → IsReport (choice_settled c event)
unfolding choice_settled failing succeeding
choice_settled-IsReport (translated, is_reasoning) event (a, b, c) =
    elim (Bool-cases (eqb translated [])) [
      | inl t ↦ elim (Bool-cases is_reasoning) [
        | inl r ↦ rw (t, r) ((λ e. cc), a, b, λ e. cc)
        | inr r ↦ rw (t, r) ((λ e. cc), a, b, λ e. cc)
      ]
      | inr t ↦ rw t (not_empty translated t, refl, refl, c)
    ]

module _ {F F32 : Type 0} (rt : Runtime) (fl : FloatOps F F32) (js : JsonOps F)
    (cfg : LlmTranslatorConfig) where
  body_settled-IsReport :
      (body : Str) (event : UsageEvent)
      → IsOpen event
      → IsReport (body_settled rt fl js cfg body event)
  unfolding body_settled failing with_tokens
  body_settled-IsReport body event (a, b, c) = elim (Option-cases (js.decode body)) [
    | inl n ↦ rw (body_settled, n) ((λ e. cc), a, b, λ e. cc)
    | inr (envelope, n) ↦ elim (Option-cases (first_choice js envelope)) [
      | inl m ↦ rw (body_settled, n, m) ((λ e. cc), a, b, λ e. cc)
      | inr (choice, m) ↦
          rw (body_settled, n, m)
            (choice_settled-IsReport (extract_openai_choice_text js choice)
              (with_tokens (usage_or_unknown js fl body) event) (a, b, c))
    ]
  ]

  response_settled-IsReport :
      (r : Response) (event : UsageEvent)
      → IsOpen event
      → IsReport (response_settled rt fl js cfg r event)
  unfolding response_settled failing
  response_settled-IsReport failed event (a, b, c) = ((λ e. cc), a, b, λ e. cc)
  response_settled-IsReport (responded status body) event (a, b, c) =
      elim (Bool-cases (ltb status 200 || leb 300 status)) [
        | inl t ↦ rw t ((λ e. cc), a, b, λ e. cc)
        | inr t ↦ elim (Option-cases body) [
          | inl n ↦ rw (t, n) ((λ e. cc), a, b, λ e. cc)
          | inr (bytes, n) ↦ rw (t, n) (body_settled-IsReport (take 2097152 bytes) event (a, b, c))
        ]
      ]

  module _ (net : Net) (scope : UsageScope) where
    -- A request that is sent posts once and emits one event, which tells its result.
    pub data Sent (w : World) : World × Result TranslateError Str × Bool → Type 0 where
      sent :
          (p : Post) (s : Settled) (now : ℕ)
          → IsReport s
          → Sent w (
            record {
              posted = p ∷ w.posted;
              events = emit_usage_event net.has_emitter scope now s.event ++ w.events;
            },
            s.result,
            s.is_retryable,
          )

    -- A request that no attempt sends: each has the same final result, and changes nothing.
    abbrev pub IsUnsent : TranslationRequest → Type 0
    IsUnsent request =
        (r : Result TranslateError Str) × (r ≢ err no_explicit_error)
        × ((w : World) → translate_once rt fl js cfg net scope request w ≡ (w, r, false))

    post-Sent :
        (label text source_lang target_lang : Str) (w : World)
        → Sent w (post rt fl js cfg net scope label text source_lang target_lang w)
    unfolding post request_event
    post-Sent label text source_lang target_lang w =
        let x = net.exchange (length w.posted) in
        let event = request_event cfg text source_lang target_lang x.duration_ms in
        sent
          (record {
            url = chat_url cfg.base_url;
            api_key = cfg.api_key;
            model = cfg.model_name;
            prompt = build_translation_prompt text source_lang target_lang label;
          })
          (response_settled rt fl js cfg x.response event) x.now
          (response_settled-IsReport x.response event (refl, refl, refl))

    pub translate_once-cases :
        (request : TranslationRequest)
        → IsUnsent request
          ⊎ ((w : World) → Sent w (translate_once rt fl js cfg net scope request w))
    unfolding translate_once prepare
    translate_once-cases request = elim (Bool-cases (eqb (trim_space request.text) [])) [
      | inl t ↦ inl (err text_required, (λ e. cc), λ w. rw (translate_once, prepare, t) refl)
      | inr t ↦
          elim (Bool-cases (
            eqb (normalize rt request.source_lang) []
            || eqb (normalize rt request.target_lang) [])) [
              | inl l ↦
                  inl
                    (err languages_invalid, (λ e. cc), λ w. rw (translate_once, prepare, t, l) refl)
              | inr l ↦
                  elim (Bool-cases
                    (eqb (normalize rt request.source_lang) (normalize rt request.target_lang))) [
                      | inl q ↦ inl (
                        ok (trim_space request.text),
                        (λ e. cc),
                        λ w. rw (translate_once, prepare, t, l, q) refl,
                      )
                      | inr q ↦ elim (Bool-cases (net.is_url (chat_url cfg.base_url))) [
                        | inl u ↦ inr (λ w.
                            rw (translate_once, prepare, t, l, q, u)
                              (post-Sent request.content_label
                                (cut cfg.max_input_chars (trim_space request.text))
                                (normalize rt request.source_lang)
                                (normalize rt request.target_lang) w))
                        | inr u ↦ inl (
                          err create_failed,
                          (λ e. cc),
                          λ w. rw (translate_once, prepare, t, l, q, u) refl,
                        )
                      ]
                    ]
            ]
    ]

    IsTold-explicit :
        (r : Result TranslateError Str) (event : UsageEvent)
        → IsTold r event
        → r ≢ err no_explicit_error
    IsTold-explicit (ok text) event h = λ e. cc
    IsTold-explicit (err error) event h = λ e. h.0 (let i : error ≡ no_explicit_error = cc in i)

    pub Sent-explicit :
        (w : World) (a : World × Result TranslateError Str × Bool)
        → Sent w a
        → a.1 ≢ err no_explicit_error
    Sent-explicit w _ (sent p s now h) = IsTold-explicit s.result s.event h
