-- ===== src/Rag/LlmTranslator.antt =====
-- backend/internal/rag/translate.go: LLMTranslator. The requests that were posted and the usage events
-- that were emitted are the state, the latest first; what the service replies to each request, and
-- whether the context is cancelled after it, are arguments.
pub mod Attempt
pub mod Retry
pub mod Accounted
use civika.Prelude.{
  ℕ, zero, suc, Bool, true, false, not, ◌&&◌, ◌||◌, Option, none, some, List, [], ◌∷◌, ◌++◌, ltb,
  leb, length, take, reverse, if◌then◌else◌,
}
use civika.Prelude.Int.{ℤ, pos, negsuc, ltb_ℤ}
use civika.Prelude.Result.{Result, ok, err}
use civika.Text.{Str, codes, eqb, Runtime, trim_space, trim_byte_left, itoa_ℕ}
use civika.Float.{FloatOps}
use civika.Langs.{normalize}
use civika.Rag.Json.{JsonOps}
use civika.Rag.Usage.{UsageScope, UsageEvent, no_usage, emit_usage_event}
use civika.Rag.Completion.{extract_openai_choice_text, first_choice, usage_or_unknown}
use civika.Rag.ChatClient.{
  or_if_not_positive, Post, Response, failed, responded, Exchange, Net, World, chat_url,
}
use civika.Rag.Translator.{
  TranslationRequest, Translator, TranslateError, disabled, text_required, languages_invalid,
  create_failed, request_failed, read_failed, decode_failed, no_choices, empty_text, reasoning_only,
  no_explicit_error, status_returned,
}

-- A timeout is a number of nanoseconds.
pub record LlmTranslatorConfig : Type 0 where
  pub enabled : Bool
  pub base_url : Str
  pub api_key : Str
  pub model_name : Str
  pub timeout : ℤ
  pub max_input_chars : ℤ
  pub max_retries : ℤ

-- `NewLLMTranslator`, with `none` for its errors.
unfoldable pub new_llm_translator : LlmTranslatorConfig → Option LlmTranslatorConfig
unfolding trim_space or_if_not_positive
new_llm_translator cfg =
    if not cfg.enabled
    then none
    else if eqb (trim_space cfg.base_url) [] || eqb (trim_space cfg.model_name) []
    then none
    else some (record cfg {
      timeout = or_if_not_positive cfg.timeout (pos 10000000000);
      max_input_chars = or_if_not_positive cfg.max_input_chars (pos 12000);
      max_retries = if ltb_ℤ cfg.max_retries (pos 0) then pos 0 else cfg.max_retries;
    })

unfoldable pub build_translation_prompt : Str → Str → Str → Str → Str
unfolding trim_space
build_translation_prompt text source_lang target_lang content_label =
    let trimmed = trim_space content_label in
    let label = if eqb trimmed [] then codes "content" else trimmed in
    codes "Translate the following "
    ++ (label
        ++ (codes " from language code "
            ++ (source_lang
                ++ (codes " to language code "
                    ++ (target_lang
                        ++ (codes
                              ". Keep factual meaning, names and numbers unchanged. Return only the translation.\n\n"
                            ++ text))))))

-- What a request comes to before anything is sent.
pub data Prepared : Type 0 where
  refused : TranslateError → Prepared
  unchanged : Str → Prepared
  to_send : Str → Str → Str → Prepared

-- `if len(text) > t.cfg.MaxInputChars { text = text[:t.cfg.MaxInputChars] }`; the limit is positive.
unfoldable pub cut : ℤ → Str → Str
cut (pos n) text = if ltb n (length text) then take n text else text
cut (negsuc n) text = text

unfoldable pub prepare : Runtime → LlmTranslatorConfig → TranslationRequest → Prepared
unfolding trim_space normalize cut
prepare rt cfg request =
    let text = trim_space request.text in
    let source_lang = normalize rt request.source_lang in
    let target_lang = normalize rt request.target_lang in
    if eqb text []
    then refused text_required
    else if eqb source_lang [] || eqb target_lang []
    then refused languages_invalid
    else if eqb source_lang target_lang
    then unchanged text
    else to_send (cut cfg.max_input_chars text) source_lang target_lang

-- What one attempt comes to: its result, whether another attempt may follow, and its event.
pub record Settled : Type 0 where
  pub result : Result TranslateError Str
  pub is_retryable : Bool
  pub event : UsageEvent

-- The fields that all events of a request have.
unfoldable pub request_event : LlmTranslatorConfig → Str → Str → Str → ℤ → UsageEvent
request_event cfg text source_lang target_lang duration_ms = record no_usage {
  operation = codes "translation";
  provider_name = codes "llm";
  model_name = cfg.model_name;
  source_lang = source_lang;
  target_lang = target_lang;
  input_chars = pos (length text);
  usage_source = codes "unknown";
  status = codes "error";
  duration_ms = duration_ms;
}

unfoldable pub with_tokens : UsageEvent → UsageEvent → UsageEvent
with_tokens usage event = record event {
  input_tokens = usage.input_tokens;
  output_tokens = usage.output_tokens;
  total_tokens = usage.total_tokens;
  usage_source = usage.usage_source;
}

unfoldable pub failing : TranslateError → Bool → Str → UsageEvent → Settled
failing error is_retryable error_code event = record {
  result = err error;
  is_retryable = is_retryable;
  event = record event { error_code = error_code };
}

unfoldable pub succeeding : Str → UsageEvent → Settled
succeeding translated event = record {
  result = ok translated;
  is_retryable = false;
  event = record event { output_chars = pos (length translated); status = codes "success" };
}

-- The text of the first choice, once the body is decoded.
unfoldable pub choice_settled : Str × Bool → UsageEvent → Settled
unfolding failing succeeding
choice_settled (translated, is_reasoning) event =
    if eqb translated []
    then if is_reasoning
      then failing reasoning_only true (codes "reasoning_only") event
      else failing empty_text true (codes "empty_text") event
    else succeeding translated event

module _ {F F32 : Type 0} (rt : Runtime) (fl : FloatOps F F32) (js : JsonOps F)
    (cfg : LlmTranslatorConfig) where
  unfoldable pub body_settled : Str → UsageEvent → Settled
  unfolding usage_or_unknown with_tokens failing first_choice choice_settled
      extract_openai_choice_text
  body_settled body event =
      let known = with_tokens (usage_or_unknown js fl body) event in
      elim (js.decode body) [
        | none ↦ failing decode_failed false (codes "decode_failed") known
        | some envelope ↦ elim (first_choice js envelope) [
          | none ↦ failing no_choices true (codes "no_choices") known
          | some choice ↦ choice_settled (extract_openai_choice_text js choice) known
        ]
      ]

  unfoldable pub response_settled : Response → UsageEvent → Settled
  unfolding body_settled failing itoa_ℕ
  response_settled failed event = failing request_failed false (codes "request_failed") event
  response_settled (responded status body) event =
      if ltb status 200 || leb 300 status
      then failing (status_returned status) false (codes "status_" ++ itoa_ℕ status) event
      else elim body [
        | none ↦ failing read_failed false (codes "read_failed") event
        | some bytes ↦ body_settled (take 2097152 bytes) event
      ]

  module _ (net : Net) (scope : UsageScope) where
    -- The exchange of a request: the state, the result and whether another attempt may follow.
    unfoldable pub post : Str → Str → Str → Str → World → World × Result TranslateError Str × Bool
    unfolding chat_url response_settled request_event emit_usage_event build_translation_prompt
    post label text source_lang target_lang w =
        let x = net.exchange (length w.posted) in
        let s =
          response_settled x.response
            (request_event cfg text source_lang target_lang x.duration_ms) in
        (
          record {
            posted =
                record {
                  url = chat_url cfg.base_url;
                  api_key = cfg.api_key;
                  model = cfg.model_name;
                  prompt = build_translation_prompt text source_lang target_lang label;
                }
                ∷ w.posted;
            events = emit_usage_event net.has_emitter scope x.now s.event ++ w.events;
          },
          s.result,
          s.is_retryable,
        )

    -- `translateOnce`
    unfoldable pub translate_once :
        TranslationRequest → World → World × Result TranslateError Str × Bool
    unfolding prepare post chat_url
    translate_once request w = elim (prepare rt cfg request) [
      | refused error ↦ (w, err error, false)
      | unchanged text ↦ (w, ok text, false)
      | to_send text source_lang target_lang ↦
          if not (net.is_url (chat_url cfg.base_url))
          then (w, err create_failed, false)
          else post request.content_label text source_lang target_lang w
    ]

    -- Another attempt follows an error that is retryable, unless the context is cancelled.
    unfoldable pub goes_on : World × Result TranslateError Str × Bool → Bool
    goes_on (w, ok text, is_retryable) = false
    goes_on (w, err error, is_retryable) = is_retryable && not (net.is_cancelled (length w.posted))

    -- The attempts from one on that `left` more may follow.
    unfoldable pub attempts : ℕ → TranslationRequest → World → World × Result TranslateError Str
    unfolding translate_once goes_on
    attempts zero request w = let a = translate_once request w in (a.0, a.1)
    attempts (suc left) request w =
        let a = translate_once request w in
        elim (goes_on a) [ true ↦ attempts left request a.0 | false ↦ (a.0, a.1) ]

    unfoldable pub translate : TranslationRequest → World → World × Result TranslateError Str
    unfolding attempts
    translate request w = elim cfg.max_retries [
      | pos n ↦ attempts n request w
      | negsuc n ↦ (w, err no_explicit_error)
    ]

  abbrev pub llm_translator : Net → Translator World TranslateError
  llm_translator net = record {
    name = codes "llm";
    translate = λ scope request w. translate net scope request w;
  }
