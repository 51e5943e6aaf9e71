-- ===== src/Http/Handler.antt =====
-- backend/internal/http/handlers.go: `qaQueryHandler` and the rate limit in front of it. The service is
-- an argument, `none` when it is nil; its own error is not shown. Debug logs are left out.
pub mod Called
use civika.Prelude.{
  ℕ, ◌≡◌, refl, sym, Bool, true, false, not, ◌||◌, Option, none, some, List, [], ◌∷◌, if◌then◌else◌,
}
use civika.Prelude.Result.{Result, ok, err}
use civika.Text.{Str, codes, Runtime}
use civika.Services.Models.{QaQueryInput, QaQueryOutput}
use civika.Prelude.Int.{ℤ, pos, ltb_ℤ}
use civika.Float.{FloatOps}
use civika.Http.RateLimit.{Bucket, QaRateLimiter, new_qa_rate_limiter, allow}
use civika.Http.Language.{LanguageError, resolve_qa_language}
use civika.Http.Request.{RequestError, decode_qa_request}

-- What the handler writes: an answer with status 200, or an error with its status and code.
pub data Reply (F : Type 0) : Type 0 where
  answer_json : QaQueryOutput F → Reply F
  api_error : (status : ℕ) (code : Str) → Reply F

-- The request: the decoded body, whether it ends there, and the Accept-Language header.
pub record QaRequest : Type 0 where
  pub payload : Option QaQueryInput
  pub at_end : Bool
  pub accept_language : Str

-- The reply, and the input that the service was called with.
pub record Handled (F : Type 0) : Type 0 where
  pub called : Option QaQueryInput
  pub reply : Reply F

-- The end of the handler, by what the service returned.
unfoldable pub reply_of : {F E : Type 0} → Result E (QaQueryOutput F) → Reply F
reply_of (ok output) = answer_json output
reply_of (err e) = api_error 500 (codes "internal_error")

-- `qaRateLimitMiddleware`: without a positive rate and burst there is no limiter.
unfoldable pub limiter_of_config :
    {L F F32 : Type 0} → FloatOps F F32 → F → ℤ → ℤ → ℕ → Option (QaRateLimiter L)
unfolding new_qa_rate_limiter
limiter_of_config fl qps burst cleanup_interval now =
    let zero_rate = fl.of_int (pos 0) in
    if fl.lt qps zero_rate || fl.eq qps zero_rate || not (ltb_ℤ (pos 0) burst)
    then none
    else some (new_qa_rate_limiter cleanup_interval now)

-- One request of the client `key` behind the limit; `next` is what the handler does with it.
unfoldable pub limited :
    {L F : Type 0}
    → Bucket L
    → Str
    → ℕ
    → Handled F
    → Option (QaRateLimiter L)
    → Option (QaRateLimiter L) × Handled F
unfolding allow
limited bucket key now next none = (none, next)
limited bucket key now next (some l) =
    let r = allow bucket key now l in
    (
      some r.0,
      if r.1
          then next
          else record { called = none; reply = api_error 429 (codes "too_many_requests") },
    )

module _ {F E : Type 0} (rt : Runtime) (supported_langs : List Str) (default_lang : Str) where
  unfoldable pub handle_resolved :
      (QaQueryInput → Result E (QaQueryOutput F))
      → QaQueryInput
      → Result LanguageError Str
      → Handled F
  unfolding reply_of
  handle_resolved service body (err e) = record {
    called = none;
    reply = api_error 400 (codes "invalid_body");
  }
  handle_resolved service body (ok language) =
      let input = record body { language = language } in
      record { called = some input; reply = reply_of (service input) }

  unfoldable pub handle_decoded :
      (QaQueryInput → Result E (QaQueryOutput F))
      → QaRequest
      → Result RequestError QaQueryInput
      → Handled F
  unfolding handle_resolved resolve_qa_language
  handle_decoded service r (err e) = record {
    called = none;
    reply = api_error 400 (codes "invalid_body");
  }
  handle_decoded service r (ok body) =
      handle_resolved service body
        (resolve_qa_language rt body.language r.accept_language supported_langs default_lang)

  unfoldable pub qa_query_handler :
      Option (QaQueryInput → Result E (QaQueryOutput F)) → QaRequest → Handled F
  unfolding handle_decoded decode_qa_request
  qa_query_handler none r = record {
    called = none;
    reply = api_error 503 (codes "service_unavailable");
  }
  qa_query_handler (some service) r =
      handle_decoded service r (decode_qa_request rt r.payload r.at_end)
