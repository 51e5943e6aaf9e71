-- ===== src/Http/Handler/Called.antt =====
-- backend/internal/http/handlers.go: the calls of the service.
use civika.Prelude.{◌≡◌, refl, none, some, List, ◌⊎◌, inl, inr}
use civika.Prelude.Result.{Result, ok, err}
use civika.Text.{Str, codes, Runtime}
use civika.Services.Models.{QaQueryInput, QaQueryOutput}
use civika.Http.Language.{LanguageError, resolve_qa_language}
use civika.Http.Language.Resolved.{IsServed, resolve_qa_language-IsServed}
use civika.Http.Request.{RequestError, decode_qa_request}
use civika.Http.Request.Safe.{IsSafe, decode_qa_request-IsSafe}
use civika.Http.Handler.{
  api_error, QaRequest, Handled, reply_of, handle_resolved, handle_decoded, qa_query_handler,
}

module _ {F E : Type 0} (rt : Runtime) (supported_langs : List Str) (default_lang : Str)
    (service : QaQueryInput → Result E (QaQueryOutput F)) where
  -- No call and a bad request, or one call with an input that passed the checks, whose result is what
  -- is replied.
  abbrev pub IsGuarded : Handled F → Type 0
  IsGuarded h =
      ((h.called ≡ none) × (h.reply ≡ api_error 400 (codes "invalid_body")))
      ⊎ ((input : QaQueryInput) × (h.called ≡ some input)
          × (h.reply ≡ reply_of (service input))
          × IsSafe input
          × IsServed supported_langs input.language)

  handle_resolved-IsGuarded :
      (body : QaQueryInput) (language : Result LanguageError Str)
      → IsSafe body
      → ((l : Str) → language ≡ ok l → IsServed supported_langs l)
      → IsGuarded (handle_resolved rt supported_langs default_lang service body language)
  unfolding handle_resolved
  handle_resolved-IsGuarded body (err e) safe served = inl (refl, refl)
  handle_resolved-IsGuarded body (ok l) safe served = inr (
    record body { language = l },
    refl,
    refl,
    record {
      asked = safe.asked;
      short = safe.short;
      votation_id = safe.votation_id;
      object_id = safe.object_id;
    },
    served l refl,
  )

  handle_decoded-IsGuarded :
      (r : QaRequest) (decoded : Result RequestError QaQueryInput)
      → ((input : QaQueryInput) → decoded ≡ ok input → IsSafe input)
      → IsGuarded (handle_decoded rt supported_langs default_lang service r decoded)
  unfolding handle_decoded
  handle_decoded-IsGuarded r (err e) safe = inl (refl, refl)
  handle_decoded-IsGuarded r (ok body) safe =
      handle_resolved-IsGuarded body
        (resolve_qa_language rt body.language r.accept_language supported_langs default_lang)
        (safe body refl)
        (λ l.
          resolve_qa_language-IsServed rt body.language r.accept_language supported_langs
            default_lang l)

  -- With a service, for every request: the handler replies with status 400 and calls nothing, or it
  -- calls the service with a question that is not blank and has at most 2000 bytes, with identifiers
  -- without a bar, and with a language that is supported (a code of two lower-case letters where no
  -- language is listed), and replies with the service's answer, or with status 500 if the service
  -- fails.
  pub qa_query_handler-IsGuarded :
      (r : QaRequest)
      → IsGuarded (qa_query_handler rt supported_langs default_lang (some service) r)
  unfolding qa_query_handler
  qa_query_handler-IsGuarded r =
      handle_decoded-IsGuarded r (decode_qa_request rt r.payload r.at_end)
        (decode_qa_request-IsSafe rt r.payload r.at_end)
