-- ===== src/Rag/LlmSummarizer/Report.antt =====
-- backend/internal/rag/query.go: how a round of LLMSummarizer.Summarize ends.
use civika.Prelude.{
  ◌≡◌, ◌≢◌, refl, Bool, true, false, not, ◌&&◌, ◌||◌, none, some, [], length, take, Bool-cases,
  Option-cases, ◌⊎◌, inl, inr, ltb, leb, if◌then◌else◌,
}
use civika.Prelude.Int.{pos}
use civika.Prelude.Result.{Result, ok, err}
use civika.Text.{Str, codes, eqb, Runtime}
use civika.Text.Laws.{not_empty}
use civika.Float.{FloatOps}
use civika.Rag.Json.{JsonOps}
use civika.Rag.Usage.{UsageScope, UsageEvent}
use civika.Rag.Completion.{extract_openai_choice_text, first_choice, usage_or_unknown}
use civika.Rag.ChatClient.{Response, failed, responded, Net, World}
use civika.Rag.LlmTranslator.{with_tokens}
use civika.Rag.Summary.{SummarizeError, empty_summary}
use civika.Rag.SummaryPrompt.{Formats}
use civika.Rag.LlmSummarizer.{
  LlmSummarizerConfig, Round, returns, again, summary_event, failed_round, choice_round,
  envelope_round, response_round, round_of,
}

-- The event of a summary tells its result.
abbrev pub IsToldSummary : Result SummarizeError Str → UsageEvent → Type 0
IsToldSummary (ok text) event =
    (text ≢ [])
    × (event.status ≡ codes "success")
    × (event.output_chars ≡ pos (length text))
    × (event.error_code ≡ [])
IsToldSummary (err error) event =
    (event.status ≡ codes "error") × (event.output_chars ≡ pos 0) × (event.error_code ≢ [])

abbrev IsOpen : UsageEvent → Type 0
IsOpen event =
    (event.status ≡ codes "error") × (event.output_chars ≡ pos 0) × (event.error_code ≡ [])

-- A round that returns tells its result; the last one returns.
abbrev pub IsReport : Bool → Round → Type 0
IsReport is_last (returns result event) = IsToldSummary result event
IsReport is_last again = is_last ≡ false

choice_round-IsReport :
    (is_last : Bool) (c : Str × Bool) (event : UsageEvent)
    → IsOpen event
    → IsReport is_last (choice_round is_last c event)
unfolding choice_round failed_round
choice_round-IsReport is_last (summary, is_reasoning) event (a, b, c) =
    elim (Bool-cases (eqb summary [])) [
      | inr t ↦ rw t (not_empty summary t, refl, refl, c)
      | inl t ↦ rw t (reasoning-IsReport is_last is_reasoning)
    ]
  where
    reasoning-IsReport :
        (l r : Bool)
        → IsReport l (
            if r && not l
            then again
            else failed_round empty_summary
                (if r then codes "reasoning_only" else codes "empty_summary")
                event)
    reasoning-IsReport false true = refl
    reasoning-IsReport true true = (a, b, λ e. cc)
    reasoning-IsReport l false = (a, b, λ e. cc)

pub Round-cases :
    (r : Round)
    → ((result : Result SummarizeError Str) × (event : UsageEvent) × (r ≡ returns result event))
      ⊎ (r ≡ again)
Round-cases (returns result event) = inl (result, event, refl)
Round-cases again = inr refl

module _ {F F32 : Type 0} (rt : Runtime) (fl : FloatOps F F32) (js : JsonOps F)
    (formats : Formats F) (cfg : LlmSummarizerConfig) (net : Net) (scope : UsageScope) where
  envelope_round-IsReport :
      (is_last : Bool) (body : Str) (event : UsageEvent)
      → IsOpen event
      → IsReport is_last (envelope_round rt fl js formats cfg net scope is_last body event)
  unfolding envelope_round failed_round
  envelope_round-IsReport is_last body event (a, b, c) = elim (Option-cases (js.decode body)) [
    | inl n ↦ rw (envelope_round, n) (a, b, λ e. cc)
    | inr (envelope, n) ↦ elim (Option-cases (first_choice js envelope)) [
      | inl m ↦ rw (envelope_round, n, m) (a, b, λ e. cc)
      | inr (choice, m) ↦
          rw (envelope_round, n, m)
            (choice_round-IsReport is_last (extract_openai_choice_text js choice) event (a, b, c))
    ]
  ]

  response_round-IsReport :
      (is_last : Bool) (r : Response) (event : UsageEvent)
      → IsOpen event
      → IsReport is_last (response_round rt fl js formats cfg net scope is_last r event)
  unfolding response_round failed_round with_tokens
  response_round-IsReport is_last failed event (a, b, c) = (a, b, λ e. cc)
  response_round-IsReport is_last (responded status none) event (a, b, c) = (a, b, λ e. cc)
  response_round-IsReport is_last (responded status (some bytes)) event (a, b, c) =
      elim (Bool-cases (ltb status 200 || leb 300 status)) [
        | inl t ↦ rw t (a, b, λ e. cc)
        | inr t ↦ rw t (
            envelope_round-IsReport is_last (take 2097152 bytes)
              (with_tokens (usage_or_unknown js fl (take 2097152 bytes)) event) (a, b, c))
      ]

  pub round_of-IsReport :
      (is_last : Bool) (prompt : Str) (w : World)
      → IsReport is_last (round_of rt fl js formats cfg net scope is_last prompt w)
  unfolding round_of summary_event
  round_of-IsReport is_last prompt w =
      let x = net.exchange (length w.posted) in
      response_round-IsReport is_last x.response (summary_event cfg prompt x.duration_ms)
        (refl, refl, refl)
