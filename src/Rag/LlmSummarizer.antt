-- ===== src/Rag/LlmSummarizer.antt =====
-- backend/internal/rag/query.go: LLMSummarizer. The client is that of Rag/ChatClient.
pub mod Report
pub mod Outcome
pub mod Prompts
use civika.Prelude.{
  ℕ, zero, suc, Bool, true, false, not, ◌&&◌, ◌||◌, Option, none, some, List, [], ◌∷◌, ◌++◌, length,
  take, ltb, leb, ◌==◌, if◌then◌else◌,
}
use civika.Prelude.Int.{ℤ, pos, negsuc}
use civika.Prelude.Result.{Result, ok, err}
use civika.Text.{Str, codes, eqb, Runtime, trim_space, itoa_ℕ}
use civika.Float.{FloatOps}
use civika.Rag.Document.{SearchHit}
use civika.Rag.Json.{JsonOps}
use civika.Rag.Usage.{UsageScope, UsageEvent, no_usage, emit_usage_event}
use civika.Rag.Completion.{extract_openai_choice_text, first_choice, usage_or_unknown}
use civika.Rag.ChatClient.{
  or_if_not_positive, Post, Response, failed, responded, Exchange, Net, World, chat_url,
}
use civika.Rag.LlmTranslator.{with_tokens, cut}
use civika.Rag.Summary.{
  SummarizeError, question_required, hits_required, create_failed, request_failed, read_failed,
  decode_failed, no_choices, empty_summary, status_returned,
}
use civika.Rag.SummaryPrompt.{Formats, build_summary_prompt}

pub record LlmSummarizerConfig : Type 0 where
  pub enabled : Bool
  pub base_url : Str
  pub api_key : Str
  pub model_name : Str
  pub timeout : ℤ
  pub max_prompt_chars : ℤ

-- `NewLLMSummarizer`, with `none` for its errors.
unfoldable pub new_llm_summarizer : LlmSummarizerConfig → Option LlmSummarizerConfig
unfolding trim_space or_if_not_positive
new_llm_summarizer cfg =
    if not cfg.enabled
    then none
    else if eqb (trim_space cfg.base_url) [] || eqb (trim_space cfg.model_name) []
    then none
    else some (record cfg {
      timeout = or_if_not_positive cfg.timeout (pos 10000000000);
      max_prompt_chars = or_if_not_positive cfg.max_prompt_chars (pos 4000);
    })

-- A round of the loop returns and emits an event, or it goes on without one.
pub data Round : Type 0 where
  returns : Result SummarizeError Str → UsageEvent → Round
  again : Round

-- The fields that all events of a request have.
unfoldable pub summary_event : LlmSummarizerConfig → Str → ℤ → UsageEvent
summary_event cfg prompt duration_ms = record no_usage {
  operation = codes "summarization";
  provider_name = codes "llm";
  model_name = cfg.model_name;
  input_chars = pos (length prompt);
  usage_source = codes "unknown";
  status = codes "error";
  duration_ms = duration_ms;
}

unfoldable pub failed_round : SummarizeError → Str → UsageEvent → Round
failed_round error error_code event = returns (err error) (record event { error_code = error_code })

-- The text of the first choice; `is_last` is `attempt == maxAttempts-1`.
unfoldable pub choice_round : Bool → Str × Bool → UsageEvent → Round
unfolding failed_round
choice_round is_last (summary, is_reasoning) event =
    if not (eqb summary [])
    then returns (ok summary)
        (record event { output_chars = pos (length summary); status = codes "success" })
    else if is_reasoning && not is_last
    then again
    else failed_round empty_summary
        (if is_reasoning then codes "reasoning_only" else codes "empty_summary") event

module _ {F F32 : Type 0} (rt : Runtime) (fl : FloatOps F F32) (js : JsonOps F)
    (formats : Formats F) (cfg : LlmSummarizerConfig) (net : Net) (scope : UsageScope) where
  unfoldable pub envelope_round : Bool → Str → UsageEvent → Round
  unfolding failed_round first_choice choice_round extract_openai_choice_text
  envelope_round is_last body known = elim (js.decode body) [
    | none ↦ failed_round decode_failed (codes "decode_failed") known
    | some envelope ↦ elim (first_choice js envelope) [
      | none ↦ failed_round no_choices (codes "no_choices") known
      | some choice ↦ choice_round is_last (extract_openai_choice_text js choice) known
    ]
  ]

  -- The body is read before the status is looked at.
  unfoldable pub response_round : Bool → Response → UsageEvent → Round
  unfolding failed_round envelope_round usage_or_unknown with_tokens itoa_ℕ
  response_round is_last failed event = failed_round request_failed (codes "request_failed") event
  response_round is_last (responded status none) event =
      failed_round read_failed (codes "read_failed") event
  response_round is_last (responded status (some bytes)) event =
      let body = take 2097152 bytes in
      let known = with_tokens (usage_or_unknown js fl body) event in
      if ltb status 200 || leb 300 status
      then failed_round (status_returned status) (codes "status_" ++ itoa_ℕ status) known
      else envelope_round is_last body known

  unfoldable pub sent_by : Str → World → World
  unfolding chat_url
  sent_by prompt w = record w {
    posted =
        record {
          url = chat_url cfg.base_url;
          api_key = cfg.api_key;
          model = cfg.model_name;
          prompt = prompt;
        }
        ∷ w.posted;
  }

  unfoldable pub round_of : Bool → Str → World → Round
  unfolding response_round summary_event
  round_of is_last prompt w =
      let x = net.exchange (length w.posted) in
      response_round is_last x.response (summary_event cfg prompt x.duration_ms)

  unfoldable pub returned :
      Str → World → Result SummarizeError Str → UsageEvent → World × Result SummarizeError Str
  unfolding sent_by emit_usage_event
  returned prompt w result event =
      let now = (net.exchange (length w.posted)).now in
      (
        record (sent_by prompt w) {
          events = emit_usage_event net.has_emitter scope now event ++ w.events;
        },
        result,
      )

  -- The rounds from one on that `left` more may follow.
  unfoldable pub rounds : ℕ → Str → World → World × Result SummarizeError Str
  unfolding sent_by round_of returned chat_url
  rounds zero prompt w = elim (net.is_url (chat_url cfg.base_url)) [
    | false ↦ (w, err create_failed)
    | true ↦ elim (round_of true prompt w) [
      | returns result event ↦ returned prompt w result event
      | again ↦ (sent_by prompt w, err empty_summary)
    ]
  ]
  rounds (suc left) prompt w = elim (net.is_url (chat_url cfg.base_url)) [
    | false ↦ (w, err create_failed)
    | true ↦ elim (round_of false prompt w) [
      | returns result event ↦ returned prompt w result event
      | again ↦ rounds left prompt (sent_by prompt w)
    ]
  ]

  -- `LLMSummarizer.Summarize`
  unfoldable pub summarize :
      {S : Type 0} → Str → List (SearchHit F S) → Str → World → World × Result SummarizeError Str
  unfolding trim_space cut build_summary_prompt rounds
  summarize question hits language w =
      if eqb (trim_space question) []
      then (w, err question_required)
      else if length hits == 0
      then (w, err hits_required)
      else rounds 2
          (cut cfg.max_prompt_chars
            (build_summary_prompt formats rt question hits cfg.max_prompt_chars language))
          w
