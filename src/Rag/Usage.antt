-- ===== src/Rag/Usage.antt =====
-- backend/internal/rag/usage_metrics.go: usage events. A context is its scope and whether it has an
-- emitter; an instant is its number of nanoseconds since Go's zero time, which is 0.
pub mod Sanitize
use civika.Prelude.{
  ℕ, Bool, true, false, ◌&&◌, ◌||◌, Option, none, some, List, [], ◌∷◌, ◌==◌, if◌then◌else◌,
}
use civika.Prelude.Int.{ℤ, pos, negsuc, ltb_ℤ}
use civika.Prelude.Result.{Result, ok, err}
use civika.Text.{Str, codes, eqb, trim_space}
use civika.Text.Atoi.{add_int}
use civika.Float.{FloatOps}
use civika.Rag.Metadata.{end, entry}
use civika.Rag.Json.{JsonMap, JsonOps, at, int_from_any}

pub record UsageScope : Type 0 where
  pub flow : Str
  pub mode : Str
  pub run_id : Str
  pub request_id : Str
  pub document_id : Str

pub record UsageEvent : Type 0 where
  pub event_id : Str
  pub created_at : ℕ
  pub flow : Str
  pub operation : Str
  pub mode : Str
  pub provider_name : Str
  pub model_name : Str
  pub run_id : Str
  pub request_id : Str
  pub document_id : Str
  pub source_lang : Str
  pub target_lang : Str
  pub input_chars : ℤ
  pub output_chars : ℤ
  pub input_tokens : ℤ
  pub output_tokens : ℤ
  pub total_tokens : ℤ
  pub usage_source : Str
  pub status : Str
  pub duration_ms : ℤ
  pub error_code : Str

-- The zero value of the struct.
abbrev pub no_usage : UsageEvent
no_usage = record {
  event_id = [];
  created_at = 0;
  flow = [];
  operation = [];
  mode = [];
  provider_name = [];
  model_name = [];
  run_id = [];
  request_id = [];
  document_id = [];
  source_lang = [];
  target_lang = [];
  input_chars = pos 0;
  output_chars = pos 0;
  input_tokens = pos 0;
  output_tokens = pos 0;
  total_tokens = pos 0;
  usage_source = [];
  status = [];
  duration_ms = pos 0;
  error_code = [];
}

-- `WithUsageDocumentID`
unfoldable pub with_usage_document_id : Str → UsageScope → UsageScope
unfolding trim_space
with_usage_document_id document_id scope = record scope { document_id = trim_space document_id }

-- `if strings.TrimSpace(field) == "" { field = other }`
unfoldable pub or_if_blank : Str → Str → Str
unfolding trim_space
or_if_blank field other = if eqb (trim_space field) [] then other else field

-- The event that `emitUsageEvent` hands to the emitter.
unfoldable pub filled : UsageScope → ℕ → UsageEvent → UsageEvent
unfolding or_if_blank
filled scope now event = record event {
  flow = or_if_blank event.flow scope.flow;
  mode = or_if_blank event.mode scope.mode;
  run_id = or_if_blank event.run_id scope.run_id;
  request_id = or_if_blank event.request_id scope.request_id;
  document_id = or_if_blank event.document_id scope.document_id;
  created_at = if event.created_at == 0 then now else event.created_at;
  usage_source = or_if_blank event.usage_source (codes "unknown");
  status = or_if_blank event.status (codes "success");
}

-- What the emitter is given: nothing if there is none.
unfoldable pub emit_usage_event : Bool → UsageScope → ℕ → UsageEvent → List UsageEvent
unfolding filled
emit_usage_event has_emitter scope now event =
    if has_emitter then filled scope now event ∷ [] else []

unfoldable pub is_zero : ℤ → Bool
is_zero (pos n) = n == 0
is_zero (negsuc n) = false

-- `if n == 0 { n = other }`
unfoldable pub or_if_zero : ℤ → ℤ → ℤ
unfolding is_zero
or_if_zero n other = if is_zero n then other else n

module _ {F F32 : Type 0} (fl : FloatOps F F32) where
  unfoldable pub usage_of : JsonMap F → UsageEvent
  unfolding at int_from_any or_if_zero is_zero add_int
  usage_of usage =
      let input =
        or_if_zero (int_from_any fl (at (codes "prompt_tokens") usage))
          (int_from_any fl (at (codes "input_tokens") usage)) in
      let output =
        or_if_zero (int_from_any fl (at (codes "completion_tokens") usage))
          (int_from_any fl (at (codes "output_tokens") usage)) in
      let total =
        or_if_zero (int_from_any fl (at (codes "total_tokens") usage)) (add_int input output) in
      record no_usage {
        input_tokens = input;
        output_tokens = output;
        total_tokens = total;
        usage_source =
            if is_zero input && is_zero output && is_zero total
            then codes "unknown"
            else codes "provider";
      }

  -- `none` for the error of `json.Unmarshal`.
  unfoldable pub parse_usage_from_response_body : JsonOps F → Str → Option UsageEvent
  unfolding usage_of
  parse_usage_from_response_body js raw = elim (js.decode_usage raw) [
    | none ↦ none
    | some usage ↦ elim usage [
      | end ↦ some (record no_usage { usage_source = codes "unknown" })
      | entry k v m ↦ some (usage_of (entry k v m))
    ]
  ]

-- `if n < 0 { n = 0 }`
unfoldable pub not_negative : ℤ → ℤ
not_negative n = if ltb_ℤ n (pos 0) then pos 0 else n

-- `if field == "" { field = other }`
unfoldable pub or_if_empty : Str → Str → Str
or_if_empty field other = if eqb field [] then other else field

-- The event that `sanitizeUsageEvent` returns at the time `now`, where `generateUsageEventID` returns `fresh`.
unfoldable pub sanitized : ℕ → Str → UsageEvent → UsageEvent
unfolding trim_space or_if_empty not_negative or_if_zero add_int
sanitized now fresh event =
    let input = not_negative event.input_tokens in
    let output = not_negative event.output_tokens in
    record {
      event_id = or_if_empty event.event_id fresh;
      created_at = if event.created_at == 0 then now else event.created_at;
      flow = trim_space event.flow;
      operation = trim_space event.operation;
      mode = trim_space event.mode;
      provider_name = or_if_empty (trim_space event.provider_name) (codes "unknown");
      model_name = or_if_empty (trim_space event.model_name) (codes "unknown");
      run_id = trim_space event.run_id;
      request_id = trim_space event.request_id;
      document_id = trim_space event.document_id;
      source_lang = trim_space event.source_lang;
      target_lang = trim_space event.target_lang;
      input_chars = not_negative event.input_chars;
      output_chars = not_negative event.output_chars;
      input_tokens = input;
      output_tokens = output;
      total_tokens = or_if_zero (not_negative event.total_tokens) (add_int input output);
      usage_source = or_if_empty (trim_space event.usage_source) (codes "unknown");
      status = or_if_empty (trim_space event.status) (codes "success");
      duration_ms = not_negative event.duration_ms;
      error_code = trim_space event.error_code;
    }

-- `none` for its error.
unfoldable pub sanitize_usage_event : ℕ → Str → UsageEvent → Option UsageEvent
unfolding trim_space sanitized
sanitize_usage_event now fresh event =
    if eqb (trim_space event.flow) []
      || eqb (trim_space event.operation) []
      || eqb (trim_space event.mode) []
    then none
    else some (sanitized now fresh event)

-- The limit and the offset of `normalizeUsagePagination`.
unfoldable pub normalize_usage_pagination : ℤ → ℤ → ℤ × ℤ
unfolding not_negative
normalize_usage_pagination limit offset =
    let least = if ltb_ℤ limit (pos 1) then pos 100 else limit in
    (if ltb_ℤ (pos 1000) least then pos 1000 else least, not_negative offset)

unfoldable pub max_int : ℤ → ℤ → ℤ
max_int value min_value = if ltb_ℤ value min_value then min_value else value
