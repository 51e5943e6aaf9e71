-- ===== src/Rag/Completion.antt =====
-- backend/internal/rag/translate.go: the text of a choice of a chat completion, and the usage of its
-- body.
use civika.Prelude.{
  Bool, true, false, not, ◌&&◌, Option, none, some, [], ◌++◌, ltb, length, if◌then◌else◌,
}
use civika.Text.{Str, codes, eqb, trim_space}
use civika.Float.{FloatOps}
use civika.Rag.Metadata.{MetaList, scalar, list, dict, nil, cons}
use civika.Rag.Json.{JsonScalar, text, JsonValue, JsonMap, JsonOps, at, any_to_string}
use civika.Rag.Usage.{UsageEvent, no_usage, parse_usage_from_response_body}

module _ {F : Type 0} (js : JsonOps F) where
  -- What a part of a content adds: nothing if it is empty.
  unfoldable pub segment_of : JsonValue F → Str
  unfolding trim_space any_to_string at
  segment_of (scalar (text s)) = trim_space s
  segment_of (dict part) =
      let part_type = trim_space (any_to_string js (at (codes "type") part)) in
      if not (eqb part_type [])
        && (not (eqb part_type (codes "text")) && not (eqb part_type (codes "output_text")))
      then []
      else trim_space (any_to_string js (at (codes "text") part))
  segment_of _ = []

  -- The loop over the parts; `b` is the builder.
  unfoldable pub write_parts : Str → MetaList (JsonScalar F) → Str
  unfolding segment_of
  write_parts b nil = b
  write_parts b (cons part parts) =
      let segment = segment_of part in
      write_parts
        (if eqb segment []
          then b
          else if ltb 0 (length b)
          then b ++ (codes "\n" ++ segment)
          else segment)
        parts

  unfoldable pub extract_message_content_text : JsonValue F → Str
  unfolding trim_space write_parts
  extract_message_content_text (scalar (text s)) = trim_space s
  extract_message_content_text (list parts) = trim_space (write_parts [] parts)
  extract_message_content_text _ = []

  unfoldable pub has_reasoning_content : JsonMap F → Bool
  unfolding trim_space any_to_string at
  has_reasoning_content message =
      if not (eqb (trim_space (any_to_string js (at (codes "reasoning_content") message))) [])
      then true
      else not (eqb (trim_space (any_to_string js (at (codes "reasoning") message))) [])

  -- The text that the message of a choice has, and whether it has a reasoning only.
  unfoldable pub message_text : JsonValue F → Str × Bool
  unfolding extract_message_content_text has_reasoning_content at
  message_text (dict message) =
      let content = extract_message_content_text (at (codes "content") message) in
      if not (eqb content []) then (content, false) else ([], has_reasoning_content message)
  message_text _ = ([], false)

  unfoldable pub extract_openai_choice_text : JsonMap F → Str × Bool
  unfolding message_text trim_space any_to_string at
  extract_openai_choice_text choice =
      let (content, reasoning_only) = message_text (at (codes "message") choice) in
      let translated = trim_space (any_to_string js (at (codes "text") choice)) in
      if not (eqb content [])
      then (content, false)
      else if not (eqb translated [])
      then (translated, false)
      else ([], reasoning_only)

  -- `choices[0]`, if it is there and is a map.
  unfoldable pub first_choice : JsonMap F → Option (JsonMap F)
  unfolding at
  first_choice envelope = elim (at (codes "choices") envelope) [
    | list (cons (dict choice) choices) ↦ some choice
    | _ ↦ none
  ]

  -- The usage of a body, or an unknown one.
  unfoldable pub usage_or_unknown : {F32 : Type 0} → FloatOps F F32 → Str → UsageEvent
  unfolding parse_usage_from_response_body
  usage_or_unknown fl body = elim (parse_usage_from_response_body fl js body) [
    | none ↦ record no_usage { usage_source = codes "unknown" }
    | some usage ↦ usage
  ]
