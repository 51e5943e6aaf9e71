-- ===== src/Rag/LlmTests.antt =====
-- The theorems on the language model's translator and on usage events at concrete inputs.
use civika.Prelude.{ℕ, zero, suc, ◌<◌, ◌≡◌, ◌≢◌, ◌⊎◌, refl, true, some, arith}
use civika.Prelude.Int.{pos, negsuc}
use civika.Prelude.Result.{ok, err}
use civika.Text.{codes, eqb, trim_space}
use civika.Langs.{normalize}
use civika.Rag.Usage.{UsageEvent, no_usage, sanitize_usage_event, sanitized}
use civika.Rag.Usage.Sanitize.{IsSanitized, sanitize_usage_event-IsSanitized}
use civika.Rag.Translator.{no_explicit_error}
use civika.Rag.LlmTranslator.{new_llm_translator, translate_once, goes_on, translate}
use civika.Rag.LlmTranslator.Retry.{
  continues, once, state_before, StopsAt, translate-StopsAt, translate_succeeds,
}
use civika.Rag.LlmTranslator.Accounted.{IsAccounted, translate-IsAccounted}
use civika.Samples.{plain_runtime, whole}
use civika.Rag.LlmSamples.{plain_json, patient_net, raw_config, config, scope, request, quiet}

made : new_llm_translator raw_config ≡ some config
unfolding new_llm_translator eqb trim_space
made = refl

translate-StopsAt_example :
    (n : ℕ) × (k : ℕ) × (config.max_retries ≡ pos n)
    × StopsAt plain_runtime whole plain_json config patient_net scope request k n quiet
        (translate plain_runtime whole plain_json config patient_net scope request quiet)
    × ((translate plain_runtime whole plain_json config patient_net scope request quiet).1
        ≢ err no_explicit_error)
translate-StopsAt_example =
    translate-StopsAt plain_runtime whole plain_json config patient_net scope request raw_config
      quiet made

translate-IsAccounted_example :
    ((translate plain_runtime whole plain_json config patient_net scope request quiet).0 ≡ quiet)
    ⊎ IsAccounted plain_runtime whole plain_json config patient_net scope request 2 quiet
        (translate plain_runtime whole plain_json config patient_net scope request quiet)
translate-IsAccounted_example =
    translate-IsAccounted plain_runtime whole plain_json config patient_net scope request 2 quiet
      refl refl

first_goes_on :
    (j : ℕ)
    → j < 1
    → continues plain_runtime whole plain_json config patient_net scope request
        (state_before plain_runtime whole plain_json config patient_net scope request j quiet)
      ≡ true
unfolding translate_once goes_on eqb trim_space normalize
first_goes_on zero l = refl
first_goes_on (suc j) l = absurd (omega arith)

second_succeeds :
    (once plain_runtime whole plain_json config patient_net scope request
      (state_before plain_runtime whole plain_json config patient_net scope request 1 quiet)).1
    ≡ ok (codes "Hallo")
unfolding translate_once eqb trim_space normalize
second_succeeds = refl

translate_succeeds_example :
    (translate plain_runtime whole plain_json config patient_net scope request quiet).1
    ≡ ok (codes "Hallo")
translate_succeeds_example =
    translate_succeeds plain_runtime whole plain_json config patient_net scope request 2 1 quiet
      (codes "Hallo") refl (omega arith) first_goes_on second_succeeds

abbrev event : UsageEvent
event = record no_usage {
  flow = codes " rag-index ";
  operation = codes "translation";
  mode = codes "llm";
  input_tokens = pos 3;
  output_tokens = negsuc 4;
}

accepted : sanitize_usage_event 9 (codes "evt") event ≡ some (sanitized 9 (codes "evt") event)
unfolding sanitize_usage_event eqb trim_space
accepted = refl

sanitize_usage_event-IsSanitized_example : IsSanitized (sanitized 9 (codes "evt") event)
sanitize_usage_event-IsSanitized_example =
    sanitize_usage_event-IsSanitized 9 (codes "evt") event (sanitized 9 (codes "evt") event)
      (omega arith) accepted
