-- ===== src/Rag/Translator.antt =====
-- backend/internal/rag/translate.go: what a translator is, and the one of the local mode.
use civika.Prelude.{ℕ}
use civika.Prelude.Result.{Result, err}
use civika.Text.{Str, codes}
use civika.Rag.Usage.{UsageScope}

pub record TranslationRequest : Type 0 where
  pub text : Str
  pub source_lang : Str
  pub target_lang : Str
  pub content_label : Str

-- The interface `Translator`: `W` is the state that a translation reads and changes, and `E` the type
-- of its errors. Of the context a translation takes the scope of its usage events.
pub record Translator (W E : Type 0) : Type 0 where
  pub name : Str
  pub translate : UsageScope → TranslationRequest → W → W × Result E Str

pub data TranslateError : Type 0 where
  disabled text_required languages_invalid create_failed request_failed read_failed : TranslateError
  decode_failed no_choices empty_text reasoning_only no_explicit_error : TranslateError
  status_returned : ℕ → TranslateError

-- `DisabledTranslator`
abbrev pub disabled_translator : {W : Type 0} → Translator W TranslateError
disabled_translator = record {
  name = codes "disabled";
  translate = λ scope request w. (w, err disabled);
}
