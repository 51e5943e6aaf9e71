-- ===== src/Rag/LlmSamples.antt =====
-- Data for the tests of the language model's clients: a net, a configuration, a request.
use civika.Prelude.{ℕ, true, false, some, [], if◌then◌else◌, ◌==◌}
use civika.Prelude.Int.{pos}
use civika.Text.{codes}
use civika.Rag.Metadata.{end, entry, scalar, list, dict, nil, cons}
use civika.Rag.Json.{JsonOps, text}
use civika.Rag.Usage.{UsageScope}
use civika.Rag.ChatClient.{responded, Net, World}
use civika.Rag.Translator.{TranslationRequest}
use civika.Rag.LlmTranslator.{LlmTranslatorConfig}

-- The body of an answer is its text.
abbrev pub plain_json : JsonOps ℕ
plain_json = record {
  decode = λ body. some (
      entry (codes "choices")
        (list (cons (dict (entry (codes "text") (scalar (text body)) end)) nil)) end);
  decode_usage = λ body. some end;
  sprint = λ v. [];
}

-- The first answer is empty, the others are not.
abbrev pub patient_net : Net
patient_net = record {
  is_url = λ url. true;
  exchange = λ n. record {
    response = responded 200 (some (if n == 0 then [] else codes "Hallo"));
    duration_ms = pos 5;
    now = 7;
  };
  is_cancelled = λ n. false;
  has_emitter = true;
}

abbrev pub raw_config : LlmTranslatorConfig
raw_config = record {
  enabled = true;
  base_url = codes "http://llm/";
  api_key = [];
  model_name = codes "m";
  timeout = pos 0;
  max_input_chars = pos 100;
  max_retries = pos 2;
}

abbrev pub config : LlmTranslatorConfig
config = record raw_config { timeout = pos 10000000000 }

abbrev pub scope : UsageScope
scope = record {
  flow = codes "rag-index";
  mode = codes "llm";
  run_id = [];
  request_id = [];
  document_id = [];
}

abbrev pub request : TranslationRequest
request = record {
  text = codes "Bonjour";
  source_lang = codes "fr";
  target_lang = codes "de";
  content_label = codes "title";
}

abbrev pub quiet : World
quiet = record { posted = []; events = [] }
