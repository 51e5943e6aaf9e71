-- ===== src/Rag/SummaryTests.antt =====
-- The theorems on the summaries at concrete inputs.
use civika.Prelude.{ℕ, ◌≢◌, refl, true, [], ◌∷◌}
use civika.Prelude.Int.{pos}
use civika.Text.{Str, codes, trim_space}
use civika.Rag.Document.{SearchHit}
use civika.Rag.Chunk.{chunk_of}
use civika.Rag.LlmTranslator.{cut}
use civika.Rag.Summary.{summarize_deterministically}
use civika.Rag.Summary.Highlights.{IsDigest, summarize_deterministically-IsDigest}
use civika.Rag.SummaryPrompt.{Formats, build_summary_prompt}
use civika.Rag.LlmSummarizer.{LlmSummarizerConfig, summarize}
use civika.Rag.LlmSummarizer.Outcome.{IsSummarized, summarize-IsSummarized}
use civika.Samples.{plain_runtime, whole, document_of}
use civika.Rag.LlmSamples.{plain_json, patient_net, scope, quiet}

abbrev hit : SearchHit ℕ Str
hit = record {
  chunk =
      chunk_of plain_runtime [] (document_of (codes "d1") (codes "eins")) (codes "eins" ∷ []) 0 1 0;
  score = 1;
}

hit_list : hit ∷ [] ≢ []
hit_list e = cc

summarize_deterministically-IsDigest_example :
    IsDigest plain_runtime
      (codes "de")
      (summarize_deterministically plain_runtime (hit ∷ []) (codes "de"))
summarize_deterministically-IsDigest_example =
    summarize_deterministically-IsDigest plain_runtime (hit ∷ []) (codes "de") hit_list

abbrev summary_config : LlmSummarizerConfig
summary_config = record {
  enabled = true;
  base_url = codes "http://llm/";
  api_key = [];
  model_name = codes "m";
  timeout = pos 1;
  max_prompt_chars = pos 4000;
}

abbrev formats : Formats ℕ
formats = record { score = λ n. []; quoted = λ s. s }

asked : trim_space (codes "Warum?") ≢ []
unfolding trim_space
asked e = cc

summarize-IsSummarized_example :
    IsSummarized plain_runtime whole plain_json formats summary_config patient_net scope 2
      (cut (pos 4000) (
        build_summary_prompt formats plain_runtime
          (codes "Warum?")
          (hit ∷ [])
          (pos 4000)
          (codes "de")))
      quiet
      (summarize plain_runtime whole plain_json formats summary_config patient_net scope
        (codes "Warum?")
        (hit ∷ [])
        (codes "de")
        quiet)
summarize-IsSummarized_example =
    summarize-IsSummarized plain_runtime whole plain_json formats summary_config patient_net scope
      (codes "Warum?") (hit ∷ []) (codes "de") quiet refl refl asked hit_list
