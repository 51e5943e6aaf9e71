-- ===== src/RagCli/Tests.antt =====
-- The theorems on the indexing at concrete inputs.
use civika.Prelude.{ℕ, ◌≡◌, ◌≢◌, refl, ap, none, some, List, [], ◌∷◌, map, All}
use civika.Prelude.Result.{ok}
use civika.Prelude.StateResult.{Ends}
use civika.Text.{Str, codes, eqb, trim_space}
use civika.Langs.{normalize}
use civika.Rag.Document.{Document}
use civika.Rag.Translator.{Translator, TranslateError}
use civika.Rag.EnsureTranslations.Labels.{IsCode}
use civika.RagCli.{EmbeddedChunk, Job, process_document_group}
use civika.RagCli.Indexed.{IsFailure, IsSuccess, process_document_group-Ends}
use civika.Samples.{plain_runtime, percent, document_of, chunk_config}

-- What was stored, one list for each call.
abbrev Log : Type 0
Log = List (List (EmbeddedChunk Str ℕ))

abbrev echo : Translator Log TranslateError
echo = record { name = codes "echo"; translate = λ s r w. (w, ok r.text) }

abbrev job : Job ℕ Str ℕ Log TranslateError
job = record {
  mode = codes "llm";
  supported_languages = codes "de" ∷ codes "fr" ∷ [];
  default_language = codes "fr";
  scope = record {
    flow = codes "rag-index";
    mode = codes "llm";
    run_id = [];
    request_id = [];
    document_id = [];
  };
  store = record {
    upsert_chunks = λ items w. (items ∷ w, ok tt);
    upsert_index_document_metrics = λ metric w. (w, ok tt);
  };
  usage = none;
  embedder = record { embed_texts = λ s texts w. (w, ok (map (λ t. 1 ∷ []) texts)) };
  translator = some echo;
  existing_state = [];
  chunk_cfg = chunk_config;
  index_run_id = codes "run";
}

abbrev group : List (Document Str)
group = document_of (codes "d1") (codes "eins zwei") ∷ []

job_codes : All (IsCode plain_runtime) job.supported_languages
unfolding normalize eqb trim_space
job_codes = (((λ e. cc), refl), (((λ e. cc), refl), tt))

job_languages : job.supported_languages ≢ []
job_languages e = cc

process_document_group-Ends_example :
    Ends
      (IsSuccess plain_runtime percent
        (λ s. s)
        job.supported_languages
        (λ w. 5)
        job
        group
        (λ w. w ≡ [])
        (λ items w. w ≡ items ∷ []))
      (IsFailure plain_runtime percent
        (λ s. s)
        job.supported_languages
        (λ w. 5)
        job
        group
        (λ w. w ≡ [])
        (λ items w. w ≡ items ∷ []))
      (process_document_group plain_runtime percent
        (λ s. s)
        job.supported_languages
        (λ w. 5)
        job
        group
        [])
unfolding eqb
process_document_group-Ends_example =
    process_document_group-Ends plain_runtime percent (λ s. s) job.supported_languages (λ w. 5) job
      group (λ w. w ≡ []) (λ items w. w ≡ items ∷ []) (λ s texts w i. i)
      (λ items w i a. ap (λ l. items ∷ l) i) (λ items metric w j. j) echo [] (λ s r v i. i) refl
      refl job_languages job_codes refl
