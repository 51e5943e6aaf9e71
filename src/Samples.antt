-- ===== src/Samples.antt =====
-- Data for the tests: a runtime, two arithmetics in place of the floating-point one, and the values that
-- the components are run on.
use civika.Prelude.{ℕ, ◌+◌, ◌*◌, ◌/◌, true, none, some, [], ◌∷◌, ltb, ◌==◌}
use civika.Prelude.Int.{pos, pos_part}
use civika.Prelude.Result.{ok, err}
use civika.Text.{Str, codes, Runtime}
use civika.Float.{FloatOps}
use civika.GoMap.{Map}
use civika.Services.Models.{QaQueryOutput, QaQueryInput}
use civika.Services.Keys.{QaCacheContext}
use civika.Services.CacheState.{QaCacheConfig, QaCacheEntry, QaCacheMetrics, QaCache}
use civika.Services.QaService.{Backend, QaService, Times}
use civika.Rag.Metadata.{end, entry, scalar}
use civika.Rag.Document.{SourceMetadata, Document, ChunkConfig}

abbrev pub plain_runtime : Runtime
plain_runtime = record {
  sha256 = λ s. s;
  format_utc = λ n. [];
  lower_wide = λ s. s;
  upper_wide = λ s. s;
}

-- Numbers are whole, or hundredths.
abbrev pub whole : FloatOps ℕ ℕ
whole = record {
  of_int = pos_part;
  to_int = pos;
  widen = λ n. n;
  decimal = λ n k. n;
  add = λ a b. a + b;
  mul = λ a b. a * b;
  div = λ a b. a / b;
  lt = ltb;
  eq = λ a b. a == b;
  sqrt = λ n. n;
  round = λ n. n;
  ceil = λ n. n;
}

abbrev pub percent : FloatOps ℕ ℕ
percent = record whole { mul = λ a b. (a * b) / 100 }

abbrev pub cache_config : QaCacheConfig ℕ
cache_config = record {
  enabled = true;
  exact_ttl = 100;
  exact_max_entries = 2;
  semantic_enabled = true;
  semantic_ttl = 100;
  semantic_max_entries = 2;
  similarity_threshold = 0;
  min_semantic_question_chars = 3;
}

abbrev pub no_events : QaCacheMetrics ℕ
no_events = record {
  exact_hits = 0;
  semantic_hits = 0;
  misses = 0;
  bypass_sensitive_question = 0;
  bypass_semantic_disabled = 0;
  bypass_question_too_short = 0;
  semantic_score_sum_on_hit = 0;
  semantic_score_count_on_hit = 0;
  saved_input_tokens_estimate = 0;
  saved_output_tokens_estimate = 0;
  saved_total_tokens_estimate = 0;
}

abbrev pub answer_ja : QaQueryOutput ℕ
answer_ja = record {
  answer = codes "ja";
  language = codes "de";
  citations = [];
  meta = record { confidence = 0; used_documents = [] };
}

abbrev pub context_zh : QaCacheContext
context_zh = record {
  language = codes "de";
  votation_id = codes "v1";
  object_id = [];
  canton = codes "zh";
  rag_mode = codes "rag";
  embedder_name = codes "e";
  summarizer_name = codes "s";
  top_k = pos 5;
}

abbrev pub entry_at : Str → Str → ℕ → QaCacheEntry ℕ ℕ
entry_at key context_hash time = record {
  key = key;
  question_hash = [];
  context_hash = context_hash;
  question_vector = 1 ∷ 0 ∷ [];
  output = answer_ja;
  created_at = time;
  expires_at = time + 100;
  last_hit_at = time;
  hit_count = 0;
}

-- Three entries, the middle one the oldest.
abbrev pub three_entries : Map (QaCacheEntry ℕ ℕ)
three_entries =
    (codes "a", entry_at (codes "a") [] 7)
    ∷ (codes "b", entry_at (codes "b") [] 5)
    ∷ (codes "c", entry_at (codes "c") [] 9)
    ∷ []

abbrev pub empty_cache : QaCache ℕ ℕ
empty_cache = record {
  cfg = cache_config;
  exact_entries = [];
  semantic_entries = [];
  metrics = no_events;
}

-- A backend that finds nothing, and one whose search fails.
abbrev pub silent : Backend ℕ ℕ Str ℕ
silent = record {
  embedder_name = codes "e";
  embed_query = λ q. ok (1 ∷ []);
  search_similar = λ v k. ok [];
  summarizer_name = codes "s";
  summarize = λ q hits l. ok (codes "ja");
}

abbrev pub broken : Backend ℕ ℕ Str ℕ
broken = record silent { search_similar = λ v k. err 1 }

abbrev pub service_of : Backend ℕ ℕ Str ℕ → QaService ℕ ℕ Str ℕ
service_of b = record { backend = some b; top_k = 5; rag_mode = codes "rag" }

abbrev pub input_of : Str → QaQueryInput
input_of question = record {
  question = question;
  language = codes "de";
  context = record { votation_id = codes "v1"; object_id = []; canton = [] };
  client = record { instance_name = []; version = [] };
}

abbrev pub times_from : ℕ → Times
times_from n = record { at_exact = n; at_semantic = n + 1; at_set = n + 2 }

abbrev pub plain_source : SourceMetadata Str
plain_source = record {
  source_system = codes "swissvotes";
  source_uri = codes "https://x.ch";
  external_id = codes "42";
  source_org = [];
  content_type = [];
  license_uri = [];
  fetched_at_utc = 0;
  issued_at = none;
  modified_at = none;
  available_languages = codes "de" ∷ [];
  extra = end;
}

abbrev pub document_of : Str → Str → Document Str
document_of id content = record {
  id = id;
  translation_id = [];
  language = codes "de";
  source_path = codes "p";
  title = codes "t";
  content = content;
  content_type = [];
  summary = [];
  source = plain_source;
  intervenants = [];
  metadata = entry (codes "email") (scalar (codes "x@y.ch")) end;
}

abbrev pub chunk_config : ChunkConfig ℕ
chunk_config = record { chunk_size_tokens = pos 512; overlap_ratio = 15 }

-- A cache with an answer for the context `context_hash`.
abbrev pub cache_of : Str → QaCache ℕ ℕ
cache_of context_hash = record empty_cache {
  semantic_entries = (codes "k", entry_at (codes "k") context_hash 5) ∷ [];
}
