-- ===== src/RagCli/Usage.antt =====
-- backend/cmd/rag-cli/main.go: indexUsageCollector, which adds up the usage events of each document. What
-- the writer of the events does is left out: the collector logs its errors, and goes on.
use civika.Prelude.{ℕ, not, ◌&&◌, none, some, List, [], ◌∷◌, length, ◌+◌, if◌then◌else◌}
use civika.Prelude.Int.{ℤ, pos, ltb_ℤ}
use civika.Text.{Str, codes, eqb, trim_space}
use civika.Text.Atoi.{add_int}
use civika.GoMap.{Map, lookup, insert}
use civika.Rag.Usage.{UsageEvent}
use civika.Rag.Document.{Chunk}

-- A set of Go is a map to units.
pub record Accumulator : Type 0 where
  pub embedding_calls : ℕ
  pub embedding_input_chars_sum : ℤ
  pub embedding_input_tokens_sum : ℤ
  pub embedding_total_tokens_sum : ℤ
  pub llm_input_tokens_sum : ℤ
  pub llm_output_tokens_sum : ℤ
  pub llm_total_tokens_sum : ℤ
  pub attempted_targets : Map {0} Unit
  pub succeeded_targets : Map {0} Unit

-- `byDocument`
abbrev pub IndexUsageCollector : Type 0
IndexUsageCollector = Map Accumulator

abbrev pub no_accumulator : Accumulator
no_accumulator = record {
  embedding_calls = 0;
  embedding_input_chars_sum = pos 0;
  embedding_input_tokens_sum = pos 0;
  embedding_total_tokens_sum = pos 0;
  llm_input_tokens_sum = pos 0;
  llm_output_tokens_sum = pos 0;
  llm_total_tokens_sum = pos 0;
  attempted_targets = [];
  succeeded_targets = [];
}

unfoldable pub max_of : ℤ → ℤ → ℤ
max_of value fallback = if ltb_ℤ value fallback then fallback else value

-- `total += maxInt(n, 0)`
unfoldable pub add_positive : ℤ → ℤ → ℤ
unfolding add_int max_of
add_positive total n = add_int total (max_of n (pos 0))

-- The targets of a translation that go into the two sets.
unfoldable pub with_target : UsageEvent → Accumulator → Accumulator
unfolding trim_space insert
with_target event acc =
    let target = trim_space event.target_lang in
    if not (eqb target []) && not (eqb target (trim_space event.source_lang))
    then record acc {
      attempted_targets = insert target tt acc.attempted_targets;
      succeeded_targets =
          if eqb (trim_space event.status) (codes "success")
          then insert target tt acc.succeeded_targets
          else acc.succeeded_targets;
    }
    else acc

-- The switch of `Emit`.
unfoldable pub accumulate : UsageEvent → Accumulator → Accumulator
unfolding add_positive with_target
accumulate event acc =
    if eqb event.operation (codes "embedding")
    then record acc {
      embedding_calls = acc.embedding_calls + 1;
      embedding_input_chars_sum = add_positive acc.embedding_input_chars_sum event.input_chars;
      embedding_input_tokens_sum = add_positive acc.embedding_input_tokens_sum event.input_tokens;
      embedding_total_tokens_sum = add_positive acc.embedding_total_tokens_sum event.total_tokens;
    }
    else if eqb event.operation (codes "translation")
    then with_target event (record acc {
      llm_input_tokens_sum = add_positive acc.llm_input_tokens_sum event.input_tokens;
      llm_output_tokens_sum = add_positive acc.llm_output_tokens_sum event.output_tokens;
      llm_total_tokens_sum = add_positive acc.llm_total_tokens_sum event.total_tokens;
    })
    else acc

unfoldable pub emit_usage : UsageEvent → IndexUsageCollector → IndexUsageCollector
unfolding trim_space lookup insert accumulate
emit_usage event c =
    let doc_id = trim_space event.document_id in
    let acc : Accumulator = elim (lookup doc_id c) [ none ↦ no_accumulator | some acc ↦ acc ] in
    if eqb doc_id [] then c else insert doc_id (accumulate event acc) c

pub record Snapshot : Type 0 where
  pub translations_attempted : ℕ
  pub translations_succeeded : ℕ
  pub embedding_calls : ℕ
  pub embedding_input_chars_sum : ℤ
  pub embedding_input_tokens_sum : ℤ
  pub embedding_total_tokens_sum : ℤ
  pub llm_input_tokens_sum : ℤ
  pub llm_output_tokens_sum : ℤ
  pub llm_total_tokens_sum : ℤ

unfoldable pub snapshot_of : Accumulator → Snapshot
snapshot_of acc = record {
  translations_attempted = length acc.attempted_targets;
  translations_succeeded = length acc.succeeded_targets;
  embedding_calls = acc.embedding_calls;
  embedding_input_chars_sum = acc.embedding_input_chars_sum;
  embedding_input_tokens_sum = acc.embedding_input_tokens_sum;
  embedding_total_tokens_sum = acc.embedding_total_tokens_sum;
  llm_input_tokens_sum = acc.llm_input_tokens_sum;
  llm_output_tokens_sum = acc.llm_output_tokens_sum;
  llm_total_tokens_sum = acc.llm_total_tokens_sum;
}

-- The zero snapshot is the one of no event.
unfoldable pub snapshot_document : Str → IndexUsageCollector → Snapshot
unfolding trim_space lookup snapshot_of
snapshot_document document_id c = elim (lookup (trim_space document_id) c) [
  | none ↦ snapshot_of no_accumulator
  | some acc ↦ snapshot_of acc
]

unfoldable pub sum_chunk_tokens : {S : Type 0} → ℤ → List (Chunk S) → ℤ
unfolding add_positive
sum_chunk_tokens total [] = total
sum_chunk_tokens total (chunk ∷ chunks) =
    sum_chunk_tokens (add_positive total (pos chunk.token_count)) chunks
