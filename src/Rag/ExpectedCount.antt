-- ===== src/Rag/ExpectedCount.antt =====
-- backend/internal/rag/index_skip.go: the number of chunks that a group of documents will give.
use civika.Prelude.{
  ℕ, zero, suc, ◌+◌, not, ◌||◌, List, [], ◌∷◌, length, ltb, leb, ◌==◌, if◌then◌else◌,
}
use civika.Prelude.Int.{ℤ, pos, pos_part, ltb_ℤ}
use civika.Text.{fields}
use civika.Float.{FloatOps}
use civika.Rag.Document.{Document, ChunkConfig}
use civika.Rag.Chunk.{with_defaults, step_of, clamp_end}

-- The loop, from `start` on.
unfoldable pub count_loop : ℕ → ℕ → ℕ → ℕ → ℕ → ℕ
unfolding clamp_end
count_loop zero n size step start = 0
count_loop (suc fuel) n size step start =
    let end = clamp_end (start + size) n in
    let rest = count_loop fuel n size step (start + step) in
    if not (ltb start n) then 0 else if leb end start then 0 else if end == n then 1 else suc rest

unfoldable pub expected_chunk_count_for_tokens : ℕ → ℤ → ℤ → ℕ
unfolding count_loop
expected_chunk_count_for_tokens n chunk_size step =
    if n == 0 || ltb_ℤ chunk_size (pos 1) || ltb_ℤ step (pos 1)
    then 0
    else count_loop n n (pos_part chunk_size) (pos_part step) 0

-- The loop over the documents.
unfoldable pub total_count : {S : Type 0} → ℤ → ℤ → List (Document S) → ℕ
unfolding expected_chunk_count_for_tokens fields
total_count size step [] = 0
total_count size step (doc ∷ docs) =
    let token_count = length (fields doc.content) in
    if token_count == 0
    then total_count size step docs
    else expected_chunk_count_for_tokens token_count size step + total_count size step docs

unfoldable pub expected_chunk_count_for_group :
    {S F F32 : Type 0} → FloatOps F F32 → List (Document S) → ChunkConfig F → ℕ
unfolding with_defaults step_of total_count
expected_chunk_count_for_group fl docs cfg =
    let c = with_defaults fl cfg in
    let step = step_of fl c in
    if length docs == 0
    then 0
    else if ltb_ℤ step (pos 1)
    then 0
    else total_count c.chunk_size_tokens step docs
