-- ===== src/Rag/Chunk/Count.antt =====
-- backend/internal/rag/chunk.go and index_skip.go: the number of the chunks.
use civika.Prelude.{
  ℕ, zero, suc, ◌+◌, ◌≡◌, ◌≢◌, refl, ◌∙◌, false, List, [], ◌∷◌, length, length-append, arith,
}
use civika.Prelude.Int.{ℤ, pos, pos_part, ltb_ℤ, ◌≤ℤ◌}
use civika.Prelude.Result.{ok, bind-eq-ok}
use civika.Text.{Str, Runtime, fields}
use civika.Float.{FloatOps}
use civika.Rag.Document.{Document, Chunk, ChunkConfig}
use civika.Rag.Chunk.{
  chunk_loop, chunk_document, chunk_all, chunk_validated, chunk_documents, with_defaults, validate,
  step_of,
}
use civika.Rag.ExpectedCount.{
  count_loop, expected_chunk_count_for_tokens, total_count, expected_chunk_count_for_group,
}

validate-eq-ok :
    {F F32 : Type 0} (fl : FloatOps F F32) (c d : ChunkConfig F)
    → validate fl c ≡ ok d
    → (d ≡ c)
      × (pos 512 ≤ℤ c.chunk_size_tokens)
      × (c.chunk_size_tokens ≤ℤ pos 1024)
      × (fl.lt c.overlap_ratio (fl.decimal 10 2) ≡ false)
      × (fl.lt (fl.decimal 20 2) c.overlap_ratio ≡ false)
unfolding validate
validate-eq-ok fl c d h = ground arith

module _ {S : Type 0} (rt : Runtime) (supported : List Str) where
  length-chunk_loop :
      (fuel : ℕ) (doc : Document S) (tokens : List Str) (size step start part : ℕ)
      → length (chunk_loop rt supported fuel doc tokens size step start part)
        ≡ count_loop fuel (length tokens) size step start
  unfolding chunk_loop count_loop
  length-chunk_loop zero doc tokens size step start part = refl
  length-chunk_loop (suc fuel) doc tokens size step start part =
      ground (arith, length-chunk_loop fuel doc tokens size step (start + step) (part + 1))

  length-chunk_all :
      (size step : ℤ) (docs : List (Document S))
      → ltb_ℤ size (pos 1) ≡ false
      → ltb_ℤ step (pos 1) ≡ false
      → length (chunk_all rt supported (pos_part size) (pos_part step) docs)
        ≡ total_count size step docs
  unfolding chunk_all chunk_document total_count expected_chunk_count_for_tokens
  length-chunk_all size step [] h k = refl
  length-chunk_all size step (doc ∷ docs) h k =
      length-append (chunk_document rt supported (pos_part size) (pos_part step) doc) _
      ∙ ground (
        arith,
        length-chunk_loop (length (fields doc.content)) doc (fields doc.content) (pos_part size)
            (pos_part step) 0 0,
        length-chunk_all size step docs h k,
      )

  -- What `ChunkDocuments` has checked when it returns chunks.
  pub record IsChunked {F F32 : Type 0} (fl : FloatOps F F32) (docs : List (Document S))
      (cfg : ChunkConfig F) (chunks : List (Chunk S)) : Type 0 where
    pub size_low : pos 512 ≤ℤ (with_defaults fl cfg).chunk_size_tokens
    pub size_high : (with_defaults fl cfg).chunk_size_tokens ≤ℤ pos 1024
    pub ratio_low : fl.lt (with_defaults fl cfg).overlap_ratio (fl.decimal 10 2) ≡ false
    pub ratio_high : fl.lt (fl.decimal 20 2) (with_defaults fl cfg).overlap_ratio ≡ false
    pub some_docs : docs ≢ []
    pub step_low : pos 1 ≤ℤ step_of fl (with_defaults fl cfg)
    pub made :
        chunks
        ≡ chunk_all rt supported
            (pos_part (with_defaults fl cfg).chunk_size_tokens)
            (pos_part (step_of fl (with_defaults fl cfg)))
            docs

  chunk_validated-eq-ok :
      {F F32 : Type 0} (fl : FloatOps F F32) (docs : List (Document S)) (c : ChunkConfig F)
      (chunks : List (Chunk S))
      → chunk_validated rt supported fl docs c ≡ ok chunks
      → (docs ≢ [])
        × (pos 1 ≤ℤ step_of fl c)
        × (chunks
            ≡ chunk_all rt supported (pos_part c.chunk_size_tokens) (pos_part (step_of fl c)) docs)
  unfolding chunk_validated
  chunk_validated-eq-ok fl docs c chunks h = ground arith

  -- When ChunkDocuments returns chunks, the settings with their defaults have a chunk size from 512 to
  -- 1024 and an overlap ratio that is neither less than 0.10 nor more than 0.20, there is a document,
  -- the step is at least 1, and the chunks are those of all the documents, one after the other.
  pub chunk_documents-IsChunked :
      {F F32 : Type 0} (fl : FloatOps F F32) (docs : List (Document S)) (cfg : ChunkConfig F)
      (chunks : List (Chunk S))
      → chunk_documents rt supported fl docs cfg ≡ ok chunks
      → IsChunked fl docs cfg chunks
  unfolding chunk_documents
  chunk_documents-IsChunked fl docs cfg chunks h =
      let (d, valid, made) =
        bind-eq-ok (validate fl (with_defaults fl cfg)) (chunk_validated rt supported fl docs) h in
      let (same, low, high, ratio_low, ratio_high) =
        validate-eq-ok fl (with_defaults fl cfg) d valid in
      let (some_docs, step, chunks_eq) =
        chunk_validated-eq-ok fl docs (with_defaults fl cfg) chunks (rw same at made) in
      record {
        size_low = low;
        size_high = high;
        ratio_low = ratio_low;
        ratio_high = ratio_high;
        some_docs = some_docs;
        step_low = step;
        made = chunks_eq;
      }

  -- When ChunkDocuments returns chunks, their number is the one that expectedChunkCountForGroup
  -- computes for the same documents and settings.
  pub chunk_documents-expected :
      {F F32 : Type 0} (fl : FloatOps F F32) (docs : List (Document S)) (cfg : ChunkConfig F)
      (chunks : List (Chunk S))
      → chunk_documents rt supported fl docs cfg ≡ ok chunks
      → length chunks ≡ expected_chunk_count_for_group fl docs cfg
  unfolding expected_chunk_count_for_group
  chunk_documents-expected fl docs cfg chunks h =
      let c = with_defaults fl cfg in
      let k = chunk_documents-IsChunked fl docs cfg chunks h in
      ground (
        arith,
        k.made,
        k.some_docs,
        k.step_low,
        k.size_low,
        length-chunk_all c.chunk_size_tokens (step_of fl c) docs,
      )
