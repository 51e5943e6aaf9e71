-- ===== src/Rag/Chunk/Cover.antt =====
-- backend/internal/rag/chunk.go: where the chunks of a document stand among its tokens.
use civika.Prelude.{
  ℕ, zero, suc, ◌+◌, ◌-◌, ◌≤◌, ◌<◌, ◌≡◌, ◌≢◌, refl, false, List, [], ◌∷◌, length, ◌==◌, ◌⊎◌, arith,
  take, drop, min,
}
use civika.Text.{Str, codes, Runtime, fields, join}
use civika.Rag.Document.{Document, Chunk}
use civika.Rag.Chunk.{chunk_of, chunk_loop, chunk_document}

module _ {S : Type 0} (tokens : List Str) (size step : ℕ) where
  -- From `start` on: each chunk has the tokens from its start, `size` of them or all that are left;
  -- the last one, and no other, reaches the end; the next one starts `step` further.
  abbrev pub IsTiling : ℕ → List (Chunk S) → Type 0
  IsTiling start [] = ⊥
  IsTiling start (c ∷ cs) =
      (c.text ≡ join (codes " ") (take c.token_count (drop start tokens)))
      × (c.token_count ≡ min size (length tokens - start))
      × (0 < c.token_count)
      × (((cs ≡ []) × (length tokens ≤ start + size))
          ⊎ ((start + size < length tokens) × IsTiling (start + step) cs))

module _ {S : Type 0} (rt : Runtime) (supported : List Str) (doc : Document S) (tokens : List Str)
    (size step : ℕ) (positive : 0 < step) (overlapping : step ≤ size) where
  chunk_loop-IsTiling :
      (fuel start part : ℕ)
      → start < length tokens
      → length tokens - start ≤ fuel
      → IsTiling tokens size step start
          (chunk_loop rt supported fuel doc tokens size step start part)
  unfolding chunk_loop chunk_of
  chunk_loop-IsTiling zero start part h k = absurd (omega arith)
  chunk_loop-IsTiling (suc fuel) start part h k =
      ground (arith, chunk_loop-IsTiling fuel (start + step) (part + 1))

length_of_nonempty : (tokens : List Str) → tokens ≢ [] → (length tokens == 0) ≡ false
length_of_nonempty [] h = absurd (h refl)
length_of_nonempty (t ∷ tokens) h = ground arith

positive_length : (tokens : List Str) → tokens ≢ [] → 0 < length tokens
positive_length [] h = absurd (h refl)
positive_length (t ∷ tokens) h = omega arith

-- For a positive step that is at most the chunk size, and a document with at least one token: the
-- chunks of the document follow each other by the step from token 0 on, each has the tokens from its
-- start, as many as the chunk size or as are left and at least one, and the last chunk is the only one
-- that reaches the last token, so that no token is lost and the loop's fuel is enough.
pub chunk_document-IsTiling :
    {S : Type 0} (rt : Runtime) (supported : List Str) (size step : ℕ) (doc : Document S)
    → 0 < step
    → step ≤ size
    → fields doc.content ≢ []
    → IsTiling (fields doc.content) size step 0 (chunk_document rt supported size step doc)
unfolding chunk_document
chunk_document-IsTiling rt supported size step doc positive overlapping some_tokens =
    let tokens = fields doc.content in
    rw (length_of_nonempty tokens some_tokens) (
      chunk_loop-IsTiling rt supported doc tokens size step positive overlapping (length tokens) 0 0
        (positive_length tokens some_tokens) (omega arith))
