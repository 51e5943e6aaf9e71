-- ===== src/Rag/Chunk.antt =====
-- backend/internal/rag/chunk.go: the chunks of the documents. `supported` is the package's list of
-- supported languages. A loop takes fuel: each round moves the start by the step, which is at least 1,
-- so that the tokens' number of rounds is enough.
pub mod Count
pub mod Cover
use civika.Prelude.{
  ℕ, zero, suc, ◌+◌, ◌-◌, ◌*◌, ◌/◌, ◌≡◌, Bool, true, false, not, ◌&&◌, ◌||◌, Option, none, some,
  List, [], ◌∷◌, ◌++◌, map, length, ltb, leb, ◌==◌, if◌then◌else◌, take, drop,
}
use civika.Prelude.Int.{ℤ, pos, negsuc, pos_part, ltb_ℤ, ◌-ℤ◌}
use civika.Prelude.Result.{Result, ok, err, ◌>>=◌}
use civika.Text.{Str, codes, eqb, Runtime, trim_space, fields, join, itoa_ℕ}
use civika.Float.{FloatOps}
use civika.Langs.{normalize, contains}
use civika.Rag.Document.{Document, Chunk, ChunkConfig}

pub data ChunkError : Type 0 where
  chunk_size chunk_overlap no_documents no_step no_chunks : ChunkError

-- `normalizeLanguage` of ingest.go.
unfoldable pub normalize_language : Runtime → List Str → Str → Str
unfolding normalize contains
normalize_language rt supported lang =
    let l = normalize rt lang in
    if eqb l [] then [] else if not (contains supported l) then [] else l

-- `if end > len(tokens) { end = len(tokens) }`
unfoldable pub clamp_end : ℕ → ℕ → ℕ
clamp_end end n = if ltb n end then n else end

-- `%04d`
unfoldable pub pad4 : ℕ → Str
unfolding itoa_ℕ
pad4 part =
    if ltb part 10
    then codes "000" ++ itoa_ℕ part
    else if ltb part 100
    then codes "00" ++ itoa_ℕ part
    else if ltb part 1000
    then codes "0" ++ itoa_ℕ part
    else itoa_ℕ part

-- `strings.NewReplacer(":", "_", " ", "_")`
unfoldable pub replace_separators : Str → Str
replace_separators = map (λ c. if c == b':' || c == b' ' then b'_' else c)

module _ {F F32 : Type 0} (fl : FloatOps F F32) where
  unfoldable pub with_defaults : ChunkConfig F → ChunkConfig F
  with_defaults c = record {
    chunk_size_tokens =
        if ltb_ℤ c.chunk_size_tokens (pos 0) || ltb_ℤ (pos 0) c.chunk_size_tokens
        then c.chunk_size_tokens
        else pos 768;
    overlap_ratio =
        if fl.eq c.overlap_ratio (fl.of_int (pos 0)) then fl.decimal 15 2 else c.overlap_ratio;
  }

  unfoldable pub validate : ChunkConfig F → Result ChunkError (ChunkConfig F)
  validate c =
      if ltb_ℤ c.chunk_size_tokens (pos 512) || ltb_ℤ (pos 1024) c.chunk_size_tokens
      then err chunk_size
      else if fl.lt c.overlap_ratio (fl.decimal 10 2) || fl.lt (fl.decimal 20 2) c.overlap_ratio
      then err chunk_overlap
      else ok c

  -- `cfg.ChunkSizeTokens - int(float64(cfg.ChunkSizeTokens)*cfg.OverlapRatio)`
  unfoldable pub step_of : ChunkConfig F → ℤ
  unfolding ◌-ℤ◌
  step_of c =
      c.chunk_size_tokens -ℤ fl.to_int (fl.mul (fl.of_int c.chunk_size_tokens) c.overlap_ratio)

module _ {S : Type 0} (rt : Runtime) (supported : List Str) where
  unfoldable pub translation_key : Document S → Str
  unfolding trim_space normalize_language replace_separators
  translation_key doc =
      let key = trim_space doc.translation_id in
      replace_separators (
        if eqb key []
        then doc.id ++ (codes ":" ++ normalize_language rt supported doc.language)
        else key)

  -- The chunk of the tokens from `start` to `end`.
  unfoldable pub chunk_of : Document S → List Str → ℕ → ℕ → ℕ → Chunk S
  unfolding translation_key join pad4
  chunk_of doc tokens start end part = record {
    id = translation_key doc ++ (codes "_chunk_" ++ pad4 part);
    document_id = doc.id;
    translation_id = doc.translation_id;
    language = doc.language;
    source_path = doc.source_path;
    title = doc.title;
    text = join (codes " ") (take (end - start) (drop start tokens));
    token_count = end - start;
    source = doc.source;
    intervenants = doc.intervenants;
    metadata = doc.metadata;
  }

  -- The inner loop, from `start` and `part` on.
  unfoldable pub chunk_loop : ℕ → Document S → List Str → ℕ → ℕ → ℕ → ℕ → List (Chunk S)
  unfolding clamp_end
  chunk_loop zero doc tokens size step start part = []
  chunk_loop (suc fuel) doc tokens size step start part =
      let end = clamp_end (start + size) (length tokens) in
      let chunk = chunk_of doc tokens start end part in
      let rest = chunk_loop fuel doc tokens size step (start + step) (part + 1) in
      if not (ltb start (length tokens))
      then []
      else if leb end start
      then []
      else if end == length tokens
      then chunk ∷ []
      else chunk ∷ rest

  unfoldable pub chunk_document : ℕ → ℕ → Document S → List (Chunk S)
  unfolding fields chunk_loop
  chunk_document size step doc =
      let tokens = fields doc.content in
      if length tokens == 0 then [] else chunk_loop (length tokens) doc tokens size step 0 0

  unfoldable pub chunk_all : ℕ → ℕ → List (Document S) → List (Chunk S)
  unfolding chunk_document
  chunk_all size step [] = []
  chunk_all size step (doc ∷ docs) = chunk_document size step doc ++ chunk_all size step docs

  -- `ChunkDocuments` after the validation of the settings.
  unfoldable pub chunk_validated :
      {F F32 : Type 0}
      → FloatOps F F32
      → List (Document S)
      → ChunkConfig F
      → Result ChunkError (List (Chunk S))
  unfolding step_of chunk_all
  chunk_validated fl documents valid =
      let step = step_of fl valid in
      let chunks = chunk_all (pos_part valid.chunk_size_tokens) (pos_part step) documents in
      if length documents == 0
      then err no_documents
      else if ltb_ℤ step (pos 1)
      then err no_step
      else if length chunks == 0
      then err no_chunks
      else ok chunks

  unfoldable pub chunk_documents :
      {F F32 : Type 0}
      → FloatOps F F32
      → List (Document S)
      → ChunkConfig F
      → Result ChunkError (List (Chunk S))
  unfolding with_defaults validate chunk_validated
  chunk_documents fl documents cfg = do
    valid ← validate fl (with_defaults fl cfg)
    chunk_validated fl documents valid
