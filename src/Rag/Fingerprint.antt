-- ===== src/Rag/Fingerprint.antt =====
-- backend/internal/rag/index_skip.go: the hashes of a document, and the metadata that carries them.
-- `text` makes a scalar metadata value of a string.
use civika.Prelude.{ℕ, not, ◌&&◌, ◌||◌, Option, none, some, List, [], ◌∷◌, ◌++◌, map, if◌then◌else◌}
use civika.Text.{Str, codes, eqb, Runtime, trim_space, trim_byte, fields, join, hex}
use civika.Rag.Metadata.{MetaMap, scalar, put, sanitize_metadata_map}
use civika.Rag.Document.{Document}

abbrev pub confidence_high : Str
confidence_high = codes "high"

abbrev pub confidence_low : Str
confidence_low = codes "low"

-- `normalizeWhitespace` of ingest.go.
unfoldable pub normalize_whitespace : Str → Str
unfolding fields join
normalize_whitespace input = join (codes " ") (fields input)

-- A time that is not set is empty.
unfoldable pub format_time : Runtime → Option ℕ → Str
format_time rt none = []
format_time rt (some t) = rt.format_utc t

unfoldable pub build_translation_source_hash : Runtime → Str → Str → Str → Str
unfolding trim_space hex
build_translation_source_hash rt source_lang title content = hex (
    rt.sha256 (
      trim_space source_lang
      ++ (codes "|" ++ (trim_space title ++ (codes "|" ++ trim_space content)))))

module _ {S : Type 0} (rt : Runtime) where
  unfoldable pub document_content_hash : Document S → Str
  unfolding normalize_whitespace trim_space hex
  document_content_hash doc =
      let lang = trim_space doc.language in
      let title = trim_space doc.title in
      let content = normalize_whitespace doc.content in
      if eqb title [] && eqb content []
      then []
      else hex (rt.sha256 (lang ++ (codes "|" ++ (title ++ (codes "|" ++ content)))))

  -- The fingerprint and the confidence in it.
  unfoldable pub source_fingerprint_for_document : Document S → Str × Str
  unfolding format_time trim_space trim_byte join hex
  source_fingerprint_for_document doc =
      let issued_at = format_time rt doc.source.issued_at in
      let modified_at = format_time rt doc.source.modified_at in
      let base = join (codes "|") (
        trim_space doc.source.source_system
        ∷ trim_space doc.source.external_id
        ∷ trim_space doc.source.source_uri
        ∷ issued_at
        ∷ modified_at
        ∷ []) in
      if eqb (trim_byte b'|' base) [] then ([], confidence_low) else (
        hex (rt.sha256 base),
        if not (eqb issued_at []) || not (eqb modified_at [])
            then confidence_high
            else confidence_low,
      )

  module _ (text : Str → S) where
    -- The two keys of a fingerprint, if there is one.
    unfoldable pub put_fingerprint : Str × Str → MetaMap S → MetaMap S
    unfolding put
    put_fingerprint (fingerprint, confidence) m =
        if eqb fingerprint []
        then m
        else put (codes "index_source_fingerprint_confidence") (scalar (text confidence))
            (put (codes "index_source_fingerprint") (scalar (text fingerprint)) m)

    unfoldable pub put_content_hash : Str → MetaMap S → MetaMap S
    unfolding put
    put_content_hash content_hash m =
        if eqb content_hash []
        then m
        else put (codes "index_content_hash") (scalar (text content_hash)) m

    unfoldable pub with_index_metadata : Document S → Document S
    unfolding document_content_hash source_fingerprint_for_document put_fingerprint put_content_hash
        sanitize_metadata_map
    with_index_metadata doc =
        let fingerprint = source_fingerprint_for_document doc in
        record doc {
          metadata = sanitize_metadata_map rt (
              put_fingerprint fingerprint
                (put_content_hash (document_content_hash doc) doc.metadata));
          source = record doc.source {
            extra = sanitize_metadata_map rt (put_fingerprint fingerprint doc.source.extra);
          };
        }

    unfoldable pub prepare_documents_for_index : List (Document S) → List (Document S)
    unfolding with_index_metadata
    prepare_documents_for_index documents = map with_index_metadata documents
