-- ===== src/Rag/Document.antt =====
-- backend/internal/rag/ingest.go, metadata.go, chunk.go and store.go: documents, chunks and hits. `S` is the type of the
-- scalar metadata values; an instant is its number of nanoseconds since Go's zero time.
use civika.Prelude.{ℕ, Option, List}
use civika.Prelude.Int.{ℤ}
use civika.Text.{Str}
use civika.Rag.Metadata.{MetaMap}

pub record Intervenant : Type 0 where
  pub first_name : Str
  pub last_name : Str
  pub role : Str

pub record SourceMetadata (S : Type 0) : Type 0 where
  pub source_system : Str
  pub source_uri : Str
  pub external_id : Str
  pub source_org : Str
  pub content_type : Str
  pub license_uri : Str
  pub fetched_at_utc : ℕ
  pub issued_at : Option ℕ
  pub modified_at : Option ℕ
  pub available_languages : List Str
  pub extra : MetaMap S

pub record Document (S : Type 0) : Type 0 where
  pub id : Str
  pub translation_id : Str
  pub language : Str
  pub source_path : Str
  pub title : Str
  pub content : Str
  pub content_type : Str
  pub summary : Str
  pub source : SourceMetadata S
  pub intervenants : List Intervenant
  pub metadata : MetaMap S

pub record Chunk (S : Type 0) : Type 0 where
  pub id : Str
  pub document_id : Str
  pub translation_id : Str
  pub language : Str
  pub source_path : Str
  pub title : Str
  pub text : Str
  pub token_count : ℕ
  pub source : SourceMetadata S
  pub intervenants : List Intervenant
  pub metadata : MetaMap S

pub record ChunkConfig (F : Type 0) : Type 0 where
  pub chunk_size_tokens : ℤ
  pub overlap_ratio : F

pub record SearchHit (F S : Type 0) : Type 0 where
  pub chunk : Chunk S
  pub score : F
