-- ===== src/Rag/DebugStats.antt =====
-- backend/internal/rag/debug_stats.go: the counts of the chunks.
pub mod Counts
use civika.Prelude.{
  ℕ, zero, suc, ◌+◌, ◌-◌, Bool, Option, none, some, List, [], ◌∷◌, map, length, get_elem?, ltb, leb,
  ◌==◌, if◌then◌else◌,
}
use civika.Prelude.Int.{ℤ, pos, negsuc}
use civika.Prelude.Sort.{sort_slice}
use civika.Text.{Str, codes, eqb, str_lt}
use civika.Float.{FloatOps}
use civika.GoMap.{Map, lookup, insert}
use civika.Rag.Document.{Document, Chunk}

pub record ChunkTokenStats : Type 0 where
  pub min : ℤ
  pub avg : ℤ
  pub p95 : ℤ
  pub max : ℤ

pub record ChunkCountStat : Type 0 where
  pub key : Str
  pub count : ℕ

pub record TopDocumentStat : Type 0 where
  pub document_id : Str
  pub title : Str
  pub source_path : Str
  pub chunk_count : ℕ

pub record ChunkDebugStats : Type 0 where
  pub document_count : ℕ
  pub chunk_count : ℕ
  pub tokens : ChunkTokenStats
  pub by_language : List ChunkCountStat
  pub by_source : List ChunkCountStat
  pub top_documents : List TopDocumentStat

-- `m[key]++`
unfoldable pub increment : Str → Map ℕ → Map ℕ
unfolding lookup insert
increment key m = insert key (elim (lookup key m) [ none ↦ 1 | some n ↦ n + 1 ]) m

unfoldable pub or_unknown : Str → Str
or_unknown key = if eqb key [] then codes "unknown" else key

unfoldable pub count_keys : List Str → Map ℕ → Map ℕ
unfolding increment or_unknown
count_keys [] m = m
count_keys (key ∷ keys) m = count_keys keys (increment (or_unknown key) m)

unfoldable pub is_count_before : ChunkCountStat → ChunkCountStat → Bool
unfolding str_lt
is_count_before i j = if i.count == j.count then str_lt i.key j.key else ltb j.count i.count

unfoldable pub to_sorted_count_stats : Map ℕ → List ChunkCountStat
unfolding sort_slice is_count_before
to_sorted_count_stats counts =
    sort_slice is_count_before (map (λ e. record { key = e.0; count = e.1 }) counts)

unfoldable pub is_document_before : TopDocumentStat → TopDocumentStat → Bool
unfolding str_lt
is_document_before i j =
    if i.chunk_count == j.chunk_count
    then str_lt i.document_id j.document_id
    else ltb j.chunk_count i.chunk_count

unfoldable pub to_sorted_top_document_stats : Map TopDocumentStat → List TopDocumentStat
unfolding sort_slice is_document_before
to_sorted_top_document_stats m = sort_slice is_document_before (map (λ e. e.1) m)

module _ {S : Type 0} where
  -- The entry of the chunk's document, with one more chunk.
  unfoldable pub counted_document : Chunk S → Option TopDocumentStat → TopDocumentStat
  counted_document chunk none = record {
    document_id = chunk.document_id;
    title = chunk.title;
    source_path = chunk.source_path;
    chunk_count = 1;
  }
  counted_document chunk (some stat) = record stat { chunk_count = stat.chunk_count + 1 }

  unfoldable pub count_documents : List (Chunk S) → Map TopDocumentStat → Map TopDocumentStat
  unfolding counted_document lookup insert
  count_documents [] m = m
  count_documents (chunk ∷ chunks) m =
      count_documents chunks
        (insert chunk.document_id (counted_document chunk (lookup chunk.document_id m)) m)

unfoldable pub sum_ℕ : List ℕ → ℕ
sum_ℕ [] = 0
sum_ℕ (n ∷ ns) = n + sum_ℕ ns

-- `sortedAsc[index]`; the index is in range where it is used.
unfoldable pub token_at : List ℕ → ℕ → ℤ
token_at sorted_asc index = elim (get_elem? sorted_asc index) [ none ↦ pos 0 | some n ↦ pos n ]

-- The rank, from 1, to an index within the list.
unfoldable pub index_of_rank : ℕ → ℤ → ℕ
index_of_rank n (ℤ.negsuc r) = 0
index_of_rank n (ℤ.pos zero) = 0
index_of_rank n (ℤ.pos (suc index)) = if leb n index then n - 1 else index

module _ {F F32 : Type 0} (fl : FloatOps F F32) where
  unfoldable pub percentile95 : List ℕ → ℤ
  unfolding token_at index_of_rank
  percentile95 [] = pos 0
  percentile95 (t ∷ ts) =
      let n = length (t ∷ ts) in
      let rank = fl.to_int (fl.ceil (fl.mul (fl.decimal 95 2) (fl.of_int (pos n)))) in
      token_at (t ∷ ts) (index_of_rank n rank)

  unfoldable pub token_stats : List ℕ → ChunkTokenStats
  unfolding sum_ℕ sort_slice token_at percentile95
  token_stats tokens =
      let sorted = sort_slice ltb tokens in
      let average = fl.div (fl.of_int (pos (sum_ℕ tokens))) (fl.of_int (pos (length tokens))) in
      record {
        min = token_at sorted 0;
        avg = fl.to_int (fl.round average);
        p95 = percentile95 sorted;
        max = token_at sorted (length sorted - 1);
      }

  unfoldable pub build_chunk_debug_stats :
      {S : Type 0} → List (Document S) → List (Chunk S) → ChunkDebugStats
  unfolding token_stats count_keys count_documents to_sorted_count_stats
      to_sorted_top_document_stats
  build_chunk_debug_stats documents [] = record {
    document_count = length documents;
    chunk_count = 0;
    tokens = record { min = pos 0; avg = pos 0; p95 = pos 0; max = pos 0 };
    by_language = [];
    by_source = [];
    top_documents = [];
  }
  build_chunk_debug_stats documents (c ∷ cs) = record {
    document_count = length documents;
    chunk_count = length (c ∷ cs);
    tokens = token_stats (map (λ chunk. chunk.token_count) (c ∷ cs));
    by_language = to_sorted_count_stats (count_keys (map (λ chunk. chunk.language) (c ∷ cs)) []);
    by_source =
        to_sorted_count_stats (count_keys (map (λ chunk. chunk.source.source_system) (c ∷ cs)) []);
    top_documents = to_sorted_top_document_stats (count_documents (c ∷ cs) []);
  }
