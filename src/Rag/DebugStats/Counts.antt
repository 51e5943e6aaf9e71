-- ===== src/Rag/DebugStats/Counts.antt =====
-- backend/internal/rag/debug_stats.go: the sums of the counts.
use civika.Prelude.{
  ℕ, ◌+◌, ◌≡◌, refl, ◌∙◌, ap, Bool, Option, none, some, List, [], ◌∷◌, map, length, length-map,
  arith,
}
use civika.Prelude.Sort.{insert_sorted, sort_slice}
use civika.Text.{Str}
use civika.Float.{FloatOps}
use civika.GoMap.{Map, lookup, insert}
use civika.Rag.Document.{Document, Chunk}
use civika.Rag.DebugStats.{
  TopDocumentStat, increment, or_unknown, count_keys, is_count_before, to_sorted_count_stats,
  is_document_before, to_sorted_top_document_stats, counted_document, count_documents,
  build_chunk_debug_stats,
}

-- The sum of a weight over a list.
abbrev pub weigh : {A : Type 0} → (A → ℕ) → List A → ℕ
weigh w [] = 0
weigh w (x ∷ xs) = w x + weigh w xs

module _ {A : Type 0} (w : A → ℕ) (less : A → A → Bool) where
  weigh-insert_sorted : (a : A) (l : List A) → weigh w (insert_sorted less a l) ≡ w a + weigh w l
  unfolding insert_sorted
  weigh-insert_sorted a [] = refl
  weigh-insert_sorted a (b ∷ l) = ground (arith, weigh-insert_sorted a l)

  weigh-sort_slice : (l : List A) → weigh w (sort_slice less l) ≡ weigh w l
  unfolding sort_slice
  weigh-sort_slice [] = refl
  weigh-sort_slice (a ∷ l) =
      weigh-insert_sorted a (sort_slice less l) ∙ ap (λ n. w a + n) (weigh-sort_slice l)

weigh-map :
    {A B : Type 0} (w : B → ℕ) (f : A → B) (l : List A) → weigh w (map f l) ≡ weigh (λ a. w (f a)) l
weigh-map w f [] = refl
weigh-map w f (a ∷ l) = ap (λ n. w (f a) + n) (weigh-map w f l)

-- An entry in place of the one that `lookup` finds changes the sum by the difference.
weigh-insert :
    {V : Type 0} (w : V → ℕ) (k : Str) (v : V) (m : Map V)
    → weigh (λ e. w e.1) (insert k v m) + (elim (lookup k m) [ none ↦ 0 | some u ↦ w u ])
      ≡ weigh (λ e. w e.1) m + w v
unfolding lookup insert
weigh-insert w k v [] = omega arith
weigh-insert w k v ((j, u) ∷ m) = ground (arith, weigh-insert w k v m)

plus_nothing : (n : ℕ) → 0 + n ≡ n
plus_nothing n = omega arith

cancel : (a b o n : ℕ) → a + o ≡ b + n → n ≡ o + 1 → a ≡ b + 1
cancel a b o n p q = omega arith

weigh-insert_one :
    {V : Type 0} (w : V → ℕ) (k : Str) (v : V) (m : Map V)
    → w v ≡ (elim (lookup k m) [ none ↦ 0 | some u ↦ w u ]) + 1
    → weigh (λ e. w e.1) (insert k v m) ≡ weigh (λ e. w e.1) m + 1
weigh-insert_one w k v m h =
    cancel (weigh (λ e. w e.1) (insert k v m)) (weigh (λ e. w e.1) m) _ (w v) (weigh-insert w k v m)
      h

one_more :
    (o : Option ℕ) → (elim o [ none ↦ 1 | some n ↦ n + 1 ]) ≡ (elim o [ none ↦ 0 | some u ↦ u ]) + 1
one_more none = refl
one_more (some n) = refl

weigh-increment : (k : Str) (m : Map ℕ) → weigh (λ e. e.1) (increment k m) ≡ weigh (λ e. e.1) m + 1
unfolding increment
weigh-increment k m = weigh-insert_one (λ n. n) k _ m (one_more (lookup k m))

weigh-count_keys :
    (keys : List Str) (m : Map ℕ)
    → weigh (λ e. e.1) (count_keys keys m) ≡ weigh (λ e. e.1) m + length keys
unfolding count_keys
weigh-count_keys [] m = omega arith
weigh-count_keys (k ∷ keys) m =
    weigh-count_keys keys (increment (or_unknown k) m)
    ∙ (ap (λ n. n + length keys) (weigh-increment (or_unknown k) m) ∙ omega arith)

counts-sum :
    (keys : List Str)
    → weigh (λ c. c.count) (to_sorted_count_stats (count_keys keys [])) ≡ length keys
unfolding to_sorted_count_stats
counts-sum keys =
    weigh-sort_slice (λ c. c.count) is_count_before
      (map (λ e. record { key = e.0; count = e.1 }) (count_keys keys []))
    ∙ (weigh-map (λ c. c.count) (λ e. record { key = e.0; count = e.1 }) (count_keys keys [])
        ∙ (weigh-count_keys keys [] ∙ plus_nothing (length keys)))

module _ {S : Type 0} where
  one_more_chunk :
      (chunk : Chunk S) (o : Option TopDocumentStat)
      → (counted_document chunk o).chunk_count ≡ (elim o [ none ↦ 0 | some u ↦ u.chunk_count ]) + 1
  unfolding counted_document
  one_more_chunk chunk none = refl
  one_more_chunk chunk (some stat) = refl

  weigh-count_documents :
      (chunks : List (Chunk S)) (m : Map TopDocumentStat)
      → weigh (λ e. (e.1).chunk_count) (count_documents chunks m)
        ≡ weigh (λ e. (e.1).chunk_count) m + length chunks
  unfolding count_documents
  weigh-count_documents [] m = omega arith
  weigh-count_documents (c ∷ chunks) m =
      weigh-count_documents chunks
        (insert c.document_id (counted_document c (lookup c.document_id m)) m)
      ∙ (ap (λ n. n + length chunks)
            (weigh-insert_one (λ s. s.chunk_count) c.document_id _ m
              (one_more_chunk c (lookup c.document_id m)))
          ∙ omega arith)

  documents-sum :
      (chunks : List (Chunk S))
      → weigh (λ s. s.chunk_count) (to_sorted_top_document_stats (count_documents chunks []))
        ≡ length chunks
  unfolding to_sorted_top_document_stats
  documents-sum chunks =
      weigh-sort_slice (λ s. s.chunk_count) is_document_before
        (map (λ e. e.1) (count_documents chunks []))
      ∙ (weigh-map (λ s. s.chunk_count) (λ e. e.1) (count_documents chunks [])
          ∙ (weigh-count_documents chunks [] ∙ plus_nothing (length chunks)))

  -- For all documents and chunks: the sorted counts by language, by source and by document each add up
  -- to the number of chunks.
  pub build_chunk_debug_stats-sums :
      {F F32 : Type 0} (fl : FloatOps F F32) (documents : List (Document S))
      (chunks : List (Chunk S))
      → (weigh (λ c. c.count) (build_chunk_debug_stats fl documents chunks).by_language
          ≡ length chunks)
        × (weigh (λ c. c.count) (build_chunk_debug_stats fl documents chunks).by_source
            ≡ length chunks)
        × (weigh (λ s. s.chunk_count) (build_chunk_debug_stats fl documents chunks).top_documents
            ≡ length chunks)
  unfolding build_chunk_debug_stats
  build_chunk_debug_stats-sums fl documents [] = (refl, refl, refl)
  build_chunk_debug_stats-sums fl documents (c ∷ cs) = (
    counts-sum (map (λ chunk. chunk.language) (c ∷ cs))
        ∙ length-map (c ∷ cs) (λ chunk. chunk.language),
    counts-sum (map (λ chunk. chunk.source.source_system) (c ∷ cs))
        ∙ length-map (c ∷ cs) (λ chunk. chunk.source.source_system),
    documents-sum (c ∷ cs),
  )
