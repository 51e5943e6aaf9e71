-- ===== src/Rag/Summary/Highlights.antt =====
-- backend/internal/rag/query.go: the highlights of DeterministicSummarizer.
use civika.Prelude.{
  ℕ, ◌≤◌, ◌<◌, ◌≡◌, ◌≢◌, ◌⊎◌, refl, subst, true, false, ◌||◌, List, [], ◌∷◌, ◌++◌, reverse, length,
  length-append, All, All-append, Bool-cases, inl, inr, arith, ltb, leb, ◌==◌, if◌then◌else◌,
}
use mathlib.Core.List.{reverse-append}
use civika.Prelude.Result.{Result, ok, err}
use civika.Text.{Str, codes, eqb, Runtime, trim_space, fields, join}
use civika.Langs.{contains}
use civika.Rag.Document.{Chunk, SearchHit}
use civika.Rag.Summary.{
  SummarizeError, ensure_sentence_ending, summarize_chunk_title, summarize_chunk_text, truncated,
  snippet_of, highlights_from, collect_deterministic_highlights, deterministic_source_key,
  deterministic_prefix, deterministic_no_source_message, summarize_deterministically,
}

-- A text that ends with a full stop, an exclamation mark or a question mark.
abbrev pub IsSentence : Str → Type 0
IsSentence s =
    (c : ℕ) × (rest : Str) × (reverse s ≡ c ∷ rest) × ((c ≡ b'.') ⊎ ((c ≡ b'!') ⊎ (c ≡ b'?')))

abbrev IsSnippet : Str → Type 0
IsSnippet s = (s ≡ []) ⊎ IsSentence s

stop_of_test :
    (c : ℕ)
    → (c == b'.' || (c == b'!' || c == b'?')) ≡ true
    → (c ≡ b'.') ⊎ ((c ≡ b'!') ⊎ (c ≡ b'?'))
stop_of_test c h = ground arith

less_of_test : (m n : ℕ) → leb m n ≡ false → n < m
less_of_test m n h = ground arith

positive_of_test : (m n : ℕ) → (leb m 0 || leb n 0) ≡ false → 0 < m
positive_of_test m n h = ground arith

ensure_sentence_ending-IsSnippet : (value : Str) → IsSnippet (ensure_sentence_ending value)
unfolding ensure_sentence_ending
ensure_sentence_ending-IsSnippet value = by_last (reverse (trim_space value)) refl
  where
    by_last : (r : Str) → reverse (trim_space value) ≡ r → IsSnippet (ensure_sentence_ending value)
    by_last [] e = inl (rw (ensure_sentence_ending, e) refl)
    by_last (c ∷ rest) e = elim (Bool-cases (c == b'.' || (c == b'!' || c == b'?'))) [
      | inl t ↦ rw (ensure_sentence_ending, e, t) (inr (c, rest, e, stop_of_test c t))
      | inr t ↦
          rw (ensure_sentence_ending, e, t)
            (inr (
              b'.',
              reverse (trim_space value),
              reverse-append (trim_space value) (b'.' ∷ []),
              inl refl,
            ))
    ]

summarize_chunk_title-IsSnippet : (title : Str) → IsSnippet (summarize_chunk_title title)
unfolding summarize_chunk_title
summarize_chunk_title-IsSnippet title =
    let clean = join (codes " ") (fields (trim_space title)) in
    elim (Bool-cases (eqb clean [])) [
      | inl t ↦ rw (summarize_chunk_title, t) (inl refl)
      | inr t ↦ rw (summarize_chunk_title, t) (ensure_sentence_ending-IsSnippet clean)
    ]

summarize_chunk_text-IsSnippet : (text : Str) (n : ℕ) → IsSnippet (summarize_chunk_text text n)
unfolding summarize_chunk_text
summarize_chunk_text-IsSnippet text n =
    let clean = join (codes " ") (fields (trim_space text)) in
    elim (Bool-cases (eqb clean [] || leb n 0)) [
      | inl t ↦ rw (summarize_chunk_text, t) (inl refl)
      | inr t ↦
          rw (summarize_chunk_text, t)
            (ensure_sentence_ending-IsSnippet
              (if ltb n (length clean) then truncated n clean else clean))
    ]

snippet_of-IsSnippet :
    {S : Type 0} (rt : Runtime) (n : ℕ) (chunk : Chunk S) → IsSnippet (snippet_of rt n chunk)
unfolding snippet_of
snippet_of-IsSnippet rt n chunk = elim (Bool-cases (eqb (summarize_chunk_text chunk.text n) [])) [
  | inl t ↦ rw (snippet_of, t) (summarize_chunk_title-IsSnippet chunk.title)
  | inr t ↦ rw (snippet_of, t) (summarize_chunk_text-IsSnippet chunk.text n)
]

IsSentence-of : (s : Str) → IsSnippet s → eqb s [] ≡ false → IsSentence s
unfolding eqb
IsSentence-of s (inl e) t = absurd (let q : true ≡ false = subst (λ r. eqb r [] ≡ false) e t in cc)
IsSentence-of s (inr h) t = h

-- At most `m` sentences.
abbrev pub AreHighlights : ℕ → List Str → Type 0
AreHighlights m hs = (length hs ≤ m) × All IsSentence hs

-- The answer without a language model: a message, or a prefix and one or two sentences.
abbrev pub IsDigest : Runtime → Str → Result SummarizeError Str → Type 0
IsDigest rt language (err e) = ⊥
IsDigest rt language (ok text) =
    (text ≡ deterministic_no_source_message rt language)
    ⊎ ((h : Str) × (hs : List Str) × (text
          ≡ deterministic_prefix rt language ++ (codes " " ++ join (codes " ") (h ∷ hs)))
        × AreHighlights 2 (h ∷ hs))

module _ {F S : Type 0} (rt : Runtime) where
  highlights_from-AreHighlights :
      (m n : ℕ) (seen highlights : List Str) (hits : List (SearchHit F S))
      → length highlights < m
      → All IsSentence highlights
      → AreHighlights m (highlights_from rt m n seen highlights hits)
  unfolding highlights_from
  highlights_from-AreHighlights m n seen highlights [] l a = (omega arith, a)
  highlights_from-AreHighlights m n seen highlights (hit ∷ hits) l a =
      let key = deterministic_source_key rt hit.chunk in
      let snippet = snippet_of rt n hit.chunk in
      let size = length-append highlights (snippet ∷ []) in
      elim (Bool-cases (contains seen key)) [
        | inl t ↦
            rw (highlights_from, t) (highlights_from-AreHighlights m n seen highlights hits l a)
        | inr t ↦ elim (Bool-cases (eqb snippet [])) [
          | inl e ↦
              rw (highlights_from, t, e)
                (highlights_from-AreHighlights m n (key ∷ seen) highlights hits l a)
          | inr e ↦
              let all =
                All-append IsSentence highlights (snippet ∷ []) a
                  (IsSentence-of snippet (snippet_of-IsSnippet rt n hit.chunk) e, tt) in
              elim (Bool-cases (leb m (length (highlights ++ snippet ∷ [])))) [
                | inl f ↦ rw (highlights_from, t, e, f) (omega (arith, size), all)
                | inr f ↦
                    rw (highlights_from, t, e, f)
                      (highlights_from-AreHighlights m n (key ∷ seen) (highlights ++ snippet ∷ [])
                        hits (less_of_test m (length (highlights ++ snippet ∷ [])) f) all)
              ]
        ]
      ]

  pub collect_deterministic_highlights-AreHighlights :
      (hits : List (SearchHit F S)) (m n : ℕ)
      → AreHighlights m (collect_deterministic_highlights rt hits m n)
  unfolding collect_deterministic_highlights
  collect_deterministic_highlights-AreHighlights hits m n = elim (Bool-cases (leb m 0 || leb n 0)) [
    | inl t ↦ rw (collect_deterministic_highlights, t) (omega arith, tt)
    | inr t ↦
        rw (collect_deterministic_highlights, t)
          (highlights_from-AreHighlights m n [] [] hits (positive_of_test m n t) tt)
  ]

  -- With at least one hit, the summary without a language model is the message of its language that no
  -- source is usable, or the prefix of its language and one or two texts, each of which ends with a
  -- full stop, an exclamation mark or a question mark.
  pub summarize_deterministically-IsDigest :
      (hits : List (SearchHit F S)) (language : Str)
      → hits ≢ []
      → IsDigest rt language (summarize_deterministically rt hits language)
  unfolding summarize_deterministically
  summarize_deterministically-IsDigest [] language h = absurd (h refl)
  summarize_deterministically-IsDigest (hit ∷ hits) language h =
      digest (collect_deterministic_highlights rt (hit ∷ hits) 2 220) refl
    where
      digest :
          (hs : List Str)
          → collect_deterministic_highlights rt (hit ∷ hits) 2 220 ≡ hs
          → IsDigest rt language (summarize_deterministically rt (hit ∷ hits) language)
      digest [] e = rw (summarize_deterministically, e) (inl refl)
      digest (h1 ∷ hs) e =
          rw (summarize_deterministically, e)
            (inr (
              h1,
              hs,
              refl,
              subst (AreHighlights 2) e
                  (collect_deterministic_highlights-AreHighlights (hit ∷ hits) 2 220),
            ))
