-- ===== src/DataFetch/Texts/Lengths.antt =====
-- backend/cmd/data-fetch/main.go: the lengths of the compacted texts.
use civika.Prelude.{
  ℕ, zero, suc, ◌+◌, ◌≤◌, ◌≡◌, ◌⊎◌, refl, List, [], ◌∷◌, reverse, length, length-append,
  length-take, take, Bool-cases, inl, inr, arith, leb,
}
use mathlib.Core.List.{reverse-cons}
use civika.Text.{Str, codes, trim_space, trim_with, space_len, space_len_rev, fields, join, Runtime}
use civika.GoMap.{Map}
use civika.DataFetch.Texts.{
  compact_text, side_text, or_generic, extract_arguments, Sides, add_docs, add_texts, first_of,
  second_of,
}

ℕ-cases : (n : ℕ) → (n ≡ 0) ⊎ ((k : ℕ) × (n ≡ suc k))
ℕ-cases zero = inl refl
ℕ-cases (suc k) = inr (k, refl)

trim_with_le : (len : Str → ℕ) (skip : ℕ) (s : Str) → length (trim_with len skip s) ≤ length s
unfolding trim_with
trim_with_le len skip [] = omega arith
trim_with_le len (suc skip) (c ∷ s) = omega (arith, trim_with_le len skip s)
trim_with_le len zero (c ∷ s) = elim (ℕ-cases (len (c ∷ s))) [
  | inl e ↦ rw (trim_with, e) (omega arith)
  | inr (k, e) ↦ rw (trim_with, e) (omega (arith, trim_with_le len k s))
]

length-reverse : (s : Str) → length (reverse s) ≡ length s
length-reverse [] = refl
length-reverse (c ∷ s) =
    rw (reverse-cons c s) (omega (arith, length-append (reverse s) (c ∷ []), length-reverse s))

pub trim_space_le : (s : Str) → length (trim_space s) ≤ length s
unfolding trim_space
trim_space_le s =
    let a = trim_with space_len 0 s in
    let b = trim_with space_len_rev 0 (reverse a) in
    omega (
      arith,
      length-reverse b,
      trim_with_le space_len_rev 0 (reverse a),
      length-reverse a,
      trim_with_le space_len 0 s,
    )

pub compact_text_le : (input : Str) (n : ℕ) → length (compact_text input n) ≤ n + 3
unfolding compact_text
compact_text_le input n =
    let out = join (codes " ") (fields (trim_space input)) in
    elim (Bool-cases (leb n 0)) [
      | inl t ↦ rw (compact_text, t) (omega arith)
      | inr t ↦ elim (Bool-cases (leb (length out) n)) [
        | inl l ↦ rw (compact_text, t, l) (ground arith)
        | inr l ↦
            rw (compact_text, t, l)
              (omega (
                arith,
                length-append (trim_space (take n out)) (codes "..."),
                trim_space_le (take n out),
                length-take n out,
              ))
      ]
    ]

side_text_le : (chunks : List Str) → length (side_text chunks) ≤ 2403
unfolding side_text
side_text_le [] = omega arith
side_text_le (c ∷ chunks) = compact_text_le (join (codes "\n\n") (c ∷ chunks)) 2400

pub extract_arguments_le :
    (rt : Runtime) (docs : List Str) (texts : List (Map Str))
    → (length (extract_arguments rt docs texts).0 ≤ 2403)
      × (length (extract_arguments rt docs texts).1 ≤ 2403)
unfolding extract_arguments
extract_arguments_le rt docs texts =
    let s : Sides =
      add_texts texts
        (add_docs rt docs (record { pro_chunks = []; contra_chunks = []; generic_chunks = [] })) in
    (
      side_text_le (or_generic s.pro_chunks (first_of s.generic_chunks)),
      side_text_le (or_generic s.contra_chunks (second_of s.generic_chunks)),
    )
