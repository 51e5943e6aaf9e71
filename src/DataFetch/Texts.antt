-- ===== src/DataFetch/Texts.antt =====
-- backend/cmd/data-fetch/main.go: the texts and languages of a normalised votation.
pub mod Languages
pub mod Lengths
use civika.Prelude.{
  ℕ, suc, ◌+◌, Bool, true, false, not, ◌&&◌, ◌||◌, Option, none, some, List, [], ◌∷◌, ◌++◌, length,
  take, any, map, ltb, leb, ◌==◌, if◌then◌else◌,
}
use civika.Prelude.Sort.{sort_slice}
use civika.Text.{Str, codes, eqb, Runtime, trim_space, fields, join, to_lower, contains, str_lt}
use civika.GoMap.{Map, lookup}
use civika.Langs

unfoldable pub compact_text : Str → ℕ → Str
unfolding join fields trim_space
compact_text input max_len =
    let out = join (codes " ") (fields (trim_space input)) in
    if leb max_len 0
    then []
    else if leb (length out) max_len
    then out
    else trim_space (take max_len out) ++ codes "..."

unfoldable pub first_non_empty : List Str → Str
unfolding trim_space
first_non_empty [] = []
first_non_empty (v ∷ values) =
    if not (eqb (trim_space v) []) then trim_space v else first_non_empty values

-- `input[key]`: empty for a missing key.
unfoldable pub value_at : Map Str → Str → Str
value_at input key = elim (lookup key input) [ none ↦ [] | some v ↦ v ]

unfoldable pub localized_first : Map Str → Str
unfolding first_non_empty value_at
localized_first input =
    let preferred = first_non_empty (
      map (value_at input) (codes "fr" ∷ codes "de" ∷ codes "it" ∷ codes "rm" ∷ codes "en" ∷ [])) in
    if not (eqb preferred []) then preferred else first_non_empty (map (λ e. e.1) input)

unfoldable pub count_tokens : Str → List Str → ℕ
unfolding contains
count_tokens s [] = 0
count_tokens s (token ∷ tokens) =
    let rest = count_tokens s tokens in if contains s token then suc rest else rest

-- The side that a text argues for.
pub data Side : Type 0 where
  pro contra unknown : Side

unfoldable pub score_argument_side : Runtime → Str → Side
unfolding to_lower count_tokens
score_argument_side rt input =
    let s = to_lower rt input in
    let pro_score = count_tokens s (
      codes "begrundung"
      ∷ codes "fuer"
      ∷ codes "dafur"
      ∷ codes "pro"
      ∷ codes "soutien"
      ∷ codes "favorable"
      ∷ codes "unterstutzt"
      ∷ []) in
    let contra_score = count_tokens s (
      codes "ablehnung"
      ∷ codes "dagegen"
      ∷ codes "contra"
      ∷ codes "contre"
      ∷ codes "defavorable"
      ∷ codes "refus"
      ∷ codes "oppose"
      ∷ []) in
    if pro_score == 0 && contra_score == 0
    then unknown
    else if leb contra_score pro_score
    then pro
    else contra

unfoldable pub is_initiant_role : Runtime → Str → Bool
unfolding to_lower trim_space contains
is_initiant_role rt role =
    let s = to_lower rt (trim_space role) in
    if eqb s []
    then false
    else any (contains s) (
        codes "auteur"
        ∷ codes "urheber"
        ∷ codes "initiant"
        ∷ codes "motionnaire"
        ∷ codes "postulant"
        ∷ [])

-- The chunks for, against, and of neither side.
pub record Sides : Type 0 where
  pub pro_chunks : List Str
  pub contra_chunks : List Str
  pub generic_chunks : List Str

unfoldable pub add_chunk : Side → Str → Sides → Sides
add_chunk pro chunk s = record s { pro_chunks = s.pro_chunks ++ chunk ∷ [] }
add_chunk contra chunk s = record s { contra_chunks = s.contra_chunks ++ chunk ∷ [] }
add_chunk unknown chunk s = record s { generic_chunks = s.generic_chunks ++ chunk ∷ [] }

unfoldable pub add_docs : Runtime → List Str → Sides → Sides
unfolding compact_text score_argument_side add_chunk
add_docs rt [] s = s
add_docs rt (doc_text ∷ docs) s =
    let chunk = compact_text doc_text 1800 in
    add_docs rt docs (if eqb chunk [] then s else add_chunk (score_argument_side rt chunk) chunk s)

unfoldable pub add_texts : List (Map Str) → Sides → Sides
unfolding compact_text localized_first add_chunk
add_texts [] s = s
add_texts (text ∷ texts) s =
    let chunk = compact_text (localized_first text) 1200 in
    add_texts texts (if eqb chunk [] then s else add_chunk unknown chunk s)

-- `if len(chunks) == 0 && len(generic) > i { chunks = append(chunks, generic[i]) }`
unfoldable pub or_generic : List Str → Option Str → List Str
or_generic [] none = []
or_generic [] (some chunk) = chunk ∷ []
or_generic (c ∷ chunks) generic = c ∷ chunks

unfoldable pub side_text : List Str → Str
unfolding compact_text join
side_text [] = codes "indisponible"
side_text (c ∷ chunks) = compact_text (join (codes "\n\n") (c ∷ chunks)) 2400

unfoldable pub first_of : List Str → Option Str
first_of [] = none
first_of (c ∷ chunks) = some c

unfoldable pub second_of : List Str → Option Str
second_of [] = none
second_of (c ∷ []) = none
second_of (c ∷ d ∷ chunks) = some d

-- The texts for and against; a document is its text, and a text its translations.
unfoldable pub extract_arguments : Runtime → List Str → List (Map Str) → Str × Str
unfolding add_docs add_texts or_generic side_text first_of second_of
extract_arguments rt docs texts =
    let s =
      add_texts texts
        (add_docs rt docs (record { pro_chunks = []; contra_chunks = []; generic_chunks = [] })) in
    (
      side_text (or_generic s.pro_chunks (first_of s.generic_chunks)),
      side_text (or_generic s.contra_chunks (second_of s.generic_chunks)),
    )

abbrev pub known_languages : List Str
known_languages = codes "de" ∷ codes "fr" ∷ codes "it" ∷ codes "rm" ∷ codes "en" ∷ []

-- `push` of `collectAvailableLanguages`; what is in `out` is what its set holds.
unfoldable pub push_language : Runtime → List Str → Str → List Str
unfolding to_lower trim_space civika.Langs.contains
push_language rt out raw =
    let candidate = to_lower rt (trim_space raw) in
    if not (civika.Langs.contains known_languages candidate)
    then out
    else if civika.Langs.contains out candidate
    then out
    else out ++ candidate ∷ []

-- The keys of the texts that are not blank.
unfoldable pub push_map : Runtime → List Str → Map Str → List Str
unfolding trim_space push_language
push_map rt out [] = out
push_map rt out ((key, value) ∷ values) =
    push_map rt (if eqb (trim_space value) [] then out else push_language rt out key) values

unfoldable pub push_maps : Runtime → List Str → List (Map Str) → List Str
unfolding push_map
push_maps rt out [] = out
push_maps rt out (values ∷ maps) = push_maps rt (push_map rt out values) maps

unfoldable pub push_languages : Runtime → List Str → List Str → List Str
unfolding push_language
push_languages rt out [] = out
push_languages rt out (raw ∷ raws) = push_languages rt (push_language rt out raw) raws

-- `if len(out) == 0 { out = append(out, "fr") }`
unfoldable pub or_french : List Str → List Str
or_french [] = codes "fr" ∷ []
or_french (l ∷ ls) = l ∷ ls

-- `titles` are the six localised fields of the votation and its affair, `docs` the languages of the
-- documents, and `texts` the localised texts.
unfoldable pub collect_available_languages :
    Runtime → List (Map Str) → List Str → List (Map Str) → List Str
unfolding push_maps push_languages or_french sort_slice str_lt
collect_available_languages rt titles docs texts =
    sort_slice str_lt
      (or_french (push_maps rt (push_languages rt (push_maps rt [] titles) docs) texts))
