-- ===== src/Rag/Summary.antt =====
-- backend/internal/rag/query.go: the prompt of a summary, and DeterministicSummarizer.
pub mod Highlights
use civika.Prelude.{
  ℕ, zero, suc, ◌+◌, ◌-◌, Bool, true, false, not, ◌&&◌, ◌||◌, Option, none, some, List, [], ◌∷◌,
  ◌++◌, reverse, length, take, ltb, leb, ◌==◌, if◌then◌else◌,
}
use civika.Prelude.Int.{ℤ, pos, pos_part, ltb_ℤ, ◌-ℤ◌}
use civika.Prelude.Result.{Result, ok, err}
use civika.Text.{index_byte, Str, codes, eqb, Runtime, trim_space, fields, join, to_lower, itoa_ℕ}
use civika.Langs.{contains}
use civika.Rag.Document.{Intervenant, Chunk, SearchHit}
use civika.Rag.EnsureTranslations.{normalize_non_empty}

pub data SummarizeError : Type 0 where
  question_required hits_required create_failed request_failed read_failed : SummarizeError
  decode_failed no_choices empty_summary : SummarizeError
  status_returned : ℕ → SummarizeError

-- `strings.LastIndex` of one byte.
unfoldable pub last_byte_index : Str → ℕ → Option ℕ
last_byte_index [] c = none
last_byte_index (d ∷ s) c = elim (last_byte_index s c) [
  | some i ↦ some (suc i)
  | none ↦ if d == c then some 0 else none
]

unfoldable pub normalize_summary_language : Runtime → Str → Str
unfolding normalize_non_empty to_lower trim_space index_byte
normalize_summary_language rt language =
    let lowered = to_lower rt (trim_space (normalize_non_empty language (codes "fr"))) in
    let base : Str = elim (index_byte lowered b'-') [
      | none ↦ lowered
      | some i ↦ if ltb 0 i then take i lowered else lowered
    ] in
    if eqb base [] then codes "fr" else base

unfoldable pub ensure_sentence_ending : Str → Str
unfolding trim_space
ensure_sentence_ending value =
    let clean = trim_space value in
    elim (reverse clean) [
      | [] ↦ []
      | c ∷ rest ↦ if c == b'.' || (c == b'!' || c == b'?') then clean else clean ++ b'.' ∷ []
    ]

unfoldable pub summarize_chunk_title : Str → Str
unfolding join fields trim_space ensure_sentence_ending
summarize_chunk_title title =
    let clean = join (codes " ") (fields (trim_space title)) in
    if eqb clean [] then [] else ensure_sentence_ending clean

-- At most `max_chars` bytes, cut at the last space if it is not among the first ones.
unfoldable pub truncated : ℕ → Str → Str
unfolding last_byte_index trim_space
truncated max_chars clean =
    let prefix = take max_chars clean in
    trim_space (elim (last_byte_index prefix b' ') [
      | none ↦ prefix
      | some i ↦ if ltb 40 i then take i prefix else prefix
    ])

unfoldable pub summarize_chunk_text : Str → ℕ → Str
unfolding join fields trim_space truncated ensure_sentence_ending
summarize_chunk_text text max_chars =
    let clean = join (codes " ") (fields (trim_space text)) in
    if eqb clean [] || leb max_chars 0
    then []
    else ensure_sentence_ending
        (if ltb max_chars (length clean) then truncated max_chars clean else clean)

module _ {S : Type 0} (rt : Runtime) where
  unfoldable pub deterministic_source_key : Chunk S → Str
  unfolding trim_space to_lower
  deterministic_source_key chunk =
      if not (eqb (trim_space chunk.document_id) [])
      then codes "doc:" ++ trim_space chunk.document_id
      else if not (eqb (trim_space chunk.source_path) [])
      then codes "path:" ++ trim_space chunk.source_path
      else if not (eqb (trim_space chunk.title) [])
      then codes "title:" ++ to_lower rt (trim_space chunk.title)
      else codes "unknown"

  -- The text's, or else the title's.
  unfoldable pub snippet_of : ℕ → Chunk S → Str
  unfolding summarize_chunk_text summarize_chunk_title
  snippet_of max_chars chunk =
      let snippet = summarize_chunk_text chunk.text max_chars in
      if eqb snippet [] then summarize_chunk_title chunk.title else snippet

  -- The loop over the hits; `seen` is the set of the sources.
  unfoldable pub highlights_from :
      {F : Type 0} → ℕ → ℕ → List Str → List Str → List (SearchHit F S) → List Str
  unfolding deterministic_source_key contains snippet_of
  highlights_from max_highlights max_chars seen highlights [] = highlights
  highlights_from max_highlights max_chars seen highlights (hit ∷ hits) =
      let key = deterministic_source_key hit.chunk in
      let snippet = snippet_of max_chars hit.chunk in
      let longer = highlights ++ snippet ∷ [] in
      if contains seen key
      then highlights_from max_highlights max_chars seen highlights hits
      else if eqb snippet []
      then highlights_from max_highlights max_chars (key ∷ seen) highlights hits
      else if leb max_highlights (length longer)
      then longer
      else highlights_from max_highlights max_chars (key ∷ seen) longer hits

  unfoldable pub collect_deterministic_highlights :
      {F : Type 0} → List (SearchHit F S) → ℕ → ℕ → List Str
  unfolding highlights_from
  collect_deterministic_highlights hits max_highlights max_chars =
      if leb max_highlights 0 || leb max_chars 0
      then []
      else highlights_from max_highlights max_chars [] [] hits

-- A message by the language of the summary; the last one is the default.
unfoldable pub by_summary_language : Runtime → Str → Str → Str → Str → Str → Str → Str
unfolding normalize_summary_language
by_summary_language rt language de it rm en other =
    let l = normalize_summary_language rt language in
    if eqb l (codes "de")
    then de
    else if eqb l (codes "it")
    then it
    else if eqb l (codes "rm")
    then rm
    else if eqb l (codes "en")
    then en
    else other

unfoldable pub deterministic_prefix : Runtime → Str → Str
unfolding by_summary_language
deterministic_prefix rt language =
    by_summary_language rt language
      (codes
        "Deterministische Zusammenfassung basierend auf indexierten Quellen (LLM deaktiviert).")
      (codes "Riassunto deterministico basato su fonti indicizzate (LLM disattivato).")
      (codes "Resum deterministic basau sin funtaunas indexadas (LLM deactivau).")
      (codes "Deterministic summary based on indexed sources (LLM disabled).")
      (codes "Resume deterministe base sur les sources indexees (LLM desactive).")

unfoldable pub deterministic_no_source_message : Runtime → Str → Str
unfolding by_summary_language
deterministic_no_source_message rt language =
    by_summary_language rt language
      (codes "Deterministische Zusammenfassung nicht verfugbar: keine nutzbare Quelle.")
      (codes "Riassunto deterministico non disponibile: nessuna fonte utilizzabile.")
      (codes "Resum deterministic betg disponibel: nagina funtauna utilisabla.")
      (codes "Deterministic summary unavailable: no usable source.")
      (codes "Resume deterministe indisponible: aucune source exploitable.")

-- `DeterministicSummarizer.Summarize`
unfoldable pub summarize_deterministically :
    {F S : Type 0} → Runtime → List (SearchHit F S) → Str → Result SummarizeError Str
unfolding collect_deterministic_highlights deterministic_no_source_message deterministic_prefix join
summarize_deterministically rt [] language = err hits_required
summarize_deterministically rt (hit ∷ hits) language =
    elim (collect_deterministic_highlights rt (hit ∷ hits) 2 220) [
      | [] ↦ ok (deterministic_no_source_message rt language)
      | h ∷ hs ↦ ok (deterministic_prefix rt language ++ (codes " " ++ join (codes " ") (h ∷ hs)))
    ]
