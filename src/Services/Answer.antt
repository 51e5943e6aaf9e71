-- ===== src/Services/Answer.antt =====
-- backend/internal/services/qa_service.go: the parts of an answer.
use civika.Prelude.{◌||◌, List, [], ◌∷◌, ◌++◌, length, ◌==◌, if◌then◌else◌}
use civika.Prelude.Int.{pos}
use civika.Prelude.Sort.{sort_slice}
use civika.Text.{Str, codes, eqb, Runtime, trim_space, to_lower, contains, str_lt}
use civika.Float.{FloatOps}
use civika.Langs.{normalize}
use civika.Langs
use civika.Rag.Document.{Chunk, SearchHit}
use civika.Services.Models.{Citation}

unfoldable pub normalize_non_empty_string : Str → Str → Str
unfolding trim_space
normalize_non_empty_string value fallback =
    if eqb (trim_space value) [] then fallback else trim_space value

unfoldable pub normalize_language : Runtime → Str → Str
unfolding normalize
normalize_language rt lang = let l = normalize rt lang in if eqb l [] then codes "fr" else l

unfoldable pub no_relevant_source_message : Runtime → Str → Str
unfolding normalize_language
no_relevant_source_message rt language =
    let l = normalize_language rt language in
    if eqb l (codes "de")
    then codes "Es wurden keine relevanten Quellen gefunden."
    else if eqb l (codes "it")
    then codes "Nessuna fonte pertinente trovata."
    else if eqb l (codes "rm")
    then codes "Nagina funtauna relevanta e vegnida chattada."
    else if eqb l (codes "en")
    then codes "No relevant source was found."
    else codes "Aucune source pertinente n'a ete trouvee."

unfoldable pub source_type_from_chunk : {S : Type 0} → Runtime → Chunk S → Str
unfolding to_lower trim_space contains
source_type_from_chunk rt chunk =
    let system = to_lower rt (trim_space chunk.source.source_system) in
    if contains system (codes "openparl")
      || contains system (codes "admin")
      || contains system (codes "opendata")
    then codes "official"
    else codes "other"

unfoldable pub citation_key : Citation → Str
citation_key item = item.url ++ (codes "|" ++ item.title)

-- The loop of `dedupeCitations`, over the keys that were seen.
unfoldable pub dedupe_from : List Str → List Citation → List Citation
unfolding citation_key
dedupe_from seen [] = []
dedupe_from seen (item ∷ items) =
    let key = citation_key item in
    let rest = dedupe_from seen items in
    let with_item = item ∷ dedupe_from (key ∷ seen) items in
    if Langs.contains seen key then rest else with_item

unfoldable pub dedupe_citations : List Citation → List Citation
unfolding dedupe_from Langs.contains
dedupe_citations items = dedupe_from [] items

module _ {F S : Type 0} where
  -- The loop over the hits: the set of the documents' ids.
  unfoldable pub document_ids : List Str → List (SearchHit F S) → List Str
  document_ids set [] = set
  document_ids set (hit ∷ hits) =
      let id = hit.chunk.document_id in
      document_ids (if eqb id [] || Langs.contains set id then set else set ++ id ∷ []) hits

  unfoldable pub used_documents : List (SearchHit F S) → List Str
  unfolding document_ids sort_slice str_lt Langs.contains
  used_documents hits = sort_slice str_lt (document_ids [] hits)

  unfoldable pub citations_of : Runtime → List (SearchHit F S) → List Citation
  unfolding source_type_from_chunk
  citations_of rt [] = []
  citations_of rt (hit ∷ hits) =
      record {
        source_type = source_type_from_chunk rt hit.chunk;
        url = hit.chunk.source.source_uri;
        title = hit.chunk.title;
      }
      ∷ citations_of rt hits

module _ {F F32 S : Type 0} (fl : FloatOps F F32) where
  unfoldable pub sum_scores : F → List (SearchHit F S) → F
  sum_scores sum [] = sum
  sum_scores sum (hit ∷ hits) = sum_scores (fl.add sum hit.score) hits

  unfoldable pub compute_confidence : List (SearchHit F S) → F
  unfolding sum_scores
  compute_confidence hits =
      let nought = fl.of_int (pos 0) in
      let one = fl.of_int (pos 1) in
      let hundred = fl.of_int (pos 100) in
      let mean = fl.div (sum_scores nought hits) (fl.of_int (pos (length hits))) in
      let raised = if fl.lt mean nought then nought else mean in
      let score = if fl.lt one raised then one else raised in
      if length hits == 0 then nought else fl.div (fl.round (fl.mul score hundred)) hundred
