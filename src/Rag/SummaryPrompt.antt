-- ===== src/Rag/SummaryPrompt.antt =====
-- backend/internal/rag/query.go: buildSummaryPrompt.
use civika.Prelude.{ℕ, suc, ◌+◌, ◌-◌, not, List, [], ◌∷◌, ◌++◌, length, take, leb, if◌then◌else◌}
use civika.Prelude.Int.{ℤ, pos, pos_part, ltb_ℤ, ◌-ℤ◌}
use civika.Text.{Str, codes, eqb, Runtime, trim_space, join, itoa_ℕ}
use civika.Rag.Document.{Intervenant, SearchHit}
use civika.Rag.EnsureTranslations.{normalize_non_empty}
use civika.Rag.Summary.{normalize_summary_language}

-- `%.4f` of a score and `%q` of a string.
pub record Formats (F : Type 0) : Type 0 where
  pub score : F → Str
  pub quoted : Str → Str

unfoldable pub intervenant_parts : List Intervenant → List Str
unfolding trim_space
intervenant_parts [] = []
intervenant_parts (intervenant ∷ intervenants) =
    let parts = intervenant_parts intervenants in
    let full_name = trim_space (intervenant.first_name ++ (codes " " ++ intervenant.last_name)) in
    if eqb full_name []
    then parts
    else if not (eqb intervenant.role [])
    then (full_name ++ (codes " (" ++ (intervenant.role ++ codes ")"))) ∷ parts
    else full_name ∷ parts

unfoldable pub format_intervenants : List Intervenant → Str
unfolding intervenant_parts join
format_intervenants intervenants = elim (intervenant_parts intervenants) [
  | [] ↦ codes "none"
  | part ∷ parts ↦ join (codes ", ") (part ∷ parts)
]

unfoldable pub summary_instruction : (Str → Str) → Runtime → Str → Str
unfolding normalize_summary_language
summary_instruction quoted rt language =
    codes "Return the answer strictly in language code "
    ++ (quoted (normalize_summary_language rt language)
        ++ codes ", in 1 or 2 factual sentences maximum, using only these sources.")

-- What the excerpts may take.
unfoldable pub excerpt_budget : ℤ → ℕ → ℕ
unfolding ◌-ℤ◌
excerpt_budget max_prompt_chars written =
    let remaining = max_prompt_chars -ℤ pos written -ℤ pos 220 in
    if ltb_ℤ remaining (pos 800) then 800 else pos_part remaining

module _ {F S : Type 0} (formats : Formats F) where
  -- The header of the hit number `i`.
  unfoldable pub hit_header : ℕ → SearchHit F S → Str
  unfolding itoa_ℕ normalize_non_empty format_intervenants
  hit_header i hit =
      codes "\n["
      ++ (itoa_ℕ (i + 1)
          ++ (codes "] source="
              ++ (hit.chunk.source_path
                  ++ (codes " title="
                      ++ (hit.chunk.title
                          ++ (codes " lang="
                              ++ (normalize_non_empty hit.chunk.language (codes "fr")
                                  ++ (codes " score="
                                      ++ (formats.score hit.score
                                          ++ (codes " source_uri="
                                              ++ (hit.chunk.source.source_uri
                                                  ++ (codes " intervenants="
                                                      ++ (format_intervenants hit.chunk.intervenants
                                                          ++ codes "\n")))))))))))))

  -- The loop over the hits; `used` is what they have taken of the budget.
  unfoldable pub write_hits : ℕ → ℕ → ℕ → List (SearchHit F S) → Str
  unfolding hit_header
  write_hits budget i used [] = []
  write_hits budget i used (hit ∷ hits) =
      let header = hit_header i hit in
      let after_header = used + length header in
      let excerpt = take (budget - after_header) hit.chunk.text in
      let rest = write_hits budget (suc i) (after_header + length excerpt) hits in
      if leb 8 i
      then []
      else if leb budget after_header
      then header
      else header ++ (excerpt ++ (codes "\n" ++ rest))

  unfoldable pub build_summary_prompt : Runtime → Str → List (SearchHit F S) → ℤ → Str → Str
  unfolding excerpt_budget write_hits summary_instruction
  build_summary_prompt rt question hits max_prompt_chars language =
      let opening =
        codes "Question utilisateur (sanitisee):\n"
        ++ (question ++ codes "\n\nExtraits de documents publics indexes:\n") in
      opening
      ++ (write_hits (excerpt_budget max_prompt_chars (length opening)) 0 0 hits
          ++ (codes "\n" ++ summary_instruction formats.quoted rt language))
