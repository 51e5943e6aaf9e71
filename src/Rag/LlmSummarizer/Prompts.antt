-- ===== src/Rag/LlmSummarizer/Prompts.antt =====
-- backend/internal/rag/query.go: the length of the prompts that LLMSummarizer.Summarize posts.
use civika.Prelude.{
  ℕ, zero, suc, ◌≤◌, ◌≡◌, sym, subst, true, false, List, [], length, length-take, All, Bool-cases,
  inl, inr, arith, ltb, ◌==◌,
}
use civika.Prelude.Int.{pos}
use civika.Prelude.Result.{Result}
use civika.Text.{Str, eqb, Runtime, trim_space}
use civika.Float.{FloatOps}
use civika.Rag.Document.{SearchHit}
use civika.Rag.Json.{JsonOps}
use civika.Rag.Usage.{UsageScope, UsageEvent}
use civika.Rag.ChatClient.{Net, World, chat_url}
use civika.Rag.LlmTranslator.{cut}
use civika.Rag.Summary.{SummarizeError}
use civika.Rag.SummaryPrompt.{Formats, build_summary_prompt}
use civika.Rag.LlmSummarizer.{LlmSummarizerConfig, sent_by, round_of, returned, rounds, summarize}
use civika.Rag.LlmSummarizer.Report.{Round-cases}

module _ {F F32 : Type 0} (rt : Runtime) (fl : FloatOps F F32) (js : JsonOps F)
    (formats : Formats F) (cfg : LlmSummarizerConfig) (net : Net) (scope : UsageScope) where
  cut_le : (n : ℕ) (s : Str) → length (cut (pos n) s) ≤ n
  unfolding cut
  cut_le n s = elim (Bool-cases (ltb n (length s))) [
    | inl t ↦ rw t (omega (arith, length-take n s))
    | inr t ↦ rw t (ground arith)
  ]

  returned_prompts :
      (n : ℕ) (prompt : Str) (w : World) (result : Result SummarizeError Str) (event : UsageEvent)
      → length prompt ≤ n
      → All (λ p. length p.prompt ≤ n) w.posted
      → All
          (λ p. length p.prompt ≤ n)
          (returned rt fl js formats cfg net scope prompt w result event).0.posted
  unfolding returned sent_by
  returned_prompts n prompt w result event l h = (l, h)

  rounds_prompts :
      (n left : ℕ) (prompt : Str) (w : World)
      → length prompt ≤ n
      → All (λ p. length p.prompt ≤ n) w.posted
      → All
          (λ p. length p.prompt ≤ n)
          (rounds rt fl js formats cfg net scope left prompt w).0.posted
  unfolding rounds sent_by
  rounds_prompts n zero prompt w l h = elim (Bool-cases (net.is_url (chat_url cfg.base_url))) [
    | inr u ↦ rw (rounds, u) h
    | inl u ↦ elim (Round-cases (round_of rt fl js formats cfg net scope true prompt w)) [
      | inl (result, event, m) ↦ rw (rounds, u, m) (returned_prompts n prompt w result event l h)
      | inr m ↦ rw (rounds, u, m) (l, h)
    ]
  ]
  rounds_prompts n (suc left) prompt w l h =
      elim (Bool-cases (net.is_url (chat_url cfg.base_url))) [
        | inr u ↦ rw (rounds, u) h
        | inl u ↦ elim (Round-cases (round_of rt fl js formats cfg net scope false prompt w)) [
          | inl (result, event, m) ↦
              rw (rounds, u, m) (returned_prompts n prompt w result event l h)
          | inr m ↦
              rw (rounds, u, m)
                (rounds_prompts n left prompt (sent_by rt fl js formats cfg net scope prompt w) l
                  (l, h))
        ]
      ]

  pub summarize_prompts_le :
      {S : Type 0} (n : ℕ) (question : Str) (hits : List (SearchHit F S)) (language : Str)
      (w : World)
      → cfg.max_prompt_chars ≡ pos n
      → All (λ p. length p.prompt ≤ n) w.posted
      → All
          (λ p. length p.prompt ≤ n)
          (summarize rt fl js formats cfg net scope question hits language w).0.posted
  unfolding summarize
  summarize_prompts_le n question hits language w e h =
      elim (Bool-cases (eqb (trim_space question) [])) [
        | inl q ↦ rw (summarize, q) h
        | inr q ↦ elim (Bool-cases (length hits == 0)) [
          | inl t ↦ rw (summarize, q, t) h
          | inr t ↦
              let prompt =
                build_summary_prompt formats rt question hits cfg.max_prompt_chars language in
              rw (summarize, q, t)
                (rounds_prompts n 2 (cut cfg.max_prompt_chars prompt) w
                  (subst (λ m. length (cut m prompt) ≤ n) (sym e) (cut_le n prompt)) h)
        ]
      ]
