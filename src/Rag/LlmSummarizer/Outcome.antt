-- ===== src/Rag/LlmSummarizer/Outcome.antt =====
-- backend/internal/rag/query.go: what LLMSummarizer.Summarize posts, emits and returns.
use civika.Prelude.{
  not_empty_list, ℕ, zero, suc, ◌≤◌, ◌≡◌, ◌≢◌, refl, sym, subst, ◌∙◌, Bool, true, false, List, [],
  ◌∷◌, ◌++◌, append_assoc, length, length-append, All, All-append, inl, inr, arith, ◌==◌,
  if◌then◌else◌,
}
use civika.Prelude.Result.{Result}
use civika.Text.{Str, eqb, Runtime, trim_space}
use civika.Text.Laws.{eqb_empty}
use civika.Float.{FloatOps}
use civika.Rag.Document.{SearchHit}
use civika.Rag.Json.{JsonOps}
use civika.Rag.Usage.{UsageScope, UsageEvent, filled, emit_usage_event}
use civika.Rag.ChatClient.{Post, Net, World, chat_url}
use civika.Rag.LlmTranslator.{cut}
use civika.Rag.Summary.{SummarizeError}
use civika.Rag.SummaryPrompt.{Formats, build_summary_prompt}
use civika.Rag.LlmSummarizer.{LlmSummarizerConfig, sent_by, round_of, returned, rounds, summarize}
use civika.Rag.LlmSummarizer.Report.{IsToldSummary, IsReport, Round-cases, round_of-IsReport}

guards_passed :
    {A : Type 0} (a b : Bool) (x y z : A)
    → a ≡ false
    → b ≡ false
    → (if a then x else if b then y else z) ≡ z
guards_passed a b x y z ha hb = rw (ha, hb) refl

module _ {F F32 : Type 0} (rt : Runtime) (fl : FloatOps F F32) (js : JsonOps F)
    (formats : Formats F) (cfg : LlmSummarizerConfig) (net : Net) (scope : UsageScope) where
  -- What a summary adds to the state, with an emitter: up to `suc left` requests, and one event.
  pub record IsSummarized (left : ℕ) (prompt : Str) (w : World)
      (out : World × Result SummarizeError Str) : Type 0 where
    pub requests : List Post
    pub last : UsageEvent
    pub now : ℕ
    pub posts : out.0.posted ≡ requests ++ w.posted
    pub at_least : 1 ≤ length requests
    pub at_most : length requests ≤ suc left
    pub same_prompt : All (λ p. p.prompt ≡ prompt) requests
    pub emitted : out.0.events ≡ filled scope now last ∷ w.events
    pub told : IsToldSummary out.1 last

  returned-IsSummarized :
      (left : ℕ) (prompt : Str) (w : World) (result : Result SummarizeError Str)
      (event : UsageEvent)
      → net.has_emitter ≡ true
      → IsToldSummary result event
      → IsSummarized left prompt w (returned rt fl js formats cfg net scope prompt w result event)
  unfolding returned sent_by emit_usage_event
  returned-IsSummarized left prompt w result event he told = record {
    requests =
        record {
          url = chat_url cfg.base_url;
          api_key = cfg.api_key;
          model = cfg.model_name;
          prompt = prompt;
        }
        ∷ [];
    last = event;
    now = (net.exchange (length w.posted)).now;
    posts = refl;
    at_least = omega arith;
    at_most = omega arith;
    same_prompt = (refl, tt);
    emitted = rw (emit_usage_event, he) refl;
    told = told;
  }

  again-IsSummarized :
      (left : ℕ) (prompt : Str) (w : World) (out : World × Result SummarizeError Str)
      → IsSummarized left prompt (sent_by rt fl js formats cfg net scope prompt w) out
      → IsSummarized (suc left) prompt w out
  unfolding sent_by
  again-IsSummarized left prompt w out s =
      let p : Post = record {
        url = chat_url cfg.base_url;
        api_key = cfg.api_key;
        model = cfg.model_name;
        prompt = prompt;
      } in
      record {
        requests = s.requests ++ p ∷ [];
        last = s.last;
        now = s.now;
        posts = s.posts ∙ sym (append_assoc s.requests (p ∷ []) w.posted);
        at_least = omega (arith, length-append s.requests (p ∷ []));
        at_most = omega (arith, s.at_most, length-append s.requests (p ∷ []));
        same_prompt =
            All-append (λ q. q.prompt ≡ prompt) s.requests (p ∷ []) s.same_prompt (refl, tt);
        emitted = s.emitted;
        told = s.told;
      }

  rounds-IsSummarized :
      (left : ℕ) (prompt : Str) (w : World)
      → net.has_emitter ≡ true
      → net.is_url (chat_url cfg.base_url) ≡ true
      → IsSummarized left prompt w (rounds rt fl js formats cfg net scope left prompt w)
  unfolding rounds
  rounds-IsSummarized zero prompt w he hu =
      elim (Round-cases (round_of rt fl js formats cfg net scope true prompt w)) [
        | inl (result, event, n) ↦
            rw (rounds, hu, n)
              (returned-IsSummarized 0 prompt w result event he (
                subst (IsReport true) n
                  (round_of-IsReport rt fl js formats cfg net scope true prompt w)))
        | inr n ↦ absurd (
            let e : true ≡ false =
              subst (IsReport true) n
                (round_of-IsReport rt fl js formats cfg net scope true prompt w) in
            cc)
      ]
  rounds-IsSummarized (suc left) prompt w he hu =
      elim (Round-cases (round_of rt fl js formats cfg net scope false prompt w)) [
        | inl (result, event, n) ↦
            rw (rounds, hu, n)
              (returned-IsSummarized (suc left) prompt w result event he (
                subst (IsReport false) n
                  (round_of-IsReport rt fl js formats cfg net scope false prompt w)))
        | inr n ↦
            rw (rounds, hu, n)
              (again-IsSummarized left prompt w _ (
                rounds-IsSummarized left prompt (sent_by rt fl js formats cfg net scope prompt w) he
                  hu))
      ]

  -- With an emitter, a valid address, a question that is not blank and at least one hit: Summarize
  -- posts one to three requests with the same prompt, cut to its limit, and emits exactly one event in
  -- all, which tells the result (success, and the length of the summary, which is not empty; or an
  -- error with its code).
  pub summarize-IsSummarized :
      {S : Type 0} (question : Str) (hits : List (SearchHit F S)) (language : Str) (w : World)
      → net.has_emitter ≡ true
      → net.is_url (chat_url cfg.base_url) ≡ true
      → trim_space question ≢ []
      → hits ≢ []
      → IsSummarized 2
          (cut cfg.max_prompt_chars
            (build_summary_prompt formats rt question hits cfg.max_prompt_chars language))
          w
          (summarize rt fl js formats cfg net scope question hits language w)
  unfolding summarize
  summarize-IsSummarized question hits language w he hu hq hh =
      let prompt =
        cut cfg.max_prompt_chars
          (build_summary_prompt formats rt question hits cfg.max_prompt_chars language) in
      subst (IsSummarized 2 prompt w)
        (sym (
          guards_passed (eqb (trim_space question) []) (length hits == 0) _ _ _
            (eqb_empty (trim_space question) hq) (not_empty_list hits hh)))
        (rounds-IsSummarized 2 prompt w he hu)
