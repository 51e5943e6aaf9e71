-- ===== src/Rag/LlmTranslator/Accounted.antt =====
-- backend/internal/rag/translate.go: what the attempts of LLMTranslator.Translate post and
-- emit.
use civika.Prelude.{
  ℕ, zero, suc, ◌≤◌, ◌≡◌, ◌⊎◌, refl, sym, subst, ap, ◌∙◌, Bool, true, false, List, [], ◌∷◌, ◌++◌,
  length, All, All-append, append_assoc, length-append, Bool-cases, inl, inr, arith,
}
use civika.Prelude.Int.{pos}
use civika.Prelude.Result.{Result, ok, err}
use civika.Text.{Str, codes, eqb, Runtime}
use civika.Float.{FloatOps}
use civika.Rag.Json.{JsonOps}
use civika.Rag.Usage.{UsageScope, UsageEvent, filled, emit_usage_event, or_if_blank}
use civika.Rag.Translator.{TranslationRequest, TranslateError}
use civika.Rag.ChatClient.{Net, World, Post}
use civika.Rag.LlmTranslator.{LlmTranslatorConfig, goes_on, attempts, translate}
use civika.Rag.LlmTranslator.Attempt.{IsTold, Sent, sent, IsUnsent, translate_once-cases}
use civika.Rag.LlmTranslator.Retry.{once, continues, translate_attempts}

module _ {F F32 : Type 0} (rt : Runtime) (fl : FloatOps F F32) (js : JsonOps F)
    (cfg : LlmTranslatorConfig) (net : Net) (scope : UsageScope)
    (request : TranslationRequest) where
  -- What the attempts add to the state, with an emitter: a request and an event for each attempt, the
  -- last event tells the result, and the earlier ones tell of errors.
  pub record IsAccounted (n : ℕ) (w : World) (out : World × Result TranslateError Str)
      : Type 0 where
    pub requests : List Post
    pub last : UsageEvent
    pub now : ℕ
    pub earlier : List UsageEvent
    pub posts : out.0.posted ≡ requests ++ w.posted
    pub emitted : out.0.events ≡ filled scope now last ∷ (earlier ++ w.events)
    pub one_each : length requests ≡ suc (length earlier)
    pub at_most : length earlier ≤ n
    pub told : IsTold out.1 last
    pub earlier_errors : All (λ e. e.status ≡ codes "error") earlier

  goes_on_error :
      (a : World × Result TranslateError Str × Bool)
      → goes_on rt fl js cfg net scope a ≡ true
      → (error : TranslateError) × (a.1 ≡ err error)
  unfolding goes_on
  goes_on_error (w, ok text, b) h = absurd cc
  goes_on_error (w, err error, b) h = (error, refl)

  filled_status :
      (now : ℕ) (event : UsageEvent)
      → event.status ≡ codes "error"
      → (filled scope now event).status ≡ codes "error"
  unfolding filled or_if_blank eqb
  filled_status now event h = rw (filled, h) refl

  last-IsAccounted :
      (n : ℕ) (w : World) (a : World × Result TranslateError Str × Bool)
      → net.has_emitter ≡ true
      → Sent rt fl js cfg net scope w a
      → IsAccounted n w (a.0, a.1)
  unfolding emit_usage_event
  last-IsAccounted n w _ he (sent p s now h) = record {
    requests = p ∷ [];
    last = s.event;
    now = now;
    earlier = [];
    posts = refl;
    emitted = rw (emit_usage_event, he) refl;
    one_each = refl;
    at_most = omega arith;
    told = h;
    earlier_errors = tt;
  }

  next-IsAccounted :
      (n : ℕ) (w : World) (a : World × Result TranslateError Str × Bool)
      (out : World × Result TranslateError Str)
      → net.has_emitter ≡ true
      → Sent rt fl js cfg net scope w a
      → goes_on rt fl js cfg net scope a ≡ true
      → IsAccounted n a.0 out
      → IsAccounted (suc n) w out
  unfolding emit_usage_event
  next-IsAccounted n w _ out he (sent p s now h) g c =
      let (error, q) = goes_on_error _ g in
      let t : IsTold (err error) s.event = subst (λ r. IsTold r s.event) q h in
      let m : out.0.events
          ≡ filled scope c.now c.last ∷ (c.earlier ++ (filled scope now s.event ∷ w.events)) =
        rw (emit_usage_event, he) at c.emitted in
      record {
        requests = c.requests ++ p ∷ [];
        last = c.last;
        now = c.now;
        earlier = c.earlier ++ filled scope now s.event ∷ [];
        posts = c.posts ∙ sym (append_assoc c.requests (p ∷ []) w.posted);
        emitted =
            m
            ∙ ap (λ l. filled scope c.now c.last ∷ l)
                (sym (append_assoc c.earlier (filled scope now s.event ∷ []) w.events));
        one_each = omega (
          arith,
          c.one_each,
          length-append c.requests (p ∷ []),
          length-append c.earlier (filled scope now s.event ∷ []),
        );
        at_most = omega (arith, c.at_most, length-append c.earlier (filled scope now s.event ∷ []));
        told = c.told;
        earlier_errors =
            All-append (λ e. e.status ≡ codes "error") c.earlier (filled scope now s.event ∷ [])
              c.earlier_errors (filled_status now s.event t.1, tt);
      }

  attempts-IsAccounted :
      (n : ℕ) (w : World)
      → net.has_emitter ≡ true
      → ((v : World) → Sent rt fl js cfg net scope v (once rt fl js cfg net scope request v))
      → IsAccounted n w (attempts rt fl js cfg net scope n request w)
  unfolding attempts
  attempts-IsAccounted zero w he h =
      last-IsAccounted 0 w (once rt fl js cfg net scope request w) he (h w)
  attempts-IsAccounted (suc n) w he h =
      elim (Bool-cases (continues rt fl js cfg net scope request w)) [
        | inl t ↦
            rw (attempts, t)
              (next-IsAccounted n w (once rt fl js cfg net scope request w) _ he (h w) t
                (attempts-IsAccounted n (once rt fl js cfg net scope request w).0 he h))
        | inr t ↦
            rw (attempts, t)
              (last-IsAccounted (suc n) w (once rt fl js cfg net scope request w) he (h w))
      ]

  final_stops :
      (w : World) (r : Result TranslateError Str)
      → goes_on rt fl js cfg net scope (w, r, false) ≡ false
  unfolding goes_on
  final_stops w (ok text) = refl
  final_stops w (err error) = refl

  unsent_stops :
      (w : World)
      → IsUnsent rt fl js cfg net scope request
      → continues rt fl js cfg net scope request w ≡ false
  unsent_stops w (r, e, h) = ap (goes_on rt fl js cfg net scope) (h w) ∙ final_stops w r

  -- A request that is not sent: nothing is posted and nothing is emitted.
  attempts_unsent :
      (n : ℕ) (w : World)
      → IsUnsent rt fl js cfg net scope request
      → (attempts rt fl js cfg net scope n request w).0 ≡ w
  unfolding attempts
  attempts_unsent zero w (r, e, h) = ap (λ a. a.0) (h w)
  attempts_unsent (suc n) w (r, e, h) =
      rw (attempts, unsent_stops w (r, e, h)) (ap (λ a. a.0) (h w))

  -- With an emitter of usage events and a limit of n retries: a translation leaves requests and events
  -- as they were, or it posts at most n + 1 requests and emits exactly one event for each of them, the
  -- last event tells the result (success, and the length of the text that is returned, which is not
  -- empty; or an error with its code), and all earlier events tell of errors.
  pub translate-IsAccounted :
      (n : ℕ) (w : World)
      → cfg.max_retries ≡ pos n
      → net.has_emitter ≡ true
      → ((translate rt fl js cfg net scope request w).0 ≡ w)
        ⊎ IsAccounted n w (translate rt fl js cfg net scope request w)
  translate-IsAccounted n w e he = elim (translate_once-cases rt fl js cfg net scope request) [
    | inl u ↦ inl (
        ap (λ a. a.0) (translate_attempts rt fl js cfg net scope request n w e)
        ∙ attempts_unsent n w u)
    | inr h ↦ inr (
        subst (IsAccounted n w) (sym (translate_attempts rt fl js cfg net scope request n w e))
          (attempts-IsAccounted n w he h))
  ]
