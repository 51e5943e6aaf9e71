-- ===== src/Rag/Usage/Sanitize.antt =====
-- backend/internal/rag/usage_metrics.go: the events that sanitizeUsageEvent lets pass, and the page of
-- a list.
use civika.Prelude.{
  ℕ, ◌+◌, ◌<◌, ◌≤◌, ◌≡◌, ◌≢◌, refl, Bool, true, false, ◌||◌, none, some, [], ◌∷◌, arith, Bool-cases,
  inl, inr, subst,
}
use civika.Prelude.Int.{ℤ, pos, negsuc, pos_part, ◌≤ℤ◌, ◌+ℤ◌}
use civika.Text.{Str, eqb, trim_space}
use civika.Text.Laws.{not_empty, eqb_empty}
use civika.Text.Atoi.{add_int, wrap, int_half}
use civika.Rag.Usage.{
  UsageScope, UsageEvent, filled, or_if_blank, or_if_empty, sanitized, or_if_zero, is_zero,
  not_negative, sanitize_usage_event, normalize_usage_pagination,
}

-- The fields of an event that the table requires are set, and no number is negative.
pub record IsSanitized (event : UsageEvent) : Type 0 where
  pub has_flow : event.flow ≢ []
  pub has_operation : event.operation ≢ []
  pub has_mode : event.mode ≢ []
  pub has_provider : event.provider_name ≢ []
  pub has_model : event.model_name ≢ []
  pub has_source : event.usage_source ≢ []
  pub has_status : event.status ≢ []
  pub input_chars_sign : pos 0 ≤ℤ event.input_chars
  pub output_chars_sign : pos 0 ≤ℤ event.output_chars
  pub input_sign : pos 0 ≤ℤ event.input_tokens
  pub output_sign : pos 0 ≤ℤ event.output_tokens
  pub total_sign : pos 0 ≤ℤ event.total_tokens
  pub duration_sign : pos 0 ≤ℤ event.duration_ms

not_negative_sign : (n : ℤ) → pos 0 ≤ℤ not_negative n
unfolding not_negative
not_negative_sign n = ground arith

or_if_empty_filled : (s t : Str) → t ≢ [] → or_if_empty s t ≢ []
unfolding or_if_empty eqb
or_if_empty_filled [] t h = h
or_if_empty_filled (c ∷ s) t h = λ e. cc

-- A sum of two numbers that are not negative and fit an int.
add_int_sign :
    (a b : ℤ) → pos 0 ≤ℤ a → pos 0 ≤ℤ b → pos_part a + pos_part b < int_half → pos 0 ≤ℤ add_int a b
unfolding add_int wrap ◌+ℤ◌
add_int_sign (pos a) (pos b) ha hb h = ground arith
add_int_sign (negsuc a) b ha hb h = absurd (omega arith)
add_int_sign (pos a) (negsuc b) ha hb h = absurd (omega arith)

or_if_zero_sign : (n m : ℤ) → pos 0 ≤ℤ n → pos 0 ≤ℤ m → pos 0 ≤ℤ or_if_zero n m
unfolding or_if_zero is_zero
or_if_zero_sign n m hn hm = ground arith

not_negative_le : (n : ℤ) → pos_part (not_negative n) ≤ pos_part n
unfolding not_negative
not_negative_le n = ground arith

sanitized-IsSanitized :
    (now : ℕ) (fresh : Str) (event : UsageEvent)
    → pos_part event.input_tokens + pos_part event.output_tokens < int_half
    → trim_space event.flow ≢ []
    → trim_space event.operation ≢ []
    → trim_space event.mode ≢ []
    → IsSanitized (sanitized now fresh event)
unfolding sanitized
sanitized-IsSanitized now fresh event bound hf ho hm = record {
  has_flow = hf;
  has_operation = ho;
  has_mode = hm;
  has_provider = or_if_empty_filled _ _ (λ e. cc);
  has_model = or_if_empty_filled _ _ (λ e. cc);
  has_source = or_if_empty_filled _ _ (λ e. cc);
  has_status = or_if_empty_filled _ _ (λ e. cc);
  input_chars_sign = not_negative_sign event.input_chars;
  output_chars_sign = not_negative_sign event.output_chars;
  input_sign = not_negative_sign event.input_tokens;
  output_sign = not_negative_sign event.output_tokens;
  total_sign =
      or_if_zero_sign (not_negative event.total_tokens)
        (add_int (not_negative event.input_tokens) (not_negative event.output_tokens))
        (not_negative_sign event.total_tokens)
        (add_int_sign (not_negative event.input_tokens) (not_negative event.output_tokens)
          (not_negative_sign event.input_tokens) (not_negative_sign event.output_tokens)
          (omega (arith, not_negative_le event.input_tokens, not_negative_le event.output_tokens)));
  duration_sign = not_negative_sign event.duration_ms;
}

-- The guard of the function, in its three cases.
or_false : (a b c : Bool) → (a || b || c) ≡ false → (a ≡ false) × (b ≡ false) × (c ≡ false)
or_false true b c h = absurd cc
or_false false true c h = absurd cc
or_false false false c h = (refl, refl, h)

-- If the input and output tokens of an event, as far as they are positive, have a sum below 2 ^ 63:
-- when sanitizeUsageEvent returns an event, its flow, operation, mode, provider, model, source and
-- status are not empty, and no number in it is negative.
pub sanitize_usage_event-IsSanitized :
    (now : ℕ) (fresh : Str) (event r : UsageEvent)
    → pos_part event.input_tokens + pos_part event.output_tokens < int_half
    → sanitize_usage_event now fresh event ≡ some r
    → IsSanitized r
unfolding sanitize_usage_event
sanitize_usage_event-IsSanitized now fresh event r bound h =
    elim (Bool-cases (
      eqb (trim_space event.flow) []
      || eqb (trim_space event.operation) []
      || eqb (trim_space event.mode) [])) [
        | inl t ↦ absurd (let e : none ≡ some r = rw t at h in cc)
        | inr t ↦
            let e : some (sanitized now fresh event) ≡ some r = rw t at h in
            let (a, b, c) = or_false _ _ _ t in
            subst IsSanitized (let i : sanitized now fresh event ≡ r = cc in i) (
              sanitized-IsSanitized now fresh event bound (not_empty _ a) (not_empty _ b)
                (not_empty _ c))
      ]

sanitize_usage_event-some :
    (now : ℕ) (fresh : Str) (event : UsageEvent)
    → trim_space event.flow ≢ []
    → trim_space event.operation ≢ []
    → trim_space event.mode ≢ []
    → sanitize_usage_event now fresh event ≡ some (sanitized now fresh event)
unfolding sanitize_usage_event
sanitize_usage_event-some now fresh event hf ho hm =
    rw
      (
        eqb_empty (trim_space event.flow) hf,
        eqb_empty (trim_space event.operation) ho,
        eqb_empty (trim_space event.mode) hm,
      )
      refl

or_if_blank_filled : (s t : Str) → trim_space t ≢ [] → trim_space (or_if_blank s t) ≢ []
unfolding or_if_blank
or_if_blank_filled s t h = elim (Bool-cases (eqb (trim_space s) [])) [
  | inl e ↦ rw e h
  | inr e ↦ rw e (not_empty (trim_space s) e)
]

pub sanitize_usage_event-filled :
    (scope : UsageScope) (now later : ℕ) (fresh : Str) (event : UsageEvent)
    → trim_space scope.flow ≢ []
    → trim_space scope.mode ≢ []
    → trim_space event.operation ≢ []
    → sanitize_usage_event later fresh (filled scope now event)
      ≡ some (sanitized later fresh (filled scope now event))
unfolding filled
sanitize_usage_event-filled scope now later fresh event hf hm ho =
    sanitize_usage_event-some later fresh (filled scope now event)
      (or_if_blank_filled event.flow scope.flow hf) ho (or_if_blank_filled event.mode scope.mode hm)

pub normalize_usage_pagination-bounds :
    (limit offset : ℤ)
    → (pos 1 ≤ℤ (normalize_usage_pagination limit offset).0)
      × ((normalize_usage_pagination limit offset).0 ≤ℤ pos 1000)
      × (pos 0 ≤ℤ (normalize_usage_pagination limit offset).1)
unfolding normalize_usage_pagination not_negative
normalize_usage_pagination-bounds limit offset = ground arith
