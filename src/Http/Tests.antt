-- ===== src/Http/Tests.antt =====
-- The theorems on the HTTP layer at concrete inputs.
use civika.Prelude.{
  ℕ, zero, suc, ◌+◌, ◌*◌, ◌<◌, ◌≡◌, refl, List, [], ◌∷◌, All, true, false, some, none,
  if◌then◌else◌, arith,
}
use civika.Prelude.Int.{pos}
use civika.Prelude.Result.{ok}
use civika.Text.{Str, codes, eqb}
use civika.GoMap.{lookup, Distinct}
use civika.Samples.{plain_runtime, answer_ja, input_of}
use civika.Http.Language.{resolve_qa_language}
use civika.Http.Filters.{VotationFilters, parse_votation_filters}
use civika.Http.Filters.Accepted.{IsAccepted, parse_votation_filters-IsAccepted}
use civika.Http.Handler.{QaRequest, qa_query_handler}
use civika.Http.Handler.Called.{IsGuarded, qa_query_handler-IsGuarded}
use civika.Http.RateLimit.{Bucket, QaRateLimiter, new_qa_rate_limiter, limiter_of, allow}
use civika.Http.RateLimit.Visitors.{run, last_time, run-recent}
use civika.Http.RateLimit.Known.{known, allow-known}

resolved_it :
    resolve_qa_language plain_runtime []
      (codes "en, it-CH")
      (codes "fr" ∷ codes "it" ∷ [])
      (codes "fr")
    ≡ ok (codes "it")
unfolding resolve_qa_language eqb
resolved_it = refl

abbrev request : QaRequest
request = record {
  payload = some (input_of (codes "Worum geht es?"));
  at_end = true;
  accept_language = [];
}

qa_query_handler-IsGuarded_example :
    IsGuarded {F = ℕ} {E = ℕ} plain_runtime
      (codes "de" ∷ [])
      (codes "de")
      (λ i. ok answer_ja)
      (qa_query_handler {E = ℕ} plain_runtime
        (codes "de" ∷ [])
        (codes "de")
        (some (λ i. ok answer_ja))
        request)
qa_query_handler-IsGuarded_example =
    qa_query_handler-IsGuarded {F = ℕ} {E = ℕ} plain_runtime (codes "de" ∷ []) (codes "de")
      (λ i. ok answer_ja) request

-- A bucket of two tokens that is never filled again.
abbrev two_tokens : Bucket ℕ
two_tokens = record {
  new_limiter = 2;
  allow_n = λ n now. elim n [ zero ↦ (0, false) | suc m ↦ (m, true) ];
}

abbrev calls : List (List ℕ × ℕ)
calls = (codes "a", 1) ∷ (codes "b", 5) ∷ (codes "a", 40) ∷ []

run-recent_example :
    All
      (λ e.
        last_time two_tokens 0 calls
        < (e.1).last_seen + (new_qa_rate_limiter {L = ℕ} (pos 10) 0).cleanup_interval * 3)
      (run two_tokens calls (new_qa_rate_limiter (pos 10) 0)).visitors
run-recent_example =
    run-recent two_tokens (pos 10) 0 calls (omega arith, (omega arith, (omega arith, tt)))

abbrev seen_a : QaRateLimiter ℕ
seen_a = record {
  visitors = (codes "a", record { limiter = 1; last_seen = 3 }) ∷ [];
  cleanup_interval = 10;
  last_cleanup = 0;
}

seen_a-Distinct : Distinct seen_a.visitors
unfolding lookup
seen_a-Distinct = (refl, tt)

allow-known_example :
    ((allow two_tokens (codes "a") 9 seen_a).1
      ≡ (two_tokens.allow_n (limiter_of two_tokens (known two_tokens 9 seen_a (codes "a"))) 9).1)
    × ((j : List ℕ)
        → lookup j (allow two_tokens (codes "a") 9 seen_a).0.visitors ≡ (
            if eqb (codes "a") j
            then some (record {
              limiter =
                  (two_tokens.allow_n
                    (limiter_of two_tokens (known two_tokens 9 seen_a (codes "a")))
                    9).0;
              last_seen = 9;
            })
            else known two_tokens 9 seen_a j))
allow-known_example = allow-known two_tokens (codes "a") 9 seen_a seen_a-Distinct

-- A request for federal votations.
abbrev parameters : Str → Str
parameters key = if eqb key (codes "level") then codes "Federal" else []

abbrev federal : VotationFilters
federal = record {
  date_from = none;
  date_to = none;
  level = codes "federal";
  canton = [];
  status = [];
  lang = codes "fr";
  limit = pos 20;
  offset = pos 0;
}

federal-parsed :
    parse_votation_filters plain_runtime (λ s. none) (λ s. none) parameters ≡ ok federal
unfolding parse_votation_filters eqb
federal-parsed = refl

parse_votation_filters-IsAccepted_example : IsAccepted federal
parse_votation_filters-IsAccepted_example =
    parse_votation_filters-IsAccepted plain_runtime (λ s. none) (λ s. none) parameters federal
      federal-parsed
