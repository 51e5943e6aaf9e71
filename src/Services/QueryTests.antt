-- ===== src/Services/QueryTests.antt =====
-- The theorems on a query at concrete inputs.
use civika.Prelude.{ℕ, ◌≡◌, refl, true, false, none, some, [], any, arith}
use civika.Prelude.Result.{ok, err}
use civika.Text.{codes, eqb, trim_space}
use civika.GoMap.{lookup, sweep}
use civika.Services.Models.{QaQueryInput, QaQueryOutput}
use civika.Services.QaCache.Invariant.{OptionIsValid}
use civika.Services.QaCache.Descent.{DescendsTo}
use civika.Services.CacheMetrics.{record_bypass_sensitive_question}
use civika.Services.Redact.{sanitize_question, is_cacheable_question}
use civika.Services.QaService.{query, no_hits_output, search}
use civika.Services.QaService.Settles.{is_search}
use civika.Services.QaService.Cached.{query_again, query_failed-Descends}
use civika.Services.QaService.Valid.{query-IsValid}
use civika.Services.QaService.Private.{with_cache, query_sensitive}
use civika.Samples.{
  plain_runtime, whole, context_zh, empty_cache, silent, broken, service_of, input_of, times_from,
}
use civika.Services.Tests.{empty_cache-IsValid, empty-older}

abbrev asked : QaQueryInput
asked = input_of (codes "Worum geht es?")

asked-present : eqb (trim_space asked.question) [] ≡ false
unfolding trim_space eqb
asked-present = refl

asked-cacheable : is_cacheable_question (sanitize_question (trim_space asked.question)) ≡ true
unfolding trim_space eqb is_cacheable_question sanitize_question
asked-cacheable = refl

abbrev nothing_found : QaQueryOutput ℕ
nothing_found =
    no_hits_output whole plain_runtime (times_from 10) silent 5 [] (codes "de") true context_zh

silent-answers :
    (query whole plain_runtime (service_of silent) (times_from 10) asked (some empty_cache)).result
    ≡ ok nothing_found
unfolding query no_hits_output eqb lookup sweep
silent-answers = refl

silent-searches :
    any is_search
      (query whole plain_runtime (service_of silent) (times_from 10) asked (some empty_cache)).asked
    ≡ true
unfolding query eqb lookup sweep
silent-searches = refl

query_again_example :
    ((query whole plain_runtime
        (service_of silent)
        (times_from 20)
        asked
        (query whole plain_runtime
          (service_of silent)
          (times_from 10)
          asked
          (some empty_cache)).cache).result
      ≡ ok nothing_found)
    × ((query whole plain_runtime
          (service_of silent)
          (times_from 20)
          asked
          (query whole plain_runtime
            (service_of silent)
            (times_from 10)
            asked
            (some empty_cache)).cache).asked
        ≡ [])
query_again_example =
    query_again whole plain_runtime (service_of silent) silent asked (times_from 10) (times_from 20)
      empty_cache nothing_found refl asked-present asked-cacheable empty_cache-IsValid (omega arith)
      (empty-older 12) (omega arith) silent-answers silent-searches

broken-fails :
    (query whole plain_runtime (service_of broken) (times_from 10) asked (some empty_cache)).result
    ≡ err (search 1)
unfolding query eqb lookup sweep
broken-fails = refl

query_failed-Descends_example :
    DescendsTo whole plain_runtime empty_cache
      (query whole plain_runtime (service_of broken) (times_from 10) asked (some empty_cache)).cache
query_failed-Descends_example =
    query_failed-Descends whole plain_runtime (service_of broken) broken asked (times_from 10)
      empty_cache (search 1) refl asked-present asked-cacheable empty_cache-IsValid broken-fails

abbrev private_input : QaQueryInput
private_input = input_of (codes "Mail an a@b.ch?")

private-present : eqb (trim_space private_input.question) [] ≡ false
unfolding trim_space eqb
private-present = refl

private-refused :
    is_cacheable_question (sanitize_question (trim_space private_input.question)) ≡ false
unfolding trim_space eqb is_cacheable_question sanitize_question
private-refused = refl

query_sensitive_example :
    query whole plain_runtime (service_of silent) (times_from 10) private_input (some empty_cache)
    ≡ with_cache
        (record_bypass_sensitive_question (some empty_cache))
        (query whole plain_runtime (service_of silent) (times_from 10) private_input none)
query_sensitive_example =
    query_sensitive whole plain_runtime (service_of silent) silent private_input (times_from 10)
      (some empty_cache) refl private-present private-refused

query-IsValid_example :
    OptionIsValid whole plain_runtime
      (query whole plain_runtime (service_of silent) (times_from 10) asked (some empty_cache)).cache
query-IsValid_example =
    query-IsValid whole plain_runtime (service_of silent) (times_from 10) asked (some empty_cache)
      empty_cache-IsValid
