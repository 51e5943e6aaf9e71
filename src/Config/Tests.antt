-- ===== src/Config/Tests.antt =====
-- The theorems on the settings at concrete inputs.
use civika.Prelude.{ℕ, true, none, some, [], if◌then◌else◌}
use civika.Prelude.Int.{pos}
use civika.Text.{Str, codes, eqb}
use civika.Samples.{whole}
use civika.Config.{Parsers, load_cache_config}
use civika.Config.Bounds.{IsBounded, load_cache_config-IsBounded}

-- An environment in which the bound of the exact entries is too large and the default is not offered.
abbrev environment : Str → Str
environment key =
    if eqb key (codes "QA_CACHE_EXACT_MAX_ENTRIES")
    then codes "60000"
    else if eqb key (codes "RAG_SUPPORTED_LANGUAGES")
    then codes "it,de"
    else []

abbrev parsers : Parsers ℕ
parsers = record {
  atoi = λ s. some (pos 60000);
  parse_bool = λ s. some true;
  parse_duration = λ s. none;
  parse_float = λ s. none;
}

load_cache_config-IsBounded_example : IsBounded (load_cache_config whole parsers environment)
load_cache_config-IsBounded_example = load_cache_config-IsBounded whole parsers environment
