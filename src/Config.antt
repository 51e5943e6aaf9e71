-- ===== src/Config.antt =====
-- backend/config/config.go: the settings of the answers' cache, the default languages and the check of
-- the mode. The environment and the parsers of strconv and time are arguments; a duration is a number of
-- nanoseconds.
pub mod Bounds
mod Tests
use civika.Prelude.{
  ℕ, zero, suc, Bool, true, false, not, ◌&&◌, ◌||◌, Option, none, some, List, [], ◌∷◌, length, leb,
  ltb, ◌==◌, if◌then◌else◌,
}
use civika.Prelude.Int.{ℤ, pos, pos_part, ltb_ℤ}
use civika.Prelude.Result.{Result, ok, err}
use civika.Text.{Str, codes, eqb, Runtime}
use civika.Float.{FloatOps}
use civika.Langs.{normalize, contains, parse_supported}
use civika.Services.CacheState.{QaCacheConfig}

-- `strconv.Atoi`, `strconv.ParseBool`, `time.ParseDuration` and `strconv.ParseFloat`; `none` is an error.
pub record Parsers (F : Type 0) : Type 0 where
  pub atoi : Str → Option ℤ
  pub parse_bool : Str → Option Bool
  pub parse_duration : Str → Option ℤ
  pub parse_float : Str → Option F

unfoldable pub get_env : (Str → Str) → Str → Str → Str
get_env env key fallback = if eqb (env key) [] then fallback else env key

-- `getEnvInt`, `getEnvBool`, `getEnvDuration` and `getEnvFloat64`, by their parsers.
unfoldable pub get_env_parsed : {A : Type 0} → (Str → Option A) → (Str → Str) → Str → A → A
get_env_parsed parse env key fallback =
    if eqb (env key) []
    then fallback
    else elim (parse (env key)) [ none ↦ fallback | some parsed ↦ parsed ]

unfoldable pub clamp_int : ℤ → ℤ → ℤ → ℤ → ℤ
clamp_int value min_value max_value fallback =
    if not (ltb_ℤ (pos 0) value)
    then fallback
    else if ltb_ℤ value min_value
    then min_value
    else if ltb_ℤ max_value value
    then max_value
    else value

-- A value that is not positive is replaced.
unfoldable pub positive_or : ℤ → ℤ → ℤ
positive_or value fallback = if not (ltb_ℤ (pos 0) value) then fallback else value

-- The settings of the cache in `LoadFromEnv`, read and then bounded.
unfoldable pub load_cache_config :
    {F F32 : Type 0} → FloatOps F F32 → Parsers F → (Str → Str) → QaCacheConfig F
unfolding get_env_parsed clamp_int positive_or
load_cache_config fl p env =
    let exact_ttl =
      get_env_parsed p.parse_duration env (codes "QA_CACHE_EXACT_TTL") (pos 600000000000) in
    let exact_max = get_env_parsed p.atoi env (codes "QA_CACHE_EXACT_MAX_ENTRIES") (pos 500) in
    let semantic_ttl =
      get_env_parsed p.parse_duration env (codes "QA_CACHE_SEMANTIC_TTL") (pos 86400000000000) in
    let semantic_max =
      get_env_parsed p.atoi env (codes "QA_CACHE_SEMANTIC_MAX_ENTRIES") (pos 2000) in
    let threshold =
      get_env_parsed p.parse_float env (codes "QA_CACHE_SEMANTIC_SIMILARITY_THRESHOLD")
        (fl.decimal 90 2) in
    let min_chars =
      get_env_parsed p.atoi env (codes "QA_CACHE_SEMANTIC_MIN_QUESTION_CHARS") (pos 24) in
    record {
      enabled = get_env_parsed p.parse_bool env (codes "QA_CACHE_ENABLED") false;
      exact_ttl = pos_part (positive_or exact_ttl (pos 600000000000));
      exact_max_entries = pos_part (clamp_int exact_max (pos 1) (pos 50000) (pos 500));
      semantic_enabled = get_env_parsed p.parse_bool env (codes "QA_CACHE_SEMANTIC_ENABLED") false;
      semantic_ttl = pos_part (positive_or semantic_ttl (pos 86400000000000));
      semantic_max_entries = pos_part (clamp_int semantic_max (pos 1) (pos 100000) (pos 2000));
      similarity_threshold =
          if fl.lt threshold (fl.of_int (pos 0))
            || fl.eq threshold (fl.of_int (pos 0))
            || fl.lt (fl.of_int (pos 1)) threshold
          then fl.decimal 90 2
          else threshold;
      min_semantic_question_chars = pos_part (positive_or min_chars (pos 24));
    }

-- The end of `normalizeLanguageWithPreferredFallback`.
unfoldable pub first_or_french : List Str → Str
first_or_french [] = codes "fr"
first_or_french (first ∷ supported) = first

module _ (rt : Runtime) where
  unfoldable pub normalize_language_with_preferred_fallback : Str → List Str → Str → Str
  unfolding normalize contains first_or_french
  normalize_language_with_preferred_fallback raw supported preferred_fallback =
      let normalized = normalize rt raw in
      let fallback = normalize rt preferred_fallback in
      if not (eqb normalized []) && contains supported normalized
      then normalized
      else if not (eqb fallback []) && contains supported fallback
      then fallback
      else first_or_french supported

  -- The languages of `LoadFromEnv`: the supported ones, the default and the fallback.
  unfoldable pub load_languages : (Str → Str) → List Str × Str × Str
  unfolding get_env parse_supported normalize_language_with_preferred_fallback
  load_languages env =
      let supported =
        parse_supported rt (get_env env (codes "RAG_SUPPORTED_LANGUAGES") [])
          (codes "fr" ∷ codes "de" ∷ codes "it" ∷ codes "rm" ∷ codes "en" ∷ []) in
      (
        supported,
        normalize_language_with_preferred_fallback
            (get_env env (codes "RAG_DEFAULT_LANGUAGE") (codes "fr")) supported (codes "fr"),
        normalize_language_with_preferred_fallback
            (get_env env (codes "RAG_FALLBACK_LANGUAGE") (codes "en")) supported (codes "en"),
      )
