-- ===== src/Config/Bounds.antt =====
-- backend/config/config.go: the ranges of the settings.
use civika.Prelude.{
  ℕ, ◌≤◌, ◌<◌, ◌≡◌, refl, Bool, true, not, ◌&&◌, List, [], ◌∷◌, ◌⊎◌, inl, inr, arith, if◌then◌else◌,
  Bool-cases,
}
use civika.Prelude.Int.{ℤ, pos, pos_part}
use civika.Text.{Str, codes, eqb, Runtime}
use civika.Text.Laws.{eq_refl}
use civika.Float.{FloatOps}
use civika.Langs.{contains, normalize}
use civika.Services.CacheState.{QaCacheConfig}
use civika.Config.{
  Parsers, get_env, get_env_parsed, clamp_int, positive_or, load_cache_config, first_or_french,
  normalize_language_with_preferred_fallback, load_languages,
}

clamp_int-bounds :
    (value : ℤ) (max_value fallback : ℕ)
    → 1 ≤ fallback
    → fallback ≤ max_value
    → (1 ≤ pos_part (clamp_int value (pos 1) (pos max_value) (pos fallback)))
      × (pos_part (clamp_int value (pos 1) (pos max_value) (pos fallback)) ≤ max_value)
unfolding clamp_int
clamp_int-bounds (ℤ.pos n) max_value fallback p q = (ground arith, ground arith)
clamp_int-bounds (ℤ.negsuc n) max_value fallback p q = (ground arith, ground arith)

positive_or-bounds :
    (value : ℤ) (fallback : ℕ) → 0 < fallback → 0 < pos_part (positive_or value (pos fallback))
unfolding positive_or
positive_or-bounds (ℤ.pos n) fallback p = ground arith
positive_or-bounds (ℤ.negsuc n) fallback p = ground arith

-- The numbers of the settings are in their ranges.
pub record IsBounded {F : Type 0} (cfg : QaCacheConfig F) : Type 0 where
  pub exact_ttl : 0 < cfg.exact_ttl
  pub exact_low : 1 ≤ cfg.exact_max_entries
  pub exact_high : cfg.exact_max_entries ≤ 50000
  pub semantic_ttl : 0 < cfg.semantic_ttl
  pub semantic_low : 1 ≤ cfg.semantic_max_entries
  pub semantic_high : cfg.semantic_max_entries ≤ 100000
  pub question : 0 < cfg.min_semantic_question_chars

-- Whatever the environment and the parsers give: the settings of the cache that LoadFromEnv makes have
-- positive TTLs, from 1 to 50000 exact entries, from 1 to 100000 semantic entries, and a positive
-- length of a semantic question.
pub load_cache_config-IsBounded :
    {F F32 : Type 0} (fl : FloatOps F F32) (p : Parsers F) (env : Str → Str)
    → IsBounded (load_cache_config fl p env)
unfolding load_cache_config
load_cache_config-IsBounded fl p env = record {
  exact_ttl =
      positive_or-bounds
        (get_env_parsed p.parse_duration env (codes "QA_CACHE_EXACT_TTL") (pos 600000000000))
        600000000000 (omega arith);
  exact_low =
      (clamp_int-bounds (get_env_parsed p.atoi env (codes "QA_CACHE_EXACT_MAX_ENTRIES") (pos 500))
        50000 500 (omega arith) (omega arith)).0;
  exact_high =
      (clamp_int-bounds (get_env_parsed p.atoi env (codes "QA_CACHE_EXACT_MAX_ENTRIES") (pos 500))
        50000 500 (omega arith) (omega arith)).1;
  semantic_ttl =
      positive_or-bounds
        (get_env_parsed p.parse_duration env (codes "QA_CACHE_SEMANTIC_TTL") (pos 86400000000000))
        86400000000000 (omega arith);
  semantic_low =
      (clamp_int-bounds
        (get_env_parsed p.atoi env (codes "QA_CACHE_SEMANTIC_MAX_ENTRIES") (pos 2000)) 100000 2000
        (omega arith) (omega arith)).0;
  semantic_high =
      (clamp_int-bounds
        (get_env_parsed p.atoi env (codes "QA_CACHE_SEMANTIC_MAX_ENTRIES") (pos 2000)) 100000 2000
        (omega arith) (omega arith)).1;
  question =
      positive_or-bounds
        (get_env_parsed p.atoi env (codes "QA_CACHE_SEMANTIC_MIN_QUESTION_CHARS") (pos 24)) 24
        (omega arith);
}

-- A language of the list, or French if there is none.
abbrev pub IsOffered : List Str → Str → Type 0
IsOffered supported l = (contains supported l ≡ true) ⊎ ((supported ≡ []) × (l ≡ codes "fr"))

first_or_french-IsOffered : (supported : List Str) → IsOffered supported (first_or_french supported)
unfolding first_or_french contains
first_or_french-IsOffered [] = inr (refl, refl)
first_or_french-IsOffered (s ∷ supported) = inl (rw (eq_refl s) refl)

and_right : (x y : Bool) → (x && y) ≡ true → y ≡ true
and_right x y h = ground arith

chosen-IsOffered :
    (supported : List Str) (a b : Str)
    → IsOffered supported (
        if not (eqb a []) && contains supported a
        then a
        else if not (eqb b []) && contains supported b
        then b
        else first_or_french supported)
chosen-IsOffered supported a b = elim (Bool-cases (not (eqb a []) && contains supported a)) [
  | inl e ↦ rw e (inl (and_right (not (eqb a [])) (contains supported a) e))
  | inr e ↦ elim (Bool-cases (not (eqb b []) && contains supported b)) [
    | inl f ↦ rw (e, f) (inl (and_right (not (eqb b [])) (contains supported b) f))
    | inr f ↦ rw (e, f) (first_or_french-IsOffered supported)
  ]
]

module _ (rt : Runtime) where
  preferred-IsOffered :
      (raw : Str) (supported : List Str) (preferred : Str)
      → IsOffered supported (normalize_language_with_preferred_fallback rt raw supported preferred)
  unfolding normalize_language_with_preferred_fallback
  preferred-IsOffered raw supported preferred =
      chosen-IsOffered supported (normalize rt raw) (normalize rt preferred)

  -- Whatever the environment is: the default language and the fallback language of LoadFromEnv are
  -- each one of the supported languages, or French if none is supported.
  pub load_languages-IsOffered :
      (env : Str → Str)
      → IsOffered (load_languages rt env).0 (load_languages rt env).1
        × IsOffered (load_languages rt env).0 (load_languages rt env).2
  unfolding load_languages
  load_languages-IsOffered env = (
    preferred-IsOffered (get_env env (codes "RAG_DEFAULT_LANGUAGE") (codes "fr"))
        (load_languages rt env).0 (codes "fr"),
    preferred-IsOffered (get_env env (codes "RAG_FALLBACK_LANGUAGE") (codes "en"))
        (load_languages rt env).0 (codes "en"),
  )
