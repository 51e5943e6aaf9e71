-- ===== src/Langs/Codes.antt =====
-- backend/internal/langs/langs.go: normalising a language code.
use civika.Prelude.{◌≡◌, refl, true, List, [], ◌∷◌, ◌⊎◌, inl, inr, arith}
use civika.Text.{Str, Runtime, trim_space, to_lower}
use civika.Text.Laws.{eq_refl}
use civika.Langs.{is_language_code, normalize, normalize_or_fallback, contains}

-- A code has nothing to trim and nothing to lower.
trim_code : (s : Str) → is_language_code s ≡ true → trim_space s ≡ s
unfolding is_language_code trim_space
trim_code (a ∷ b ∷ []) h = ground arith
trim_code (a ∷ b ∷ d ∷ e ∷ f ∷ []) h = ground arith
trim_code _ h = ground arith

lower_code : (rt : Runtime) (s : Str) → is_language_code s ≡ true → to_lower rt s ≡ s
unfolding is_language_code to_lower
lower_code rt (a ∷ b ∷ []) h = ground arith
lower_code rt (a ∷ b ∷ d ∷ e ∷ f ∷ []) h = ground arith
lower_code rt _ h = ground arith

module _ (rt : Runtime) where
  -- What is normalised is a code, or empty.
  pub normalize-cases :
      (code : Str) → (normalize rt code ≡ []) ⊎ (is_language_code (normalize rt code) ≡ true)
  unfolding normalize
  normalize-cases code = ground arith

  pub normalize_of_code : (s : Str) → is_language_code s ≡ true → normalize rt s ≡ s
  unfolding normalize
  normalize_of_code s h = rw (trim_code s h, lower_code rt s h, h)

  normalize_nil : normalize rt [] ≡ []
  unfolding normalize
  normalize_nil = refl

  -- To normalise a language code twice is to normalise it once, for every text.
  pub normalize_idempotent : (code : Str) → normalize rt (normalize rt code) ≡ normalize rt code
  normalize_idempotent code = elim (normalize-cases code) [
    | inl e ↦ rw e (normalize_nil)
    | inr e ↦ normalize_of_code (normalize rt code) e
  ]

  -- NormalizeOrFallback returns the fallback, or a language code that is one of the supported codes if
  -- any are listed.
  pub normalize_or_fallback-cases :
      (raw fallback : Str) (supported : List Str)
      → (normalize_or_fallback rt raw fallback supported ≡ fallback)
        ⊎ ((is_language_code (normalize_or_fallback rt raw fallback supported) ≡ true)
            × ((supported ≡ [])
                ⊎ (contains supported (normalize_or_fallback rt raw fallback supported) ≡ true)))
  unfolding normalize_or_fallback
  normalize_or_fallback-cases raw fallback [] = ground (arith, normalize-cases raw, eq_refl [])
  normalize_or_fallback-cases raw fallback (c ∷ supported) =
      ground (arith, normalize-cases raw, eq_refl [])
