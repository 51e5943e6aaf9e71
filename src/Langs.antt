-- ===== src/Langs.antt =====
-- backend/internal/langs/langs.go: language codes.
pub mod Codes
pub mod Lists
mod Tests
use civika.Prelude.{
  Bool, true, false, not, ◌&&◌, ◌||◌, List, [], ◌∷◌, ◌++◌, ℕ, leb, ltb, length, ◌==◌, if◌then◌else◌,
}
use civika.Prelude.Sort.{sort_slice}
use civika.Text.{Str, Runtime, eqb, trim_space, to_lower, split, str_lt}

-- [a-z]
unfoldable pub is_lower : ℕ → Bool
is_lower c = leb b'a' c && leb c b'z'

-- ^[a-z]{2}(-[a-z]{2})?$
unfoldable pub is_language_code : Str → Bool
unfolding is_lower
is_language_code (a ∷ b ∷ []) = is_lower a && is_lower b
is_language_code (a ∷ b ∷ d ∷ e ∷ f ∷ []) =
    is_lower a && is_lower b && d == b'-' && is_lower e && is_lower f
is_language_code _ = false

-- `Contains`
unfoldable pub contains : List Str → Str → Bool
contains [] code = false
contains (value ∷ list) code = eqb value code || contains list code

module _ (rt : Runtime) where
  unfoldable pub normalize : Str → Str
  unfolding is_language_code to_lower trim_space
  normalize code =
      let normalized = to_lower rt (trim_space code) in
      if not (is_language_code normalized) then [] else normalized

  -- `push` of `ParseSupported` and the loop of `StableSorted`; the set `seen` holds what `out` does.
  unfoldable pub push : List Str → Str → List Str
  unfolding contains normalize
  push out value =
      let normalized = normalize value in
      if eqb normalized []
      then out
      else if contains out normalized
      then out
      else out ++ normalized ∷ []

  unfoldable pub push_all : List Str → List Str → List Str
  unfolding push
  push_all out [] = out
  push_all out (value ∷ values) = push_all (push out value) values

  unfoldable pub parse_supported : Str → List Str → List Str
  unfolding push_all trim_space split
  parse_supported raw defaults =
      let trimmed = trim_space raw in
      if eqb trimmed [] then push_all [] defaults else push_all [] (split trimmed b',')

  unfoldable pub normalize_or_fallback : Str → Str → List Str → Str
  unfolding normalize contains
  normalize_or_fallback raw fallback supported =
      let candidate = normalize raw in
      if eqb candidate []
      then fallback
      else if length supported == 0
      then candidate
      else if contains supported candidate
      then candidate
      else fallback

  unfoldable pub stable_sorted : List Str → List Str
  unfolding push_all sort_slice str_lt
  stable_sorted input = sort_slice str_lt (push_all [] input)
