-- ===== src/Http/Language.antt =====
-- backend/internal/http/handlers.go: which language a question is answered in.
pub mod Resolved
use civika.Prelude.{
  ℕ, zero, suc, ◌+◌, ◌≡◌, ◌≢◌, refl, sym, ◌∙◌, ap, Bool, true, false, not, ◌&&◌, ◌||◌, Option, none,
  some, List, [], ◌∷◌, ◌++◌, length, take, drop, ◌==◌, if◌then◌else◌, arith, Bool-cases,
  Option-cases, ◌⊎◌, inl, inr, All, All-append,
}
use civika.Prelude.Result.{Result, ok, err}
use civika.Text.{index_byte, Str, codes, eqb, Runtime, trim_space, split, has_prefix, to_lower}
use civika.Text.Laws.{eqb_iff, eq_refl}
use civika.Langs.{is_lower, is_language_code, contains, normalize}
use civika.Langs.Codes.{normalize-cases}
use civika.Langs.Lists.{IsUnique, contains-append, IsUnique-snoc}

-- The code up to its dash, if that is not at the start.
unfoldable pub before_dash : Str → Str
unfolding index_byte
before_dash s = elim (index_byte s b'-') [
  | none ↦ s
  | some zero ↦ s
  | some (suc n) ↦ take (suc n) s
]

pub data LanguageError : Type 0 where
  invalid unsupported : LanguageError

-- The rest of a `q=` parameter is zero.
unfoldable pub is_zero_quality : Str → Bool
is_zero_quality quality =
    eqb quality (codes "0")
    || eqb quality (codes "0.0")
    || eqb quality (codes "0.00")
    || eqb quality (codes "0.000")

-- The end of one round of the loop; `out` also stands for `seen`.
unfoldable pub accept_base : List Str → Option Str → List Str
unfolding contains
accept_base out none = out
accept_base out (some normalized) = if contains out normalized then out else out ++ normalized ∷ []

-- `len(supported) == 0 || langs.Contains(supported, candidate)`
unfoldable pub is_allowed : List Str → Str → Bool
unfolding contains
is_allowed supported candidate = length supported == 0 || contains supported candidate

unfoldable pub first_allowed : List Str → List Str → Result LanguageError Str
unfolding is_allowed
first_allowed supported [] = err unsupported
first_allowed supported (candidate ∷ candidates) =
    if is_allowed supported candidate then ok candidate else first_allowed supported candidates

-- The end of `resolveQALanguage`: the first supported language, or French.
unfoldable pub last_resort : List Str → Str
last_resort [] = codes "fr"
last_resort (first ∷ supported) = first

unfoldable pub resolve_default : List Str → Option Str → Str
unfolding is_allowed last_resort
resolve_default supported none = last_resort supported
resolve_default supported (some normalized) =
    if is_allowed supported normalized then normalized else last_resort supported

unfoldable pub resolve_requested : List Str → Option Str → Result LanguageError Str
unfolding contains
resolve_requested supported none = err invalid
resolve_requested supported (some normalized) =
    if not (length supported == 0) && not (contains supported normalized)
    then err unsupported
    else ok normalized

module _ (rt : Runtime) where
  unfoldable pub normalize_base_language : Str → Option Str
  unfolding normalize before_dash
  normalize_base_language raw =
      let normalized = normalize rt raw in
      if eqb normalized [] then none else some (before_dash normalized)

  unfoldable pub has_zero_quality : List Str → Bool
  unfolding trim_space has_prefix to_lower is_zero_quality
  has_zero_quality [] = false
  has_zero_quality (raw ∷ parts) =
      let rest = has_zero_quality parts in
      let value = trim_space raw in
      if eqb value []
      then rest
      else if not (has_prefix (to_lower rt value) (codes "q="))
      then rest
      else is_zero_quality (trim_space (drop 2 value))

  -- A round for an item split at its semicolons, of which there is always a first part.
  unfoldable pub accept_item : List Str → List Str → List Str
  unfolding trim_space has_zero_quality normalize_base_language accept_base
  accept_item out [] = out
  accept_item out (first ∷ parameters) =
      let lang_part = trim_space first in
      if eqb lang_part [] || eqb lang_part (codes "*")
      then out
      else if has_zero_quality parameters
      then out
      else accept_base out (normalize_base_language lang_part)

  unfoldable pub accept_parts : List Str → List Str → List Str
  unfolding trim_space accept_item split
  accept_parts out [] = out
  accept_parts out (part ∷ parts) =
      let item = trim_space part in
      accept_parts (if eqb item [] then out else accept_item out (split item b';')) parts

  unfoldable pub parse_accept_language_header : Str → List Str
  unfolding accept_parts split
  parse_accept_language_header raw = accept_parts [] (split raw b',')

  unfoldable pub resolve_accepted : List Str → Str → List Str → Result LanguageError Str
  unfolding first_allowed resolve_default normalize_base_language
  resolve_accepted supported default_language [] =
      ok (resolve_default supported (normalize_base_language default_language))
  resolve_accepted supported default_language (c ∷ candidates) =
      first_allowed supported (c ∷ candidates)

  unfoldable pub resolve_qa_language : Str → Str → List Str → Str → Result LanguageError Str
  unfolding trim_space resolve_requested resolve_accepted parse_accept_language_header
      normalize_base_language
  resolve_qa_language body_language accept_language supported default_language =
      let requested = trim_space body_language in
      if not (eqb requested [])
      then resolve_requested supported (normalize_base_language requested)
      else resolve_accepted supported default_language
          (parse_accept_language_header accept_language)
