-- ===== src/Http/Language/Resolved.antt =====
-- backend/internal/http/handlers.go: the language of a question and the candidates of the header.
use civika.Prelude.{
  ◌≡◌, refl, subst, Bool, true, false, ◌&&◌, ◌||◌, Option, none, some, List, [], ◌∷◌, if◌then◌else◌,
  arith, Bool-cases, ◌⊎◌, inl, inr, All, All-append,
}
use civika.Prelude.Result.{Result, ok}
use civika.Text.{index_byte, Str, codes, eqb, Runtime, trim_space, split}
use civika.Text.Laws.{eq_refl}
use civika.Langs.{is_lower, is_language_code, contains, normalize}
use civika.Langs.Codes.{normalize-cases}
use civika.Langs.Lists.{IsUnique, IsUnique-snoc}
use civika.Http.Language.{
  before_dash, normalize_base_language, has_zero_quality, accept_base, accept_item, accept_parts,
  parse_accept_language_header, is_allowed, first_allowed, last_resort, resolve_default,
  resolve_requested, resolve_accepted, resolve_qa_language,
}

-- Two lower-case letters.
abbrev pub is_base : Str → Bool
is_base (a ∷ b ∷ []) = is_lower a && is_lower b
is_base _ = false

before_dash-is_base : (s : Str) → is_language_code s ≡ true → is_base (before_dash s) ≡ true
unfolding is_language_code before_dash index_byte is_lower
before_dash-is_base (a ∷ b ∷ []) h = ground arith
before_dash-is_base (a ∷ b ∷ d ∷ e ∷ f ∷ []) h = ground arith
before_dash-is_base _ h = ground arith

if-ok :
    {E A : Type 0} (b : Bool) (x : A) (r : Result E A) (l : A)
    → (if b then ok x else r) ≡ ok l
    → ((b ≡ true) × (x ≡ l)) ⊎ ((b ≡ false) × (r ≡ ok l))
if-ok true x r l h = inl (refl, cc)
if-ok false x r l h = inr (refl, h)

ok_same : {E A : Type 0} (x y : A) → ◌≡◌ {A = Result E A} (ok x) (ok y) → x ≡ y
ok_same x y h = cc

abbrev pub IsCandidates : List Str → Type 0
IsCandidates out = All (λ c. is_base c ≡ true) out × IsUnique out

accept_base-IsCandidates :
    (out : List Str) (o : Option Str)
    → ((l : Str) → o ≡ some l → is_base l ≡ true)
    → IsCandidates out
    → IsCandidates (accept_base out o)
unfolding accept_base
accept_base-IsCandidates out none h v = v
accept_base-IsCandidates out (some l) h v = elim (Bool-cases (contains out l)) [
  | inl old ↦ rw old v
  | inr new ↦ rw new (All-append _ out _ v.0 (h l refl, tt), IsUnique-snoc out l v.1 new)
]

-- A supported language, or any code where all are allowed.
abbrev pub IsServed : List Str → Str → Type 0
IsServed supported l = (contains supported l ≡ true) ⊎ ((supported ≡ []) × (is_base l ≡ true))

is_allowed-IsServed :
    (supported : List Str) (l : Str)
    → is_base l ≡ true
    → is_allowed supported l ≡ true
    → IsServed supported l
unfolding is_allowed
is_allowed-IsServed [] l b h = inr (refl, b)
is_allowed-IsServed (s ∷ supported) l b h = inl (ground arith)

first_allowed-IsServed :
    (supported candidates : List Str) (l : Str)
    → All (λ c. is_base c ≡ true) candidates
    → first_allowed supported candidates ≡ ok l
    → IsServed supported l
unfolding first_allowed
first_allowed-IsServed supported [] l b h = cc
first_allowed-IsServed supported (c ∷ candidates) l (b, bs) h =
    elim (if-ok (is_allowed supported c) c (first_allowed supported candidates) l h) [
      | inl (e, same) ↦ subst (IsServed supported) same (is_allowed-IsServed supported c b e)
      | inr (e, h') ↦ first_allowed-IsServed supported candidates l bs h'
    ]

last_resort-IsServed : (supported : List Str) → IsServed supported (last_resort supported)
unfolding last_resort contains is_lower
last_resort-IsServed [] = inr (refl, refl)
last_resort-IsServed (s ∷ supported) = inl (rw (eq_refl s) refl)

resolve_default-IsServed :
    (supported : List Str) (o : Option Str)
    → ((l : Str) → o ≡ some l → is_base l ≡ true)
    → IsServed supported (resolve_default supported o)
unfolding resolve_default
resolve_default-IsServed supported none h = last_resort-IsServed supported
resolve_default-IsServed supported (some n) h = elim (Bool-cases (is_allowed supported n)) [
  | inl e ↦ rw e (is_allowed-IsServed supported n (h n refl) e)
  | inr e ↦ rw e (last_resort-IsServed supported)
]

resolve_requested-IsServed :
    (supported : List Str) (o : Option Str) (l : Str)
    → ((l : Str) → o ≡ some l → is_base l ≡ true)
    → resolve_requested supported o ≡ ok l
    → IsServed supported l
unfolding resolve_requested
resolve_requested-IsServed supported none l b h = cc
resolve_requested-IsServed [] (some n) l b h =
    inr (refl, subst (λ k. is_base k ≡ true) (ok_same n l h) (b n refl))
resolve_requested-IsServed (s ∷ supported) (some n) l b h = inl (ground arith)

module _ (rt : Runtime) where
  pub normalize_base_language-is_base :
      (raw l : Str) → normalize_base_language rt raw ≡ some l → is_base l ≡ true
  unfolding normalize_base_language
  normalize_base_language-is_base raw l h =
      ground (arith, normalize-cases rt raw, eq_refl [], before_dash-is_base (normalize rt raw))

  accept_item-IsCandidates :
      (out item : List Str) → IsCandidates out → IsCandidates (accept_item rt out item)
  unfolding accept_item
  accept_item-IsCandidates out [] v = v
  accept_item-IsCandidates out (first ∷ parameters) v =
      elim (Bool-cases (eqb (trim_space first) [] || eqb (trim_space first) (codes "*"))) [
        | inl e ↦ rw e v
        | inr e ↦ elim (Bool-cases (has_zero_quality rt parameters)) [
          | inl z ↦ rw (e, z) v
          | inr z ↦
              rw (e, z)
                (accept_base-IsCandidates out (normalize_base_language rt (trim_space first))
                  (normalize_base_language-is_base (trim_space first)) v)
        ]
      ]

  accept_parts-IsCandidates :
      (out parts : List Str) → IsCandidates out → IsCandidates (accept_parts rt out parts)
  unfolding accept_parts
  accept_parts-IsCandidates out [] v = v
  accept_parts-IsCandidates out (part ∷ parts) v = elim (Bool-cases (eqb (trim_space part) [])) [
    | inl e ↦ rw e (accept_parts-IsCandidates out parts v)
    | inr e ↦ rw e (
        accept_parts-IsCandidates (accept_item rt out (split (trim_space part) b';')) parts
          (accept_item-IsCandidates out (split (trim_space part) b';') v))
  ]

  -- Whatever the Accept-Language header is: its candidates are codes of two lower-case letters, and
  -- none of them is listed twice.
  pub parse_accept_language_header-IsCandidates :
      (raw : Str) → IsCandidates (parse_accept_language_header rt raw)
  unfolding parse_accept_language_header
  parse_accept_language_header-IsCandidates raw =
      accept_parts-IsCandidates [] (split raw b',') (tt, tt)

  resolve_accepted-IsServed :
      (supported candidates : List Str) (default_language l : Str)
      → All (λ c. is_base c ≡ true) candidates
      → resolve_accepted rt supported default_language candidates ≡ ok l
      → IsServed supported l
  unfolding resolve_accepted
  resolve_accepted-IsServed supported [] default_language l b h =
      subst (IsServed supported) (ok_same _ l h) (
        resolve_default-IsServed supported (normalize_base_language rt default_language)
          (normalize_base_language-is_base default_language))
  resolve_accepted-IsServed supported (c ∷ candidates) default_language l b h =
      first_allowed-IsServed supported (c ∷ candidates) l b h

  -- A language that resolveQALanguage returns is one of the supported languages, or, where none is
  -- listed, a code of two lower-case letters.
  pub resolve_qa_language-IsServed :
      (body_language accept_language : Str) (supported : List Str) (default_language l : Str)
      → resolve_qa_language rt body_language accept_language supported default_language ≡ ok l
      → IsServed supported l
  unfolding resolve_qa_language
  resolve_qa_language-IsServed body accept supported default_language l h =
      elim (Bool-cases (eqb (trim_space body) [])) [
        | inl e ↦
            resolve_accepted-IsServed supported (parse_accept_language_header rt accept)
              default_language l (parse_accept_language_header-IsCandidates accept).0 (ground arith)
        | inr e ↦
            resolve_requested-IsServed supported (normalize_base_language rt (trim_space body)) l
              (normalize_base_language-is_base (trim_space body)) (ground arith)
      ]

  -- Without a language in the body and without a usable candidate in the header, the question gets a
  -- language: the default's base code if it is allowed, or the last resort.
  pub resolve_qa_language_of_nothing :
      (body_language accept_language : Str) (supported : List Str) (default_language : Str)
      → trim_space body_language ≡ []
      → parse_accept_language_header rt accept_language ≡ []
      → resolve_qa_language rt body_language accept_language supported default_language
        ≡ ok (resolve_default supported (normalize_base_language rt default_language))
  unfolding resolve_qa_language resolve_accepted
  resolve_qa_language_of_nothing body accept supported default_language blank nothing =
      rw (blank, nothing, eq_refl []) refl
