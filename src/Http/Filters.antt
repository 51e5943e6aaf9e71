-- ===== src/Http/Filters.antt =====
-- backend/internal/http/handlers.go: the filters of the list of votations. The parameters of the URL
-- are a function of their names; `strconv.Atoi` and `time.Parse` are arguments, `none` is an error.
pub mod Accepted
use civika.Prelude.{
  ℕ, ◌+◌, Bool, true, false, not, ◌&&◌, ◌||◌, Option, none, some, List, [], ◌∷◌, if◌then◌else◌,
}
use civika.Prelude.Int.{ℤ, pos, ltb_ℤ}
use civika.Prelude.Result.{Result, ok, err, ◌>>=◌}
use civika.Text.{Str, codes, eqb, Runtime, trim_space, to_lower, to_upper}
use civika.Langs.{is_language_code}
use civika.Http.Request.{is_canton}

pub record VotationFilters : Type 0 where
  pub date_from : Option ℕ
  pub date_to : Option ℕ
  pub level : Str
  pub canton : Str
  pub status : Str
  pub lang : Str
  pub limit : ℤ
  pub offset : ℤ

pub data FilterError : Type 0 where
  invalid_limit invalid_offset invalid_level invalid_status : FilterError
  invalid_canton invalid_date_from invalid_date_to : FilterError

unfoldable pub is_allowed_value : Str → List Str → Bool
is_allowed_value value [] = false
is_allowed_value value (item ∷ allowed) = eqb value item || is_allowed_value value allowed

unfoldable pub limit_of : Option ℤ → Result FilterError ℤ
limit_of none = err invalid_limit
limit_of (some limit) =
    if ltb_ℤ limit (pos 1) || ltb_ℤ (pos 100) limit then err invalid_limit else ok limit

unfoldable pub offset_of : Option ℤ → Result FilterError ℤ
offset_of none = err invalid_offset
offset_of (some offset) = if ltb_ℤ offset (pos 0) then err invalid_offset else ok offset

-- A value that is empty or passes the test.
unfoldable pub checked : FilterError → Str → Bool → Result FilterError Str
checked e value passes = if not (eqb value []) && not passes then err e else ok value

unfoldable pub date_of : FilterError → (Str → Option ℕ) → Str → Result FilterError (Option ℕ)
date_of e parse_time raw =
    if eqb raw []
    then ok none
    else elim (parse_time raw) [ none ↦ err e | some value ↦ ok (some value) ]

abbrev pub levels : List Str
levels = codes "federal" ∷ codes "cantonal" ∷ codes "communal" ∷ []

abbrev pub statuses : List Str
statuses = codes "past" ∷ codes "upcoming" ∷ []

module _ (rt : Runtime) where
  unfoldable pub normalize_language : Str → Str
  unfolding to_lower trim_space is_language_code
  normalize_language raw =
      let lang = to_lower rt (trim_space raw) in if is_language_code lang then lang else codes "fr"

  module _ (atoi : Str → Option ℤ) (parse_time : Str → Option ℕ) (q : Str → Str) where
    unfoldable pub read_limit : Result FilterError ℤ
    unfolding limit_of
    read_limit =
        if eqb (q (codes "limit")) [] then ok (pos 20) else limit_of (atoi (q (codes "limit")))

    unfoldable pub read_offset : Result FilterError ℤ
    unfolding offset_of
    read_offset =
        if eqb (q (codes "offset")) [] then ok (pos 0) else offset_of (atoi (q (codes "offset")))

    unfoldable pub parse_votation_filters : Result FilterError VotationFilters
    unfolding read_limit read_offset checked date_of is_allowed_value is_canton normalize_language
        to_lower to_upper trim_space
    parse_votation_filters =
        let asked_level = to_lower rt (trim_space (q (codes "level"))) in
        let asked_canton = to_upper rt (trim_space (q (codes "canton"))) in
        let asked_status = to_lower rt (trim_space (q (codes "status"))) in
        do
          limit ← read_limit
          offset ← read_offset
          level ← checked invalid_level asked_level (is_allowed_value asked_level levels)
          status ← checked invalid_status asked_status (is_allowed_value asked_status statuses)
          canton ← checked invalid_canton asked_canton (is_canton asked_canton)
          date_from ← date_of invalid_date_from parse_time (q (codes "date_from"))
          date_to ← date_of invalid_date_to parse_time (q (codes "date_to"))
          ok (record {
            date_from = date_from;
            date_to = date_to;
            level = level;
            canton = canton;
            status = status;
            lang = normalize_language (q (codes "lang"));
            limit = limit;
            offset = offset;
          })
