-- ===== src/Http/Filters/Accepted.antt =====
-- backend/internal/http/handlers.go: filters that are accepted.
use civika.Prelude.{
  ℕ, ◌≡◌, refl, subst, Bool, true, ◌||◌, Option, none, some, [], ◌⊎◌, inl, inr, arith, Bool-cases,
}
use civika.Prelude.Int.{ℤ, pos, ◌≤ℤ◌, ltb_ℤ}
use civika.Prelude.Result.{Result, ok, bind-ok-then}
use civika.Text.{Str, codes, eqb, Runtime, trim_space, to_lower, to_upper}
use civika.Text.Laws.{eqb_iff}
use civika.Langs.{is_language_code}
use civika.Http.Request.{is_canton}
use civika.Http.Filters.{
  VotationFilters, FilterError, invalid_level, invalid_status, invalid_canton, invalid_date_from,
  invalid_date_to, is_allowed_value, limit_of, offset_of, checked, date_of, levels, statuses,
  normalize_language, read_limit, read_offset, parse_votation_filters,
}

-- The filters are in their ranges; a text filter that is empty is not applied.
pub record IsAccepted (f : VotationFilters) : Type 0 where
  pub limit_low : pos 1 ≤ℤ f.limit
  pub limit_high : f.limit ≤ℤ pos 100
  pub offset : pos 0 ≤ℤ f.offset
  pub level : (f.level ≡ []) ⊎ (is_allowed_value f.level levels ≡ true)
  pub status : (f.status ≡ []) ⊎ (is_allowed_value f.status statuses ≡ true)
  pub canton : (f.canton ≡ []) ⊎ (is_canton f.canton ≡ true)
  pub lang : is_language_code f.lang ≡ true

ok_same :
    {x y : VotationFilters} → ◌≡◌ {A = Result FilterError VotationFilters} (ok x) (ok y) → x ≡ y
ok_same h = cc

limit_of-range : (o : Option ℤ) (n : ℤ) → limit_of o ≡ ok n → (pos 1 ≤ℤ n) × (n ≤ℤ pos 100)
unfolding limit_of
limit_of-range none n h = cc
limit_of-range (some m) n h = elim (Bool-cases (ltb_ℤ m (pos 1) || ltb_ℤ (pos 100) m)) [
  | inl e ↦ absurd (ground arith)
  | inr e ↦
      subst (λ k. (pos 1 ≤ℤ k) × (k ≤ℤ pos 100)) (let same : m ≡ n = ground arith in same)
        (ground arith, ground arith)
]

offset_of-range : (o : Option ℤ) (n : ℤ) → offset_of o ≡ ok n → pos 0 ≤ℤ n
unfolding offset_of
offset_of-range none n h = cc
offset_of-range (some m) n h = elim (Bool-cases (ltb_ℤ m (pos 0))) [
  | inl e ↦ absurd (ground arith)
  | inr e ↦ subst (λ k. pos 0 ≤ℤ k) (let same : m ≡ n = ground arith in same) (ground arith)
]

checked-passes :
    (e : FilterError) (value : Str) (test : Str → Bool) (v : Str)
    → checked e value (test value) ≡ ok v
    → (v ≡ []) ⊎ (test v ≡ true)
unfolding checked
checked-passes e value test v h = elim (Bool-cases (eqb value [])) [
  | inl empty ↦
      let same : value ≡ v = ground arith in
      inl (subst (λ k. k ≡ []) same ((eqb_iff value []).0 empty))
  | inr some_value ↦
      let same : value ≡ v = ground arith in inr (subst (λ k. test k ≡ true) same (ground arith))
]

module _ (rt : Runtime) (atoi : Str → Option ℤ) (parse_time : Str → Option ℕ) (q : Str → Str) where
  read_limit-range :
      (n : ℤ) → read_limit rt atoi parse_time q ≡ ok n → (pos 1 ≤ℤ n) × (n ≤ℤ pos 100)
  unfolding read_limit
  read_limit-range n h = elim (Bool-cases (eqb (q (codes "limit")) [])) [
    | inl e ↦
        let same : pos 20 ≡ n = ground arith in
        subst (λ k. (pos 1 ≤ℤ k) × (k ≤ℤ pos 100)) same (omega arith, omega arith)
    | inr e ↦ limit_of-range (atoi (q (codes "limit"))) n (ground arith)
  ]

  read_offset-range : (n : ℤ) → read_offset rt atoi parse_time q ≡ ok n → pos 0 ≤ℤ n
  unfolding read_offset
  read_offset-range n h = elim (Bool-cases (eqb (q (codes "offset")) [])) [
    | inl e ↦ let same : pos 0 ≡ n = ground arith in subst (λ k. pos 0 ≤ℤ k) same (omega arith)
    | inr e ↦ offset_of-range (atoi (q (codes "offset"))) n (ground arith)
  ]

  lang-code : (raw : Str) → is_language_code (normalize_language rt raw) ≡ true
  unfolding normalize_language
  lang-code raw = elim (Bool-cases (is_language_code (to_lower rt (trim_space raw)))) [
    | inl e ↦ rw e e
    | inr e ↦ rw e french
  ]
    where
      french : is_language_code (codes "fr") ≡ true
      french = unfold is_language_code in refl

  abbrev asked_level : Str
  asked_level = to_lower rt (trim_space (q (codes "level")))

  abbrev asked_canton : Str
  asked_canton = to_upper rt (trim_space (q (codes "canton")))

  abbrev asked_status : Str
  asked_status = to_lower rt (trim_space (q (codes "status")))

  -- When parseVotationFilters returns filters, the limit is from 1 to 100, the offset is not negative,
  -- the level and the status are each empty or one of the allowed values, the canton is empty or two
  -- or three capital letters, and the language is a language code.
  pub parse_votation_filters-IsAccepted :
      (f : VotationFilters) → parse_votation_filters rt atoi parse_time q ≡ ok f → IsAccepted f
  unfolding parse_votation_filters
  parse_votation_filters-IsAccepted f h0 =
      bind-ok-then (read_limit rt atoi parse_time q) _ f h0 (λ limit l h1.
        bind-ok-then (read_offset rt atoi parse_time q) _ f h1 (λ offset o h2.
          bind-ok-then (checked invalid_level asked_level (is_allowed_value asked_level levels)) _ f
            h2
            (λ level a h3.
              bind-ok-then
                (checked invalid_status asked_status (is_allowed_value asked_status statuses)) _ f
                h3
                (λ status s h4.
                  bind-ok-then (checked invalid_canton asked_canton (is_canton asked_canton)) _ f h4
                    (λ canton c h5.
                      bind-ok-then (date_of invalid_date_from parse_time (q (codes "date_from"))) _
                        f h5
                        (λ date_from d h6.
                          bind-ok-then (date_of invalid_date_to parse_time (q (codes "date_to"))) _
                            f h6
                            (λ date_to e h7. subst IsAccepted (ok_same h7) (record {
                              limit_low = (read_limit-range limit l).0;
                              limit_high = (read_limit-range limit l).1;
                              offset = read_offset-range offset o;
                              level =
                                  checked-passes invalid_level asked_level
                                    (λ v. is_allowed_value v levels) level a;
                              status =
                                  checked-passes invalid_status asked_status
                                    (λ v. is_allowed_value v statuses) status s;
                              canton =
                                  checked-passes invalid_canton asked_canton is_canton canton c;
                              lang = lang-code (q (codes "lang"));
                            }))))))))
