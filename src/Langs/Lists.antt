-- ===== src/Langs/Lists.antt =====
-- backend/internal/langs/langs.go: the lists of language codes.
use civika.Prelude.{
  ◌≡◌, refl, ◌∙◌, ap, true, false, not, ◌&&◌, ◌||◌, List, [], ◌∷◌, ◌++◌, All, All-append,
  Bool-cases, inl, inr, arith, if◌then◌else◌, map,
}
use civika.Prelude.Sort.{sort_slice, insert_sorted}
use civika.Text.{Str, Runtime, eqb, trim_space, split, str_lt}
use civika.Text.Laws.{eqb_iff, eq_refl, eqb_comm}
use civika.Langs.{
  is_language_code, normalize, contains, push, push_all, parse_supported, stable_sorted,
}
use civika.Langs.Codes.{normalize-cases}

-- No element stands twice.
abbrev pub IsUnique : List Str → Type 0
IsUnique [] = Unit
IsUnique (x ∷ xs) = (contains xs x ≡ false) × IsUnique xs

pub contains-append :
    (xs ys : List Str) (c : Str) → contains (xs ++ ys) c ≡ (contains xs c || contains ys c)
unfolding contains
contains-append [] ys c = refl
contains-append (x ∷ xs) ys c = ground (arith, contains-append xs ys c)

pub IsUnique-snoc :
    (xs : List Str) (x : Str) → IsUnique xs → contains xs x ≡ false → IsUnique (xs ++ x ∷ [])
unfolding contains
IsUnique-snoc [] x u h = (refl, tt)
IsUnique-snoc (y ∷ xs) x u h = (
  contains-append xs (x ∷ []) y ∙ ground (arith, eqb_comm x y),
  IsUnique-snoc xs x u.1 (ground arith),
)

same_contains : (xs : List Str) (a b : Str) → eqb a b ≡ true → contains xs a ≡ contains xs b
same_contains xs a b h = ap (contains xs) ((eqb_iff a b).0 h)

module _ (rt : Runtime) where
  abbrev pub AreCodes : List Str → Type 0
  AreCodes = All (λ c. is_language_code c ≡ true)

  push-valid :
      (out : List Str) (value : Str)
      → AreCodes out × IsUnique out
      → AreCodes (push rt out value) × IsUnique (push rt out value)
  unfolding push
  push-valid out value (codes, unique) = elim (Bool-cases (eqb (normalize rt value) [])) [
    | inl e ↦ rw e (codes, unique)
    | inr e ↦ elim (Bool-cases (contains out (normalize rt value))) [
      | inl old ↦ rw (e, old) (codes, unique)
      | inr new ↦
          rw (e, new)
            (
              All-append _ out _ codes (ground (arith, normalize-cases rt value, eq_refl []), tt),
              IsUnique-snoc out (normalize rt value) unique new,
            )
    ]
  ]

  push_all-valid :
      (out values : List Str)
      → AreCodes out × IsUnique out
      → AreCodes (push_all rt out values) × IsUnique (push_all rt out values)
  unfolding push_all
  push_all-valid out [] h = h
  push_all-valid out (v ∷ values) h = push_all-valid (push rt out v) values (push-valid out v h)

  -- The list that ParseSupported returns has language codes only, and none of them twice.
  pub parse_supported-valid :
      (raw : Str) (defaults : List Str)
      → AreCodes (parse_supported rt raw defaults) × IsUnique (parse_supported rt raw defaults)
  unfolding parse_supported
  parse_supported-valid raw defaults = elim (Bool-cases (eqb (trim_space raw) [])) [
    | inl e ↦ rw e (push_all-valid [] defaults (tt, tt))
    | inr e ↦ rw e (push_all-valid [] (split (trim_space raw) b',') (tt, tt))
  ]

  contains-push :
      (out : List Str) (value c : Str)
      → contains (push rt out value) c
        ≡ (contains out c || (not (eqb c []) && eqb (normalize rt value) c))
  unfolding push contains
  contains-push out value c = ground (
    arith,
    eqb_iff (normalize rt value) c,
    eqb_iff (normalize rt value) [],
    eqb_iff c [],
    contains-append out (normalize rt value ∷ []) c,
    same_contains out (normalize rt value) c,
  )

  contains-push_all :
      (out values : List Str) (c : Str)
      → contains (push_all rt out values) c
        ≡ (contains out c || (not (eqb c []) && contains (map (normalize rt) values) c))
  unfolding push_all contains
  contains-push_all out [] c = ground arith
  contains-push_all out (v ∷ values) c =
      ground (arith, contains-push out v c, contains-push_all (push rt out v) values c)

  contains-insert_sorted :
      (x : Str) (l : List Str) (c : Str)
      → contains (insert_sorted str_lt x l) c ≡ (eqb x c || contains l c)
  unfolding contains insert_sorted
  contains-insert_sorted x [] c = refl
  contains-insert_sorted x (y ∷ l) c = ground (arith, contains-insert_sorted x l c)

  contains-sort : (l : List Str) (c : Str) → contains (sort_slice str_lt l) c ≡ contains l c
  unfolding contains sort_slice
  contains-sort [] c = refl
  contains-sort (x ∷ l) c =
      contains-insert_sorted x (sort_slice str_lt l) c ∙ ap (λ b. eqb x c || b) (contains-sort l c)

  -- A code is in the list that ParseSupported returns exactly if it is not empty and one of the comma-
  -- separated parts normalises to it, or one of the defaults if the text is blank.
  pub contains-parse_supported :
      (raw : Str) (defaults : List Str) (c : Str)
      → contains (parse_supported rt raw defaults) c ≡ (
          not (eqb c [])
          && contains
              (map
                (normalize rt)
                (if eqb (trim_space raw) [] then defaults else split (trim_space raw) b','))
              c)
  unfolding parse_supported
  contains-parse_supported raw defaults c = elim (Bool-cases (eqb (trim_space raw) [])) [
    | inl e ↦ rw e (contains-push_all [] defaults c)
    | inr e ↦ rw e (contains-push_all [] (split (trim_space raw) b',') c)
  ]

  -- A code is in the list that StableSorted returns exactly if it is not empty and an element of the
  -- input normalises to it.
  pub contains-stable_sorted :
      (input : List Str) (c : Str)
      → contains (stable_sorted rt input) c
        ≡ (not (eqb c []) && contains (map (normalize rt) input) c)
  unfolding stable_sorted
  contains-stable_sorted input c =
      contains-sort (push_all rt [] input) c ∙ contains-push_all [] input c
