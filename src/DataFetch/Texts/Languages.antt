-- ===== src/DataFetch/Texts/Languages.antt =====
-- backend/cmd/data-fetch/main.go: the languages of a votation.
use civika.Prelude.{
  ◌≡◌, ◌≢◌, refl, true, false, List, [], ◌∷◌, All, All-append, Bool-cases, inl, inr, arith,
}
use civika.Prelude.Sort.{
  insert_sorted, sort_slice, sort_slice-All, sort_slice-IsSortedBy, IsSortedBy,
}
use civika.Text.{Str, codes, eqb, Runtime, str_lt, trim_space, to_lower}
use civika.GoMap.{Map}
use civika.Langs
use civika.DataFetch.Texts.{
  known_languages, push_language, push_map, push_maps, push_languages, or_french,
  collect_available_languages,
}

abbrev IsKnown : Str → Type 0
IsKnown l = Langs.contains known_languages l ≡ true

module _ (rt : Runtime) where
  push_language-All :
      (out : List Str) (raw : Str) → All IsKnown out → All IsKnown (push_language rt out raw)
  unfolding push_language
  push_language-All out raw h =
      let candidate = to_lower rt (trim_space raw) in
      elim (Bool-cases (Langs.contains known_languages candidate)) [
        | inr k ↦ rw (push_language, k) h
        | inl k ↦ elim (Bool-cases (Langs.contains out candidate)) [
          | inl c ↦ rw (push_language, k, c) h
          | inr c ↦ rw (push_language, k, c) (All-append IsKnown out (candidate ∷ []) h (k, tt))
        ]
      ]

  push_map-All :
      (out : List Str) (values : Map Str) → All IsKnown out → All IsKnown (push_map rt out values)
  unfolding push_map
  push_map-All out [] h = h
  push_map-All out ((key, value) ∷ values) h = elim (Bool-cases (eqb (trim_space value) [])) [
    | inl t ↦ rw (push_map, t) (push_map-All out values h)
    | inr t ↦
        rw (push_map, t)
          (push_map-All (push_language rt out key) values (push_language-All out key h))
  ]

  push_maps-All :
      (out : List Str) (maps : List (Map Str))
      → All IsKnown out
      → All IsKnown (push_maps rt out maps)
  unfolding push_maps
  push_maps-All out [] h = h
  push_maps-All out (values ∷ maps) h =
      push_maps-All (push_map rt out values) maps (push_map-All out values h)

  push_languages-All :
      (out raws : List Str) → All IsKnown out → All IsKnown (push_languages rt out raws)
  unfolding push_languages
  push_languages-All out [] h = h
  push_languages-All out (raw ∷ raws) h =
      push_languages-All (push_language rt out raw) raws (push_language-All out raw h)

str_lt_asym : (a b : Str) → str_lt a b ≡ true → str_lt b a ≡ false
unfolding str_lt
str_lt_asym s [] h = absurd cc
str_lt_asym [] (c ∷ t) h = refl
str_lt_asym (a ∷ s) (b ∷ t) h = ground (arith, str_lt_asym s t)

str_lt_trans : (a b c : Str) → str_lt b a ≡ false → str_lt c b ≡ false → str_lt c a ≡ false
unfolding str_lt
str_lt_trans [] b c h k = refl
str_lt_trans (x ∷ a) [] c h k = absurd cc
str_lt_trans (x ∷ a) (y ∷ b) [] h k = absurd cc
str_lt_trans (x ∷ a) (y ∷ b) (z ∷ c) h k = ground (arith, str_lt_trans a b c)

insert_filled : (x : Str) (l : List Str) → insert_sorted str_lt x l ≢ []
unfolding insert_sorted
insert_filled x [] = λ e. cc
insert_filled x (y ∷ ys) = elim (Bool-cases (str_lt y x)) [
  | inl t ↦ rw t (λ e. cc)
  | inr t ↦ rw t (λ e. cc)
]

-- Known codes, in the order of the alphabet, and at least one of them.
abbrev pub AreLanguages : List Str → Type 0
AreLanguages ls = (ls ≢ []) × All IsKnown ls × IsSortedBy str_lt ls

or_french-AreLanguages :
    (out : List Str) → All IsKnown out → AreLanguages (sort_slice str_lt (or_french out))
unfolding sort_slice or_french Langs.contains eqb
or_french-AreLanguages [] h = (
  insert_filled (codes "fr") [],
  sort_slice-All str_lt IsKnown (codes "fr" ∷ []) (refl, tt),
  sort_slice-IsSortedBy str_lt str_lt_asym str_lt_trans (codes "fr" ∷ []),
)
or_french-AreLanguages (l ∷ ls) h = (
  insert_filled l (sort_slice str_lt ls),
  sort_slice-All str_lt IsKnown (l ∷ ls) h,
  sort_slice-IsSortedBy str_lt str_lt_asym str_lt_trans (l ∷ ls),
)

pub collect_available_languages-AreLanguages :
    (rt : Runtime) (titles : List (Map Str)) (docs : List Str) (texts : List (Map Str))
    → AreLanguages (collect_available_languages rt titles docs texts)
unfolding collect_available_languages
collect_available_languages-AreLanguages rt titles docs texts =
    let first = push_maps rt [] titles in
    let second = push_languages rt first docs in
    or_french-AreLanguages (push_maps rt second texts) (
      push_maps-All rt second texts
        (push_languages-All rt first docs (push_maps-All rt [] titles tt)))
