-- ===== src/DataFetch/Votings/Selected.antt =====
-- backend/cmd/data-fetch/main.go: the votations that selectVotings returns.
use civika.Prelude.{
  ℕ, zero, suc, ◌≤◌, ◌<◌, ◌≡◌, ◌⊎◌, refl, sym, ltb→lt, Bool, true, false, List, [], ◌∷◌, map, keep,
  length, length-map, length-take, take, All, Bool-cases, inl, inr, arith, ltb, leb, if◌then◌else◌,
  Option,
}
use civika.Prelude.Int.{ℤ}
use civika.Text.{Str, codes}
use civika.DataFetch.Votings.{OpVoting, is_future_voting, with_cause, first_votings, select_votings}

not_less : (a b : ℕ) → ltb a b ≡ false → b ≤ a
not_less a b h = ground arith

bound : (n : ℕ) → 0 < n → (if leb n 1 then 1 else n) ≡ n
bound n h = ground arith

take-All : {A : Type 0} (P : A → Type 0) (n : ℕ) (xs : List A) → All P xs → All P (take n xs)
take-All P zero xs h = tt
take-All P (suc n) [] h = tt
take-All P (suc n) (x ∷ xs) h = (h.0, take-All P n xs h.1)

-- What a test leaves out, if it leaves nothing.
none_kept :
    {A : Type 0} (f : A → Bool) (xs : List A) → length (keep f xs) ≡ 0 → All (λ x. f x ≡ false) xs
none_kept f [] h = tt
none_kept f (x ∷ xs) h = elim (Bool-cases (f x)) [
  | inl t ↦ absurd (let e : suc (length (keep f xs)) ≡ 0 = rw t at h in omega arith)
  | inr t ↦ (t, none_kept f xs (rw t at h))
]

module _ (parse_date : Str → Option ℤ) (now : ℤ) where
  abbrev IsFuture : OpVoting → Type 0
  IsFuture v = is_future_voting parse_date v.date now ≡ true

  keep-IsFuture :
      (votings : List OpVoting)
      → All
          (λ v. IsFuture v × (v.selection_cause ≡ codes "future"))
          (map
            (with_cause (codes "future"))
            (keep (λ v. is_future_voting parse_date v.date now) votings))
  keep-IsFuture [] = tt
  keep-IsFuture (v ∷ votings) = elim (Bool-cases (is_future_voting parse_date v.date now)) [
    | inl t ↦ rw t ((t, refl), keep-IsFuture votings)
    | inr t ↦ rw t (keep-IsFuture votings)
  ]

  -- At most `n` votations: future ones, or the first ones if none is in the future.
  abbrev pub IsSelection : ℕ → List OpVoting → List OpVoting × Str → Type 0
  IsSelection n votings (selected, cause) =
      (length selected ≤ n)
      × (((cause ≡ codes "future")
            × (0 < length selected)
            × All (λ v. IsFuture v × (v.selection_cause ≡ codes "future")) selected)
          ⊎ ((cause ≡ codes "fallback_past")
              × (selected ≡ map (with_cause (codes "fallback_past")) (take n votings))
              × All (λ v. is_future_voting parse_date v.date now ≡ false) votings))

  pub select_votings-IsSelection :
      (votings : List OpVoting) (n : ℕ)
      → 0 < n
      → IsSelection n votings (select_votings parse_date votings now n)
  unfolding select_votings first_votings
  select_votings-IsSelection votings n h =
      let kept = keep (λ v. is_future_voting parse_date v.date now) votings in
      let futures = map (with_cause (codes "future")) kept in
      let all = keep-IsFuture votings in
      elim (Bool-cases (ltb 0 (length futures))) [
        | inl t ↦ elim (Bool-cases (ltb n (length futures))) [
          | inl l ↦
              let below : n < length futures = ltb→lt n (length futures) l in
              rw (select_votings, t, l)
                (
                  omega (arith, length-take n futures),
                  inl (refl, omega (arith, length-take n futures), take-All _ n futures all),
                )
          | inr l ↦
              rw (select_votings, t, l)
                (not_less n (length futures) l, inl (refl, ltb→lt 0 (length futures) t, all))
        ]
        | inr t ↦
            rw (select_votings, t, bound n h)
              (
                omega (
                  arith,
                  length-map (take n votings) (with_cause (codes "fallback_past")),
                  length-take n votings,
                ),
                inr (
                  refl,
                  refl,
                  none_kept (λ v. is_future_voting parse_date v.date now) votings
                      (let e : length kept ≡ length futures =
                          sym (length-map kept (with_cause (codes "future"))) in
                        omega (arith, e, not_less 0 (length futures) t)),
                ),
              )
      ]
