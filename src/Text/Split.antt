-- ===== src/Text/Split.antt =====
-- `Split` and `Join` at a separator of one byte.
use civika.Prelude.{
  ℕ, ◌≡◌, refl, ◌∙◌, ap, true, false, List, [], ◌∷◌, ◌++◌, reverse, append-nil, append_assoc, All,
  Bool-cases, inl, inr, ◌==◌, arith,
}
use mathlib.Core.List.{reverse-cons}
use civika.Text.{Str, join, split_from, split}

-- No byte of the string is `sep`.
abbrev pub Lacks : ℕ → Str → Type 0
Lacks sep s = All (λ c. (c == sep) ≡ false) s

module _ (sep : ℕ) where
  refl_eq : (sep == sep) ≡ true
  refl_eq = ground arith

  -- A separator ends a part.
  split_from-append :
      (cur s t : Str)
      → split_from sep cur (s ++ (sep ∷ t)) ≡ split_from sep cur s ++ split_from sep [] t
  unfolding split_from
  split_from-append cur [] t = rw (refl_eq, split_from)
  split_from-append cur (c ∷ s) t = elim (Bool-cases (c == sep)) [
    | inl e ↦ rw e (ap (◌∷◌ (reverse cur)) (split_from-append [] s t))
    | inr e ↦ rw e (split_from-append (c ∷ cur) s t)
  ]

  split_from_of_Lacks : (cur s : Str) → Lacks sep s → split_from sep cur s ≡ (reverse cur ++ s) ∷ []
  unfolding split_from
  split_from_of_Lacks cur [] h = simp append-nil
  split_from_of_Lacks cur (c ∷ s) h =
      rw (h.0, split_from_of_Lacks (c ∷ cur) s h.1) (simp (reverse-cons, append_assoc))

  pub split-append : (s t : Str) → split (s ++ (sep ∷ t)) sep ≡ split s sep ++ split t sep
  unfolding split
  split-append s t = split_from-append [] s t

  pub split_of_Lacks : (s : Str) → Lacks sep s → split s sep ≡ s ∷ []
  unfolding split
  split_of_Lacks s h = split_from_of_Lacks [] s h

  split_from-cons : (cur s : Str) → (p : Str) × (ps : List Str) × (split_from sep cur s ≡ p ∷ ps)
  unfolding split_from
  split_from-cons cur [] = (reverse cur, [], refl)
  split_from-cons cur (c ∷ s) = elim (Bool-cases (c == sep)) [
    | inl e ↦ (reverse cur, split_from sep [] s, rw e)
    | inr e ↦ rw e (split_from-cons (c ∷ cur) s)
  ]

  join-cons_cons :
      (p : Str) (ps : List Str) (cur s : Str)
      → join (sep ∷ []) (p ∷ split_from sep cur s)
        ≡ p ++ (sep ∷ join (sep ∷ []) (split_from sep cur s))
  unfolding join
  join-cons_cons p ps cur s = let (q, qs, e) = split_from-cons cur s in rw e refl

  join-split_from : (cur s : Str) → join (sep ∷ []) (split_from sep cur s) ≡ reverse cur ++ s
  unfolding split_from
  join-split_from cur [] = unfold join in simp append-nil
  join-split_from cur (c ∷ s) = elim (Bool-cases (c == sep)) [
    | inl e ↦ rw e (
        join-cons_cons (reverse cur) [] [] s
        ∙ rw (join-split_from [] s) (let same : c ≡ sep = ground arith in rw same refl))
    | inr e ↦ rw e (join-split_from (c ∷ cur) s ∙ simp (reverse-cons, append_assoc))
  ]

  -- Joining the parts of a string gives it back.
  pub join-split : (s : Str) → join (sep ∷ []) (split s sep) ≡ s
  unfolding split
  join-split s = join-split_from [] s

  -- Parts without the separator are what their join splits into.
  pub split-join :
      (p : Str) (ps : List Str)
      → All (Lacks sep) (p ∷ ps)
      → split (join (sep ∷ []) (p ∷ ps)) sep ≡ p ∷ ps
  unfolding join
  split-join p [] h = split_of_Lacks p h.0
  split-join p (q ∷ qs) h =
      split-append p (join (sep ∷ []) (q ∷ qs)) ∙ rw (split_of_Lacks p h.0, split-join q qs h.1)
