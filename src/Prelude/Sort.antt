-- ===== src/Prelude/Sort.antt =====
-- `sort.Slice`, as a stable insertion sort by the program's `less`. Go's sort is not stable: which
-- of two equal elements comes first is the list's order here, and the lists that the program
-- sorts come from maps, whose order the model leaves open.
use civika.Prelude.{◌≡◌, Bool, true, false, List, [], ◌∷◌, All, All-map, if◌then◌else◌}
use civika.Prelude.{Bool-cases, inl, inr}
use mathlib.Core.List.{Perm}
use mathlib.Core.List.Perm

module _ {ℓ} {A : Type ℓ} (less : A → A → Bool) where
  unfoldable pub insert_sorted : A → List A → List A
  insert_sorted x [] = x ∷ []
  insert_sorted x (y ∷ ys) = if less y x then y ∷ insert_sorted x ys else x ∷ y ∷ ys

  unfoldable pub sort_slice : List A → List A
  unfolding insert_sorted
  sort_slice [] = []
  sort_slice (x ∷ xs) = insert_sorted x (sort_slice xs)

  insert_sorted-perm : (x : A) (l : List A) → Perm (insert_sorted x l) (x ∷ l)
  unfolding insert_sorted
  insert_sorted-perm x [] = Perm.refl _
  insert_sorted-perm x (y ∷ ys) = elim (Bool-cases (less y x)) [
    | inl e ↦ rw e (Perm.trans (Perm.cons y (insert_sorted-perm x ys)) (Perm.swap x y ys))
    | inr e ↦ rw e (Perm.refl _)
  ]

  pub sort_slice-perm : (l : List A) → Perm (sort_slice l) l
  unfolding sort_slice
  sort_slice-perm [] = Perm.refl _
  sort_slice-perm (x ∷ xs) =
      Perm.trans (insert_sorted-perm x (sort_slice xs)) (Perm.cons x (sort_slice-perm xs))

  -- No element comes before one that is less.
  abbrev pub IsSortedBy : List A → Type ℓ
  IsSortedBy [] = Unit
  IsSortedBy (x ∷ xs) = All (λ y. less y x ≡ false) xs × IsSortedBy xs

module _ {ℓ κ} {A : Type ℓ} (less : A → A → Bool) (P : A → Type κ) where
  insert_sorted-All : (x : A) (l : List A) → P x → All P l → All P (insert_sorted less x l)
  unfolding insert_sorted
  insert_sorted-All x [] p h = (p, tt)
  insert_sorted-All x (y ∷ ys) p h = elim (Bool-cases (less y x)) [
    | inl e ↦ rw e (h.0, insert_sorted-All x ys p h.1)
    | inr e ↦ rw e (p, h)
  ]

  -- What holds of all elements holds of the sorted list's.
  pub sort_slice-All : (l : List A) → All P l → All P (sort_slice less l)
  unfolding sort_slice
  sort_slice-All [] h = tt
  sort_slice-All (x ∷ xs) h = insert_sorted-All x (sort_slice less xs) h.0 (sort_slice-All xs h.1)

module _ {ℓ} {A : Type ℓ} (less : A → A → Bool)
    (asym : (a b : A) → less a b ≡ true → less b a ≡ false)
    (trans : (a b c : A) → less b a ≡ false → less c b ≡ false → less c a ≡ false) where
  insert_sorted-IsSortedBy :
      (x : A) (l : List A) → IsSortedBy less l → IsSortedBy less (insert_sorted less x l)
  unfolding insert_sorted
  insert_sorted-IsSortedBy x [] h = (tt, tt)
  insert_sorted-IsSortedBy x (y ∷ ys) h = elim (Bool-cases (less y x)) [
    | inl e ↦
        rw e (insert_sorted-All less _ x ys (asym y x e) h.0, insert_sorted-IsSortedBy x ys h.1)
    | inr e ↦ rw e ((e, All-map ys (λ z q. trans x y z e q) h.0), h)
  ]

  pub sort_slice-IsSortedBy : (l : List A) → IsSortedBy less (sort_slice less l)
  unfolding sort_slice
  sort_slice-IsSortedBy [] = tt
  sort_slice-IsSortedBy (x ∷ xs) =
      insert_sorted-IsSortedBy x (sort_slice less xs) (sort_slice-IsSortedBy xs)
