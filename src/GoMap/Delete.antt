-- ===== src/GoMap/Delete.antt =====
-- Deleting the entries of a list of keys, and sorting the keys by a number of their entries.
use civika.Prelude.{
  ℕ, zero, suc, ◌+◌, ◌≤◌, ◌≡◌, refl, sym, ◌∙◌, ap, ◌≢◌, Bool, false, none, some, [], ◌∷◌, All,
  length, take, if◌then◌else◌, Bool-cases, inl, inr, ltb, arith,
}
use civika.Prelude.Sort.{insert_sorted, sort_slice, IsSortedBy, sort_slice-IsSortedBy}
use civika.Text.{Str, eqb}
use civika.Text.Laws.{eqb_iff, eqb_comm}
use civika.GoMap.{Map, lookup, delete, Distinct, lookup-delete, delete-Distinct, delete-All}

module _ {ℓ} {V : Type ℓ} where
  pub delete_of_none : (k : Str) (m : Map V) → lookup k m ≡ none → delete k m ≡ m
  unfolding lookup delete
  delete_of_none k [] h = refl
  delete_of_none k ((j, v) ∷ m) h = ground (arith, delete_of_none k m)

  pub length-delete :
      (k : Str) (m : Map V) → Distinct m → lookup k m ≢ none → length (delete k m) + 1 ≡ length m
  unfolding lookup delete
  length-delete k [] d h = absurd (h refl)
  length-delete k ((j, v) ∷ m) d h =
      ground (arith, eqb_iff j k, delete_of_none k m, length-delete k m d.1)

  -- An entry that is not under `k` has another key.
  others : (k : Str) (m : Map V) → lookup k m ≡ none → All (λ e. eqb k e.0 ≡ false) m
  unfolding lookup
  others k [] h = tt
  others k ((j, v) ∷ m) h = elim (Bool-cases (eqb j k)) [
    | inl e ↦ absurd (ground arith)
    | inr e ↦ (eqb_comm k j ∙ e, others k m (ground arith))
  ]

-- `for i := 0; i < n; i++ { delete(m, stamps[i].key) }`
unfoldable pub delete_first {ℓ} : {V : Type ℓ} → ℕ → Map ℕ → Map V → Map V
delete_first zero stamps m = m
delete_first (suc n) [] m = m
delete_first (suc n) ((k, _) ∷ stamps) m = delete_first n stamps (delete k m)

module _ {ℓ} {V : Type ℓ} where
  pub lookup-delete_first :
      (n : ℕ) (stamps : Map ℕ) (j : Str) (m : Map V)
      → lookup j (delete_first n stamps m)
        ≡ elim (lookup j (take n stamps)) [ none ↦ lookup j m | some _ ↦ none ]
  unfolding delete_first lookup
  lookup-delete_first zero stamps j m = refl
  lookup-delete_first (suc n) [] j m = refl
  lookup-delete_first (suc n) ((k, t) ∷ stamps) j m =
      ground (arith, lookup-delete_first n stamps j (delete k m), lookup-delete k j m)

  pub delete_first-Distinct :
      (n : ℕ) (stamps : Map ℕ) (m : Map V) → Distinct m → Distinct (delete_first n stamps m)
  unfolding delete_first
  delete_first-Distinct zero stamps m d = d
  delete_first-Distinct (suc n) [] m d = d
  delete_first-Distinct (suc n) ((k, t) ∷ stamps) m d =
      delete_first-Distinct n stamps (delete k m) (delete-Distinct k m d)

  pub delete_first-All {κ} :
      (P : Str × V → Type κ) (n : ℕ) (stamps : Map ℕ) (m : Map V)
      → All P m
      → All P (delete_first n stamps m)
  unfolding delete_first
  delete_first-All P zero stamps m h = h
  delete_first-All P (suc n) [] m h = h
  delete_first-All P (suc n) ((k, t) ∷ stamps) m h =
      delete_first-All P n stamps (delete k m) (delete-All P k m h)

  -- Each key that is deleted takes one entry away.
  pub length-delete_first :
      (n : ℕ) (stamps : Map ℕ) (m : Map V)
      → Distinct stamps
      → Distinct m
      → All (λ e. lookup e.0 m ≢ none) stamps
      → n ≤ length stamps
      → length (delete_first n stamps m) + n ≡ length m
  unfolding delete_first
  length-delete_first zero stamps m ds dm h le = omega arith
  length-delete_first (suc n) [] m ds dm h le = elim le [ ]
  length-delete_first (suc n) ((k, t) ∷ stamps) m ds dm h le = omega (
    arith,
    length-delete k m dm h.0,
    length-delete_first n stamps (delete k m) ds.1 (delete-Distinct k m dm)
        (still stamps (others k stamps ds.0) h.1) (omega arith),
  )
    where
      still :
          (l : Map ℕ)
          → All (λ e. eqb k e.0 ≡ false) l
          → All (λ e. lookup e.0 m ≢ none) l
          → All (λ e. lookup e.0 (delete k m) ≢ none) l
      still [] a b = tt
      still ((j, u) ∷ l) (a, as') (b, bs) =
          ((λ e. b (sym (lookup-delete k j m ∙ rw a) ∙ e)), still l as' bs)

-- Entries by their numbers, smaller first.
abbrev pub earlier : Str × ℕ → Str × ℕ → Bool
earlier a b = ltb a.1 b.1

lookup-insert_sorted :
    (k : Str) (t : ℕ) (l : Map ℕ) (j : Str)
    → lookup k l ≡ none
    → lookup j (insert_sorted earlier (k, t) l) ≡ (if eqb k j then some t else lookup j l)
unfolding insert_sorted lookup
lookup-insert_sorted k t [] j h = refl
lookup-insert_sorted k t ((i, u) ∷ l) j h =
    ground (arith, eqb_iff i k, eqb_iff i j, eqb_iff k j, lookup-insert_sorted k t l j)

length-insert_sorted :
    (e : Str × ℕ) (l : Map ℕ) → length (insert_sorted earlier e l) ≡ suc (length l)
unfolding insert_sorted
length-insert_sorted e [] = refl
length-insert_sorted e (x ∷ l) = ground (arith, length-insert_sorted e l)

insert_sorted-Distinct :
    (k : Str) (t : ℕ) (l : Map ℕ)
    → lookup k l ≡ none
    → Distinct l
    → Distinct (insert_sorted earlier (k, t) l)
unfolding insert_sorted lookup
insert_sorted-Distinct k t [] h d = (refl, tt)
insert_sorted-Distinct k t ((i, u) ∷ l) h d =
    ground
      (arith, eqb_iff i k, eqb_iff k i, lookup-insert_sorted k t l i, insert_sorted-Distinct k t l)

pub length-sort : (l : Map ℕ) → length (sort_slice earlier l) ≡ length l
unfolding sort_slice
length-sort [] = refl
length-sort (e ∷ l) = length-insert_sorted e (sort_slice earlier l) ∙ ap suc (length-sort l)

-- Sorting moves entries about, and changes no entry.
pub lookup-sort :
    (l : Map ℕ) → Distinct l → (j : Str) → lookup j (sort_slice earlier l) ≡ lookup j l
unfolding sort_slice lookup
lookup-sort [] d j = refl
lookup-sort ((k, t) ∷ l) d j =
    lookup-insert_sorted k t (sort_slice earlier l) j (lookup-sort l d.1 k ∙ d.0)
    ∙ ap (λ o. if eqb k j then some t else o) (lookup-sort l d.1 j)

pub sort-Distinct : (l : Map ℕ) → Distinct l → Distinct (sort_slice earlier l)
unfolding sort_slice
sort-Distinct [] d = tt
sort-Distinct ((k, t) ∷ l) d =
    insert_sorted-Distinct k t (sort_slice earlier l) (lookup-sort l d.1 k ∙ d.0)
      (sort-Distinct l d.1)

pub sort-IsSorted : (l : Map ℕ) → IsSortedBy earlier (sort_slice earlier l)
sort-IsSorted = sort_slice-IsSortedBy earlier (λ a b h. ground arith) (λ a b c h k. ground arith)

lookup-All_sorted :
    (t : ℕ) (l : Map ℕ) (j : Str) (u : ℕ)
    → All (λ e. ltb e.1 t ≡ false) l
    → lookup j l ≡ some u
    → t ≤ u
unfolding lookup
lookup-All_sorted t [] j u h e = cc
lookup-All_sorted t ((i, v) ∷ l) j u h e = ground (arith, lookup-All_sorted t l j u h.1)

-- Of a sorted list, no number of the first `n` entries exceeds one of the others.
pub take-earlier :
    (n : ℕ) (l : Map ℕ) (k j : Str) (t u : ℕ)
    → IsSortedBy earlier l
    → lookup k (take n l) ≡ some t
    → lookup j (take n l) ≡ none
    → lookup j l ≡ some u
    → t ≤ u
unfolding lookup
take-earlier zero l k j t u s hk hj e = cc
take-earlier (suc n) [] k j t u s hk hj e = cc
take-earlier (suc n) ((i, v) ∷ l) k j t u s hk hj e =
    ground (arith, lookup-All_sorted v l j u s.0, take-earlier n l k j t u s.1)

pub lookup-take :
    (n : ℕ) (l : Map ℕ) (k : Str) (t : ℕ) → lookup k (take n l) ≡ some t → lookup k l ≡ some t
unfolding lookup
lookup-take zero l k t h = cc
lookup-take (suc n) [] k t h = cc
lookup-take (suc n) ((i, v) ∷ l) k t h = ground (arith, lookup-take n l k t)
