-- ===== src/GoMap.antt =====
-- A Go `map[string]V` as the list of its entries, in the order in which a `range` visits them.
-- Go leaves that order open: a theorem about a loop over a map holds for every list.
pub mod Delete
use civika.Prelude.{
  ℕ, suc, ◌+◌, ◌≤◌, ◌≡◌, refl, ap, ◌≢◌, Bool, true, false, Option, none, some, List, [], ◌∷◌, map,
  All, length, if◌then◌else◌, Bool-cases, inl, inr, arith,
}
use mathlib.Core.Path.{subst}
use civika.Text.{Str, eqb}
use civika.Text.Laws.{eqb_iff, eq_refl}

abbrev pub Map {ℓ} : Type ℓ → Type ℓ
Map V = List (Str × V)

module _ {ℓ} {V : Type ℓ} where
  unfoldable pub lookup : Str → Map V → Option V
  lookup k [] = none
  lookup k ((j, v) ∷ m) = if eqb j k then some v else lookup k m

  unfoldable pub insert : Str → V → Map V → Map V
  insert k v [] = (k, v) ∷ []
  insert k v ((j, w) ∷ m) = if eqb j k then (k, v) ∷ m else (j, w) ∷ insert k v m

  unfoldable pub delete : Str → Map V → Map V
  delete k [] = []
  delete k ((j, v) ∷ m) = if eqb j k then delete k m else (j, v) ∷ delete k m

  -- `for k, v := range m { if drop(v) { delete(m, k) } }`
  unfoldable pub sweep : (V → Bool) → Map V → Map V
  sweep drop [] = []
  sweep drop ((k, v) ∷ m) = if drop v then sweep drop m else (k, v) ∷ sweep drop m

  abbrev pub keys : Map V → List Str
  keys = map (λ e. e.0)

  -- No key stands twice.
  abbrev pub Distinct : Map V → Type ℓ
  Distinct [] = Unit
  Distinct ((k, v) ∷ m) = (lookup k m ≡ none) × Distinct m

  pub lookup-insert :
      (k j : Str) (v : V) (m : Map V)
      → lookup j (insert k v m) ≡ (if eqb k j then some v else lookup j m)
  unfolding lookup insert
  lookup-insert k j v [] = refl
  lookup-insert k j v ((i, w) ∷ m) =
      ground (arith, eqb_iff k j, eqb_iff i k, eqb_iff i j, lookup-insert k j v m)

  pub lookup-insert_self : (k : Str) (v : V) (m : Map V) → lookup k (insert k v m) ≡ some v
  lookup-insert_self k v m = rw (lookup-insert k k v m, eq_refl k)

  pub lookup-delete :
      (k j : Str) (m : Map V) → lookup j (delete k m) ≡ (if eqb k j then none else lookup j m)
  unfolding lookup delete
  lookup-delete k j [] = ground arith
  lookup-delete k j ((i, w) ∷ m) =
      ground (arith, eqb_iff k j, eqb_iff i k, eqb_iff i j, lookup-delete k j m)

  pub insert-Distinct : (k : Str) (v : V) (m : Map V) → Distinct m → Distinct (insert k v m)
  unfolding lookup insert
  insert-Distinct k v [] d = (refl, tt)
  insert-Distinct k v ((i, w) ∷ m) d =
      ground (arith, eqb_iff i k, eqb_iff k i, lookup-insert k i v m, insert-Distinct k v m d.1)

  pub delete-Distinct : (k : Str) (m : Map V) → Distinct m → Distinct (delete k m)
  unfolding delete
  delete-Distinct k [] d = tt
  delete-Distinct k ((i, w) ∷ m) d = ground (arith, lookup-delete k i m, delete-Distinct k m d.1)

  sweep-none :
      (drop : V → Bool) (k : Str) (m : Map V) → lookup k m ≡ none → lookup k (sweep drop m) ≡ none
  unfolding lookup sweep
  sweep-none drop k [] h = refl
  sweep-none drop k ((i, w) ∷ m) h = ground (arith, sweep-none drop k m)

  pub sweep-Distinct : (drop : V → Bool) (m : Map V) → Distinct m → Distinct (sweep drop m)
  unfolding sweep
  sweep-Distinct drop [] d = tt
  sweep-Distinct drop ((i, w) ∷ m) d =
      ground (arith, sweep-none drop i m, sweep-Distinct drop m d.1)

  -- What a sweep leaves under a key: the entry, unless it is dropped.
  pub lookup-sweep :
      (drop : V → Bool) (k : Str) (m : Map V)
      → Distinct m
      → lookup k (sweep drop m)
        ≡ elim (lookup k m) [ none ↦ none | some v ↦ if drop v then none else some v ]
  unfolding lookup sweep
  lookup-sweep drop k [] d = refl
  lookup-sweep drop k ((i, w) ∷ m) d =
      ground (arith, eqb_iff i k, sweep-none drop k m, lookup-sweep drop k m d.1)

  pub length-sweep-le : (drop : V → Bool) (m : Map V) → length (sweep drop m) ≤ length m
  unfolding sweep
  length-sweep-le drop [] = omega arith
  length-sweep-le drop ((k, v) ∷ m) = ground (arith, length-sweep-le drop m)

  pub length-insert-le : (k : Str) (v : V) (m : Map V) → length (insert k v m) ≤ length m + 1
  unfolding insert
  length-insert-le k v [] = omega arith
  length-insert-le k v ((j, w) ∷ m) = ground (arith, length-insert-le k v m)

  pub length-insert_present :
      (k : Str) (v w : V) (m : Map V) → lookup k m ≡ some w → length (insert k v m) ≡ length m
  unfolding lookup insert
  length-insert_present k v w [] h = cc
  length-insert_present k v w ((j, u) ∷ m) h = ground (arith, length-insert_present k v w m)

  -- What holds of every entry is kept by the operations.
  pub insert-All {κ} :
      (P : Str × V → Type κ) (k : Str) (v : V) (m : Map V)
      → P (k, v)
      → All P m
      → All P (insert k v m)
  unfolding insert
  insert-All P k v [] p h = (p, tt)
  insert-All P k v ((j, w) ∷ m) p h = elim (Bool-cases (eqb j k)) [
    | inl e ↦ rw e (p, h.1)
    | inr e ↦ rw e (h.0, insert-All P k v m p h.1)
  ]

  pub delete-All {κ} : (P : Str × V → Type κ) (k : Str) (m : Map V) → All P m → All P (delete k m)
  unfolding delete
  delete-All P k [] h = tt
  delete-All P k ((j, w) ∷ m) h = elim (Bool-cases (eqb j k)) [
    | inl e ↦ rw e (delete-All P k m h.1)
    | inr e ↦ rw e (h.0, delete-All P k m h.1)
  ]

  pub sweep-All {κ} :
      (P : Str × V → Type κ) (drop : V → Bool) (m : Map V) → All P m → All P (sweep drop m)
  unfolding sweep
  sweep-All P drop [] h = tt
  sweep-All P drop ((j, w) ∷ m) h = elim (Bool-cases (drop w)) [
    | inl e ↦ rw e (sweep-All P drop m h.1)
    | inr e ↦ rw e (h.0, sweep-All P drop m h.1)
  ]

  pub lookup-All {κ} :
      (P : Str × V → Type κ) (k : Str) (m : Map V) {v : V}
      → All P m
      → lookup k m ≡ some v
      → P (k, v)
  unfolding lookup
  lookup-All P k [] h e = cc
  lookup-All P k ((j, w) ∷ m) {v} h e = elim (Bool-cases (eqb j k)) [
    | inl same ↦
        let key : j ≡ k = (eqb_iff j k).0 same in
        let value : w ≡ v = ground arith in subst P (λ i. (key i, value i)) h.0
    | inr other ↦ lookup-All P k m h.1 (rw (other, lookup) at e)
  ]
