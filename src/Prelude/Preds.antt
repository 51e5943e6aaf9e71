-- ===== src/Prelude/Preds.antt =====
-- Predicates on lists by recursion, and searches that return a Boolean.
use mathlib.Core.Bool.{Bool, true, false, ◌||◌}
use mathlib.Core.List.{List, [], ◌∷◌, ◌++◌, map}
use mathlib.Core.Path.{◌≡◌, refl, sym, ap, subst, ◌∙◌}
use mathlib.Core.Logic.{◌⊎◌, inl, inr}
use civika.Prelude.Tests.{if◌then◌else◌, Bool-cases}

abbrev pub All {ℓ κ} : {A : Type ℓ} → (A → Type κ) → List A → Type κ
All P [] = Unit
All P (x ∷ xs) = P x × All P xs

pub All-append {ℓ κ} :
    {A : Type ℓ} (P : A → Type κ) (xs ys : List A) → All P xs → All P ys → All P (xs ++ ys)
All-append P [] ys hx hy = hy
All-append P (x ∷ xs) ys hx hy = (hx.0, All-append P xs ys hx.1 hy)

pub All-map {ℓ κ ι} :
    {A : Type ℓ} {P : A → Type κ} {Q : A → Type ι} (xs : List A)
    → ((a : A) → P a → Q a)
    → All P xs
    → All Q xs
All-map [] f h = tt
All-map (x ∷ xs) f h = (f x h.0, All-map xs f h.1)

-- Some element passes the test.
abbrev pub any {ℓ} : {A : Type ℓ} → (A → Bool) → List A → Bool
any f [] = false
any f (x ∷ xs) = f x || any f xs

-- What passes the test, in order.
abbrev pub keep {ℓ} : {A : Type ℓ} → (A → Bool) → List A → List A
keep f [] = []
keep f (x ∷ xs) = if f x then x ∷ keep f xs else keep f xs

-- To stand in a list.
abbrev pub In : {A : Type 0} → A → List A → Type 0
In a [] = ⊥
In a (x ∷ xs) = (a ≡ x) ⊎ In a xs

module _ {A : Type 0} (a : A) where
  pub In-append_left : (xs ys : List A) → In a xs → In a (xs ++ ys)
  In-append_left [] ys h = elim h [ ]
  In-append_left (x ∷ xs) ys (inl e) = inl e
  In-append_left (x ∷ xs) ys (inr h) = inr (In-append_left xs ys h)

  pub In-append_right : (xs ys : List A) → In a ys → In a (xs ++ ys)
  In-append_right [] ys h = h
  In-append_right (x ∷ xs) ys h = inr (In-append_right xs ys h)

  pub In-append-cases : (xs ys : List A) → In a (xs ++ ys) → In a xs ⊎ In a ys
  In-append-cases [] ys h = inr h
  In-append-cases (x ∷ xs) ys (inl e) = inl (inl e)
  In-append-cases (x ∷ xs) ys (inr h) = elim (In-append-cases xs ys h) [
    | inl p ↦ inl (inr p)
    | inr p ↦ inr p
  ]

  pub In-keep : (f : A → Bool) (xs : List A) → f a ≡ true → In a xs → In a (keep f xs)
  In-keep f [] e h = elim h [ ]
  In-keep f (x ∷ xs) e (inl p) = rw (ap f (sym p) ∙ e) (inl p)
  In-keep f (x ∷ xs) e (inr h) = elim (Bool-cases (f x)) [
    | inl t ↦ rw t (inr (In-keep f xs e h))
    | inr t ↦ rw t (In-keep f xs e h)
  ]

  pub In-of-keep : (f : A → Bool) (xs : List A) → In a (keep f xs) → In a xs × (f a ≡ true)
  In-of-keep f [] h = elim h [ ]
  In-of-keep f (x ∷ xs) h = elim (Bool-cases (f x)) [
    | inl t ↦ elim (let g : In a (x ∷ keep f xs) = rw t at h in g) [
      | inl p ↦ (inl p, ap f p ∙ t)
      | inr q ↦ let (r, e) = In-of-keep f xs q in (inr r, e)
    ]
    | inr t ↦ let (r, e) = In-of-keep f xs (rw t at h) in (inr r, e)
  ]

pub All-at {κ} : {A : Type 0} (P : A → Type κ) (xs : List A) (a : A) → All P xs → In a xs → P a
All-at P [] a h i = elim i [ ]
All-at P (x ∷ xs) a h (inl e) = subst P (sym e) h.0
All-at P (x ∷ xs) a h (inr i) = All-at P xs a h.1 i

pub All-of-In {κ} :
    {A : Type 0} (P : A → Type κ) (xs : List A) → ((a : A) → In a xs → P a) → All P xs
All-of-In P [] h = tt
All-of-In P (x ∷ xs) h = (h x (inl refl), All-of-In P xs (λ a i. h a (inr i)))

pub In-map : {A B : Type 0} (f : A → B) (a : A) (xs : List A) → In a xs → In (f a) (map f xs)
In-map f a [] i = elim i [ ]
In-map f a (x ∷ xs) (inl e) = inl (ap f e)
In-map f a (x ∷ xs) (inr i) = inr (In-map f a xs i)

pub In-map-cases :
    {A B : Type 0} (f : A → B) (b : B) (xs : List A)
    → In b (map f xs)
    → (a : A) × In a xs × (b ≡ f a)
In-map-cases f b [] i = elim i [ ]
In-map-cases f b (x ∷ xs) (inl e) = (x, inl refl, e)
In-map-cases f b (x ∷ xs) (inr i) = let (a, j, e) = In-map-cases f b xs i in (a, inr j, e)

-- No element stands twice.
abbrev pub AreDistinct : {A : Type 0} → List A → Type 0
AreDistinct [] = Unit
AreDistinct (x ∷ xs) = (In x xs → ⊥) × AreDistinct xs

pub AreDistinct-append :
    {A : Type 0} (xs ys : List A)
    → AreDistinct xs
    → AreDistinct ys
    → ((a : A) → In a xs → In a ys → ⊥)
    → AreDistinct (xs ++ ys)
AreDistinct-append [] ys d e apart = e
AreDistinct-append (x ∷ xs) ys d e apart = (
  λ i. elim (In-append-cases x xs ys i) [ inl j ↦ d.0 j | inr j ↦ apart x (inl refl) j ],
  AreDistinct-append xs ys d.1 e (λ a i j. apart a (inr i) j),
)
