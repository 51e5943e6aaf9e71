-- ===== src/Prelude/Result.antt =====
-- Go's `(value, error)` results: a value or an error.
use civika.Prelude.{◌≡◌, ◌⊎◌, inl, inr, refl}

pub data Result (E A : Type 0) : Type 0 where
  ok : A → Result E A
  err : E → Result E A

-- `if err != nil { return …, err }`
infixl 5 ◌>>=◌
abbrev pub ◌>>=◌ : {E A B : Type 0} → Result E A → (A → Result E B) → Result E B
ok a >>= f = f a
err e >>= f = err e

pub bind-eq-ok :
    {E A B : Type 0} (m : Result E A) (f : A → Result E B) {b : B}
    → (m >>= f) ≡ ok b
    → (a : A) × (m ≡ ok a) × (f a ≡ ok b)
bind-eq-ok (ok a) f h = (a, refl, h)
bind-eq-ok (err e) f h = cc

-- The same, for a chain of results.
pub bind-ok-then :
    {E A B G : Type 0} (m : Result E A) (f : A → Result E B) (b : B)
    → (m >>= f) ≡ ok b
    → ((a : A) → m ≡ ok a → f a ≡ ok b → G)
    → G
bind-ok-then (ok a) f b h k = k a refl h
bind-ok-then (err e) f b h k = absurd cc

-- To split on a computed result and keep the equation.
pub Result-cases :
    {X A : Type 0} (r : Result X A) → ((a : A) × (r ≡ ok a)) ⊎ ((e : X) × (r ≡ err e))
Result-cases (ok a) = inl (a, refl)
Result-cases (err e) = inr (e, refl)
