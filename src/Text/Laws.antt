-- ===== src/Text/Laws.antt =====
-- Laws of the string functions.
use civika.Prelude.{[], arith, false, refl, true, ◌↔◌, ◌∷◌, ◌≡◌, ◌≢◌}
use civika.Text.{Str, eqb}

pub eq_of_eqb : (s t : Str) → (eqb s t) ≡ true → s ≡ t
unfolding eqb
eq_of_eqb [] [] h = refl
eq_of_eqb [] (b ∷ t) h = ground arith
eq_of_eqb (a ∷ s) [] h = ground arith
eq_of_eqb (a ∷ s) (b ∷ t) h = ground (arith, eq_of_eqb s t)

pub eq_refl : (s : Str) → (eqb s s) ≡ true
unfolding eqb
eq_refl [] = refl
eq_refl (a ∷ s) = ground (arith, eq_refl s)

pub eqb_iff : (s t : Str) → ((eqb s t) ≡ true) ↔ (s ≡ t)
eqb_iff s t = (eq_of_eqb s t, λ e. rw e (eq_refl t))

pub eqb_comm : (s t : Str) → (eqb s t) ≡ (eqb t s)
eqb_comm s t = ground (arith, eqb_iff s t, eqb_iff t s)

pub not_empty : (s : Str) → eqb s [] ≡ false → s ≢ []
unfolding eqb
not_empty [] e = absurd cc
not_empty (c ∷ s) e = λ h. cc

pub eqb_empty : (s : Str) → s ≢ [] → eqb s [] ≡ false
unfolding eqb
eqb_empty [] h = absurd (h refl)
eqb_empty (c ∷ s) h = refl
