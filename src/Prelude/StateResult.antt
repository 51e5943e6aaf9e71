-- ===== src/Prelude/StateResult.antt =====
-- Go calls that change a state `W` and return `(value, error)`.
use civika.Prelude.{◌≡◌, refl, Bool, false, if◌then◌else◌}
use civika.Prelude.Result.{Result, ok, err}

-- `if err != nil { return …, err }`
abbrev pub and_then :
    {W X A B : Type 0} → W × Result X A → (A → W → W × Result X B) → W × Result X B
and_then (w, ok a) f = f a w
and_then (w, err e) f = (w, err e)

-- `fmt.Errorf("…: %w", err)`
abbrev pub wrap_error : {W X Y A : Type 0} → (X → Y) → W × Result X A → W × Result Y A
wrap_error f (w, ok a) = (w, ok a)
wrap_error f (w, err e) = (w, err (f e))

-- A call ends with a value and a state of which `P` holds, or with an error and a state of which `Q` does.
abbrev pub Ends : {W X A : Type 0} → (W → A → Type 0) → (W → X → Type 0) → W × Result X A → Type 0
Ends P Q (w, ok a) = P w a
Ends P Q (w, err e) = Q w e

pub and_then-Ends :
    {W X A B : Type 0} (P : W → A → Type 0) (R : W → B → Type 0) (Q : W → X → Type 0)
    (m : W × Result X A) (f : A → W → W × Result X B)
    → Ends P Q m
    → ((a : A) (w : W) → P w a → Ends R Q (f a w))
    → Ends R Q (and_then m f)
and_then-Ends P R Q (w, ok a) f h k = k a w h
and_then-Ends P R Q (w, err e) f h k = h

pub wrap_error-Ends :
    {W X Y A : Type 0} (P : W → A → Type 0) (Q : W → X → Type 0) (R : W → Y → Type 0) (f : X → Y)
    (m : W × Result X A)
    → Ends P Q m
    → ((e : X) (w : W) → Q w e → R w (f e))
    → Ends P R (wrap_error f m)
wrap_error-Ends P Q R f (w, ok a) h k = h
wrap_error-Ends P Q R f (w, err e) h k = k e w h

pub Ends-state :
    {W X A : Type 0} (I : W → Type 0) (m : W × Result X A)
    → I m.0
    → Ends (λ w a. I w) (λ w e. I w) m
Ends-state I (w, ok a) i = i
Ends-state I (w, err e) i = i

-- A guard that does not hold.
pub Ends-else :
    {W X A : Type 0} (P : W → A → Type 0) (Q : W → X → Type 0) (b : Bool) (m n : W × Result X A)
    → b ≡ false
    → Ends P Q n
    → Ends P Q (if b then m else n)
Ends-else P Q b m n e h = rw e h

-- A call ends with what it gives.
pub Ends-known :
    {W X A : Type 0} (I : W → Type 0) (m : W × Result X A)
    → I m.0
    → Ends (λ w a. I w) (λ w e. I w × (m ≡ (w, err e))) m
Ends-known I (w, ok a) i = i
Ends-known I (w, err e) i = (i, refl)

pub Ends-map :
    {W X A : Type 0} (P R : W → A → Type 0) (Q : W → X → Type 0) (m : W × Result X A)
    → Ends P Q m
    → ((w : W) (a : A) → P w a → R w a)
    → Ends R Q m
Ends-map P R Q (w, ok a) h f = f w a h
Ends-map P R Q (w, err e) h f = h
