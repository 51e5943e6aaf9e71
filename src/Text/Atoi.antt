-- ===== src/Text/Atoi.antt =====
-- Go's `strconv.Atoi`, and the sums of its 64-bit `int`.
use civika.Prelude.{
  ℕ, zero, suc, ◌+◌, ◌-◌, ◌*◌, ◌%◌, ◌&&◌, Option, none, some, [], ◌∷◌, ltb, leb, ◌==◌,
  if◌then◌else◌,
}
use civika.Prelude.Int.{ℤ, pos, negsuc, ◌+ℤ◌}
use civika.Text.{Str}

-- 2 ^ 63 and 2 ^ 64.
abbrev pub int_half : ℕ
int_half = 9223372036854775808

abbrev pub int_range : ℕ
int_range = 18446744073709551616

unfoldable pub wrap : ℤ → ℤ
wrap (pos n) = let r = n % int_range in if ltb r int_half then pos r else negsuc (int_range - r - 1)
wrap (negsuc n) =
    let r = n % int_range in if ltb r int_half then negsuc r else pos (int_range - 1 - r)

-- `a + b` on `int`.
unfoldable pub add_int : ℤ → ℤ → ℤ
unfolding wrap
add_int a b = wrap (a +ℤ b)

unfoldable pub digits_value : ℕ → Str → Option ℕ
digits_value acc [] = some acc
digits_value acc (c ∷ s) =
    let rest = digits_value (acc * 10 + (c - b'0')) s in
    if leb b'0' c && leb c b'9' then rest else none

-- At least one digit.
unfoldable pub digits : Str → Option ℕ
unfolding digits_value
digits [] = none
digits (c ∷ s) = digits_value 0 (c ∷ s)

unfoldable pub positive : Option ℕ → Option ℤ
positive none = none
positive (some n) = if ltb n int_half then some (pos n) else none

unfoldable pub negative : Option ℕ → Option ℤ
negative none = none
negative (some zero) = some (pos 0)
negative (some (suc n)) = if ltb n int_half then some (negsuc n) else none

-- `strconv.Atoi`, with `none` for an error.
unfoldable pub atoi : Str → Option ℤ
unfolding digits positive negative
atoi [] = none
atoi (c ∷ s) =
    if c == b'-'
    then negative (digits s)
    else if c == b'+'
    then positive (digits s)
    else positive (digits (c ∷ s))
