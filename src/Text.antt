-- ===== src/Text.antt =====
-- Go strings as lists of bytes, and the functions of `strings`, `strconv` and `crypto` that the
-- backend calls. White space is Unicode's, read from its UTF-8 bytes.
pub mod Laws
pub mod Split
pub mod Atoi
use civika.Prelude.{
  ℕ, zero, suc, ◌+◌, ◌-◌, ◌/◌, ◌%◌, ◌≡◌, Bool, true, false, not, ◌&&◌, ◌||◌, Option, none, some,
  List, [], ◌∷◌, ◌++◌, map, reverse, ltb, leb, ◌==◌, if◌then◌else◌, keep, any, arith, take, length,
}
use Prim.Native.Char.{code}
use Prim.Native.String.{String}
use civika.Prelude.Int.{ℤ, pos, negsuc}

-- A string is the list of its bytes.
abbrev pub Str : Type 0
Str = List ℕ

-- The bytes of an ASCII literal.
abbrev pub codes : String → Str
codes String.[] = []
codes (String.◌∷◌ c s) = code c ∷ codes s

-- `==` on strings.
unfoldable pub eqb : Str → Str → Bool
eqb [] [] = true
eqb [] (_ ∷ _) = false
eqb (_ ∷ _) [] = false
eqb (a ∷ s) (b ∷ t) = a == b && eqb s t

-- What the code takes from tables and calendars that Go's library holds: SHA-256, the case mappings
-- of a string that has a byte outside ASCII, and `Format("2006-01-02T15:04:05Z")` of an instant.
pub record Runtime : Type 0 where
  pub sha256 : Str → Str
  pub format_utc : ℕ → Str
  pub lower_wide : Str → Str
  pub upper_wide : Str → Str

is_ascii_space : ℕ → Bool
is_ascii_space c = leb 9 c && leb c 13 || c == 32

-- U+0085 and U+00A0.
is_space2 : ℕ → ℕ → Bool
is_space2 a b = a == 0xc2 && (b == 0x85 || b == 0xa0)

-- U+1680, U+2000 to U+200A, U+2028, U+2029, U+202F, U+205F and U+3000.
is_space3 : ℕ → ℕ → ℕ → Bool
is_space3 a b c =
    a == 0xe1 && b == 0x9a && c == 0x80
    || a == 0xe2 && b == 0x80 && (leb 0x80 c && leb c 0x8a || c == 0xa8 || c == 0xa9 || c == 0xaf)
    || a == 0xe2 && b == 0x81 && c == 0x9f
    || a == 0xe3 && b == 0x80 && c == 0x80

-- The bytes of the white space that a string begins with: 0 if it begins with none.
unfoldable pub space_len : Str → ℕ
unfolding is_ascii_space is_space2 is_space3
space_len [] = 0
space_len (a ∷ []) = if is_ascii_space a then 1 else 0
space_len (a ∷ b ∷ []) = if is_ascii_space a then 1 else if is_space2 a b then 2 else 0
space_len (a ∷ b ∷ c ∷ s) =
    if is_ascii_space a then 1 else if is_space2 a b then 2 else if is_space3 a b c then 3 else 0

-- The same at the end of a string, which is given from its last byte back.
unfoldable pub space_len_rev : Str → ℕ
unfolding is_ascii_space is_space2 is_space3
space_len_rev [] = 0
space_len_rev (a ∷ []) = if is_ascii_space a then 1 else 0
space_len_rev (a ∷ b ∷ []) = if is_ascii_space a then 1 else if is_space2 b a then 2 else 0
space_len_rev (a ∷ b ∷ c ∷ s) =
    if is_ascii_space a then 1 else if is_space2 b a then 2 else if is_space3 c b a then 3 else 0

-- `skip` counts the bytes that are left of the white space at hand.
unfoldable pub trim_with : (Str → ℕ) → ℕ → Str → Str
trim_with len skip [] = []
trim_with len (suc skip) (c ∷ s) = trim_with len skip s
trim_with len zero (c ∷ s) = elim (len (c ∷ s)) [ zero ↦ c ∷ s | suc k ↦ trim_with len k s ]

-- `strings.TrimSpace`
unfoldable pub trim_space : Str → Str
unfolding trim_with space_len space_len_rev
trim_space s = reverse (trim_with space_len_rev 0 (reverse (trim_with space_len 0 s)))

-- A field that ends here; `cur` holds its bytes from the last one back.
pub emit : Str → List Str → List Str
emit [] fs = fs
emit (c ∷ cur) fs = reverse (c ∷ cur) ∷ fs

pub fields_from : ℕ → Str → Str → List Str
unfolding emit
fields_from skip cur [] = emit cur []
fields_from (suc skip) cur (c ∷ s) = fields_from skip cur s
fields_from zero cur (c ∷ s) = elim (space_len (c ∷ s)) [
  | zero ↦ fields_from 0 (c ∷ cur) s
  | suc k ↦ emit cur (fields_from k [] s)
]

-- `strings.Fields`
unfoldable pub fields : Str → List Str
unfolding fields_from space_len
fields s = fields_from 0 [] s

-- `strings.Join`
unfoldable pub join : Str → List Str → Str
join sep [] = []
join sep (s ∷ []) = s
join sep (s ∷ t ∷ ts) = s ++ (sep ++ join sep (t ∷ ts))

unfoldable pub split_from : ℕ → Str → Str → List Str
split_from sep cur [] = reverse cur ∷ []
split_from sep cur (c ∷ s) =
    let closed = reverse cur ∷ split_from sep [] s in
    let longer = split_from sep (c ∷ cur) s in if c == sep then closed else longer

-- `strings.Split` at a separator of one byte.
unfoldable pub split : Str → ℕ → List Str
unfolding split_from
split s sep = split_from sep [] s

unfoldable pub has_prefix : Str → Str → Bool
has_prefix [] s = true
has_prefix (c ∷ p) [] = false
has_prefix (c ∷ p) (d ∷ s) = c == d && has_prefix p s

-- `strings.Contains`
unfoldable pub contains : Str → Str → Bool
unfolding has_prefix
contains [] p = has_prefix p []
contains (c ∷ s) p = has_prefix p (c ∷ s) || contains s p

unfoldable pub lower_byte : ℕ → ℕ
lower_byte c = if leb b'A' c && leb c b'Z' then c + 32 else c

unfoldable pub upper_byte : ℕ → ℕ
upper_byte c = if leb b'a' c && leb c b'z' then c - 32 else c

unfoldable pub is_ascii : Str → Bool
is_ascii [] = true
is_ascii (c ∷ s) = ltb c 0x80 && is_ascii s

-- `strings.ToLower` and `strings.ToUpper`: a fast path for ASCII, and the tables otherwise.
unfoldable pub to_lower : Runtime → Str → Str
unfolding is_ascii lower_byte
to_lower rt s = if is_ascii s then map lower_byte s else rt.lower_wide s

unfoldable pub to_upper : Runtime → Str → Str
unfolding is_ascii upper_byte
to_upper rt s = if is_ascii s then map upper_byte s else rt.upper_wide s

-- `hex.EncodeToString`
unfoldable pub hex_digit : ℕ → ℕ
hex_digit d = if ltb d 10 then 48 + d else 87 + d

unfoldable pub hex : Str → Str
unfolding hex_digit
hex [] = []
hex (c ∷ s) = hex_digit (c / 16) ∷ hex_digit (c % 16) ∷ hex s

-- The decimal digits of `n` before `acc`; the fuel is more than the digits.
unfoldable pub digits_from : ℕ → ℕ → Str → Str
digits_from zero n acc = acc
digits_from (suc f) n acc = elim (ltb n 10) [
  | true ↦ (48 + n) ∷ acc
  | false ↦ digits_from f (n / 10) ((48 + n % 10) ∷ acc)
]

unfoldable pub itoa_ℕ : ℕ → Str
unfolding digits_from
itoa_ℕ n = digits_from (suc n) n []

-- `strconv.Itoa`
unfoldable pub itoa : ℤ → Str
unfolding itoa_ℕ
itoa (pos n) = itoa_ℕ n
itoa (negsuc n) = b'-' ∷ itoa_ℕ (suc n)

-- `<` on strings: by bytes.
unfoldable pub str_lt : Str → Str → Bool
str_lt s [] = false
str_lt [] (_ ∷ _) = true
str_lt (a ∷ s) (b ∷ t) = ltb a b || a == b && str_lt s t

-- `strings.Trim` with a cutset of one byte.
unfoldable pub trim_byte_left : ℕ → Str → Str
trim_byte_left c [] = []
trim_byte_left c (d ∷ s) = if d == c then trim_byte_left c s else d ∷ s

unfoldable pub trim_byte : ℕ → Str → Str
unfolding trim_byte_left
trim_byte c s = reverse (trim_byte_left c (reverse (trim_byte_left c s)))

-- `strings.IndexByte`; `none` is -1.
unfoldable pub index_byte : Str → ℕ → Option ℕ
index_byte [] c = none
index_byte (d ∷ s) c =
    let rest = index_byte s c in
    if d == c then some 0 else elim rest [ none ↦ none | some n ↦ some (suc n) ]
