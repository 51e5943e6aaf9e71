-- ===== src/Services/Redact.antt =====
-- backend/internal/services/qa_service.go: the redaction of e-mail addresses and telephone numbers, and
-- what may be cached. The two patterns are written as the length of the match at a place; Go's
-- leftmost-first choice makes each repetition as long as the rest allows.
use civika.Prelude.{
  ℕ, zero, suc, ◌+◌, Bool, true, false, ◌&&◌, ◌||◌, [], ◌∷◌, ◌++◌, length, ltb, leb, ◌==◌,
  if◌then◌else◌, take, drop,
}
use civika.Text.{Str, codes, eqb, trim_space, contains}

unfoldable pub is_digit : ℕ → Bool
is_digit c = leb b'0' c && leb c b'9'

unfoldable pub is_letter : ℕ → Bool
is_letter c = leb b'A' c && leb c b'Z' || leb b'a' c && leb c b'z'

-- [A-Za-z0-9._%+\-]
unfoldable pub is_local : ℕ → Bool
unfolding is_digit is_letter
is_local c =
    is_letter c || is_digit c || c == b'.' || c == b'_' || c == b'%' || c == b'+' || c == b'-'

-- [A-Za-z0-9.\-]
unfoldable pub is_domain : ℕ → Bool
unfolding is_digit is_letter
is_domain c = is_letter c || is_digit c || c == b'.' || c == b'-'

-- [0-9\-\s], where \s is [\t\n\f\r ].
unfoldable pub is_phone : ℕ → Bool
unfolding is_digit
is_phone c = is_digit c || c == b'-' || c == 9 || c == 10 || c == 12 || c == 13 || c == 32

-- The length of the longest prefix of bytes that pass the test.
unfoldable pub span_len : (ℕ → Bool) → Str → ℕ
span_len f [] = 0
span_len f (c ∷ s) = if f c then suc (span_len f s) else 0

-- The length of [A-Za-z0-9.\-]+\.[A-Za-z]{2,} on a run of domain bytes, of which `pos` are behind: the
-- last dot that has two letters after it ends the domain; 0 if there is none.
unfoldable pub domain_len : ℕ → Str → ℕ
unfolding is_letter span_len
domain_len pos [] = 0
domain_len pos (c ∷ s) =
    let later = domain_len (suc pos) s in
    let letters = span_len is_letter s in
    if ltb 0 later
    then later
    else if c == b'.' && ltb 0 pos && leb 2 letters
    then pos + 1 + letters
    else 0

-- After the local part: "@" and the domain.
unfoldable pub at_domain_len : ℕ → Str → ℕ
unfolding is_domain span_len domain_len
at_domain_len n [] = 0
at_domain_len n (c ∷ s) =
    let domain = domain_len 0 (take (span_len is_domain s) s) in
    if c == b'@' && ltb 0 domain then n + 1 + domain else 0

-- The length of a match of `emailPattern` at the beginning: 0 if there is none.
unfoldable pub email_len : Str → ℕ
unfolding is_local span_len at_domain_len
email_len s = let n = span_len is_local s in if n == 0 then 0 else at_domain_len n (drop n s)

-- One more than the place of the last digit that has at least 7 bytes before it; 0 if there is none.
unfoldable pub last_digit : ℕ → Str → ℕ
unfolding is_digit
last_digit pos [] = 0
last_digit pos (c ∷ s) =
    let later = last_digit (suc pos) s in
    if ltb 0 later then later else if is_digit c && leb 7 pos then suc pos else 0

-- [0-9][0-9\-\s]{7,}[0-9], with `n` bytes before it.
unfoldable pub number_len : ℕ → Str → ℕ
unfolding is_digit is_phone span_len last_digit
number_len n [] = 0
number_len n (c ∷ s) =
    let last = last_digit 0 (take (span_len is_phone s) s) in
    if is_digit c && ltb 0 last then n + 1 + last else 0

-- The length of a match of `phonePattern`.
unfoldable pub phone_len : Str → ℕ
unfolding number_len
phone_len [] = 0
phone_len (c ∷ s) = if c == b'+' then number_len 1 s else number_len 0 (c ∷ s)

-- `ReplaceAllString`; `skip` counts the bytes that are left of a match.
unfoldable pub replace_all : (Str → ℕ) → Str → ℕ → Str → Str
replace_all len replacement skip [] = []
replace_all len replacement (suc skip) (c ∷ s) = replace_all len replacement skip s
replace_all len replacement zero (c ∷ s) = elim (len (c ∷ s)) [
  | zero ↦ c ∷ replace_all len replacement 0 s
  | suc k ↦ replacement ++ replace_all len replacement k s
]

abbrev pub redacted_email : Str
redacted_email = codes "[redacted-email]"

abbrev pub redacted_phone : Str
redacted_phone = codes "[redacted-phone]"

unfoldable pub sanitize_question : Str → Str
unfolding trim_space replace_all email_len phone_len
sanitize_question question =
    let trimmed = trim_space question in
    let cut = if ltb 1200 (length trimmed) then take 1200 trimmed else trimmed in
    trim_space (replace_all phone_len redacted_phone 0 (replace_all email_len redacted_email 0 cut))

unfoldable pub is_cacheable_question : Str → Bool
unfolding trim_space contains
is_cacheable_question sanitized =
    let value = trim_space sanitized in
    if eqb value []
    then false
    else if contains value redacted_email || contains value redacted_phone
    then false
    else true
