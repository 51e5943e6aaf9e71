-- ===== src/Http/Request.antt =====
-- backend/internal/http/handlers.go: the checks on the body of a question. The JSON decoder is an
-- argument: what it decodes, and whether the end of the input follows.
pub mod Safe
use civika.Prelude.{
  ℕ, ◌≡◌, refl, Bool, true, false, not, ◌&&◌, ◌||◌, Option, none, some, List, [], ◌∷◌, length, ltb,
  leb, ◌==◌, if◌then◌else◌,
}
use civika.Prelude.Result.{Result, ok, err}
use civika.Text.{Str, eqb, Runtime, trim_space, to_upper}
use civika.Services.Models.{QaQueryInput}

pub data RequestError : Type 0 where
  invalid_body question_required question_too_long : RequestError
  invalid_votation_id invalid_object_id invalid_canton : RequestError

-- [a-zA-Z0-9:_\-\.]
unfoldable pub is_id_byte : ℕ → Bool
is_id_byte c =
    (leb b'a' c && leb c b'z')
    || (leb b'A' c && leb c b'Z')
    || (leb b'0' c && leb c b'9')
    || c == b':'
    || c == b'_'
    || c == b'-'
    || c == b'.'

unfoldable pub all_bytes : (ℕ → Bool) → Str → Bool
all_bytes p [] = true
all_bytes p (c ∷ s) = p c && all_bytes p s

-- ^[a-zA-Z0-9:_\-\.]{2,120}$
unfoldable pub is_safe_id : Str → Bool
unfolding is_id_byte all_bytes
is_safe_id id = leb 2 (length id) && leb (length id) 120 && all_bytes is_id_byte id

-- ^[A-Z]{2,3}$
unfoldable pub is_canton : Str → Bool
unfolding all_bytes
is_canton value =
    leb 2 (length value) && leb (length value) 3 && all_bytes (λ c. leb b'A' c && leb c b'Z') value

module _ (rt : Runtime) where
  -- From the decoded payload on.
  unfoldable pub check_payload : QaQueryInput → Result RequestError QaQueryInput
  unfolding trim_space is_safe_id is_canton to_upper
  check_payload payload =
      if eqb (trim_space payload.question) []
      then err question_required
      else if ltb 2000 (length payload.question)
      then err question_too_long
      else if not (eqb payload.context.votation_id [])
          && not (is_safe_id payload.context.votation_id)
      then err invalid_votation_id
      else if not (eqb payload.context.object_id []) && not (is_safe_id payload.context.object_id)
      then err invalid_object_id
      else if not (eqb payload.context.canton [])
          && not (is_canton (to_upper rt payload.context.canton))
      then err invalid_canton
      else ok payload

  unfoldable pub decode_qa_request : Option QaQueryInput → Bool → Result RequestError QaQueryInput
  unfolding check_payload
  decode_qa_request none at_end = err invalid_body
  decode_qa_request (some payload) at_end =
      if not at_end then err invalid_body else check_payload payload
