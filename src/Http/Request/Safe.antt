-- ===== src/Http/Request/Safe.antt =====
-- backend/internal/http/handlers.go: a request body that passes its checks.
use civika.Prelude.{
  ◌≤◌, ◌≡◌, ◌≢◌, subst, Bool, true, false, not, ◌&&◌, Option, none, some, [], ◌∷◌, length, arith,
}
use civika.Prelude.Result.{ok}
use civika.Text.{Str, eqb, Runtime, trim_space}
use civika.Text.Laws.{eqb_iff}
use civika.Text.Split.{Lacks}
use civika.Services.Models.{QaQueryInput}
use civika.Http.Request.{is_id_byte, all_bytes, is_safe_id, check_payload, decode_qa_request}

all_bytes-Lacks : (s : Str) → all_bytes is_id_byte s ≡ true → Lacks b'|' s
unfolding all_bytes is_id_byte
all_bytes-Lacks [] h = tt
all_bytes-Lacks (c ∷ s) h = (ground arith, all_bytes-Lacks s (ground arith))

pub is_safe_id-Lacks : (id : Str) → is_safe_id id ≡ true → Lacks b'|' id
unfolding is_safe_id
is_safe_id-Lacks id h = all_bytes-Lacks id (ground arith)

-- A question that is not blank and not too long, and identifiers without a bar.
pub record IsSafe (input : QaQueryInput) : Type 0 where
  pub asked : trim_space input.question ≢ []
  pub short : length input.question ≤ 2000
  pub votation_id : Lacks b'|' input.context.votation_id
  pub object_id : Lacks b'|' input.context.object_id

optional-Lacks : (id : Str) → (not (eqb id []) && not (is_safe_id id)) ≡ false → Lacks b'|' id
unfolding eqb
optional-Lacks [] h = tt
optional-Lacks (c ∷ id) h = is_safe_id-Lacks (c ∷ id) (ground arith)

module _ (rt : Runtime) where
  check_payload-IsSafe :
      (payload input : QaQueryInput)
      → check_payload rt payload ≡ ok input
      → (payload ≡ input) × IsSafe payload
  unfolding check_payload
  check_payload-IsSafe payload input h = (
    ground arith,
    record {
      asked = λ blank. ground (arith, eqb_iff (trim_space payload.question) []);
      short = ground arith;
      votation_id = optional-Lacks payload.context.votation_id (ground arith);
      object_id = optional-Lacks payload.context.object_id (ground arith);
    },
  )

  pub decode_qa_request-IsSafe :
      (payload : Option QaQueryInput) (at_end : Bool) (input : QaQueryInput)
      → decode_qa_request rt payload at_end ≡ ok input
      → IsSafe input
  unfolding decode_qa_request
  decode_qa_request-IsSafe none at_end input h = cc
  decode_qa_request-IsSafe (some payload) false input h = cc
  decode_qa_request-IsSafe (some payload) true input h =
      let (same, safe) = check_payload-IsSafe payload input h in subst IsSafe same safe
