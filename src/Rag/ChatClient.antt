-- ===== src/Rag/ChatClient.antt =====
-- backend/internal/rag/translate.go and query.go: the HTTP client of a language model. The requests that
-- were posted and the usage events that were emitted are the state, the latest first; what the service
-- replies to each request, and whether the context is cancelled after it, are arguments.
use civika.Prelude.{ℕ, Bool, Option, List, ◌++◌, reverse, if◌then◌else◌}
use civika.Prelude.Int.{ℤ, pos, ltb_ℤ}
use civika.Text.{Str, codes, trim_byte_left}
use civika.Rag.Usage.{UsageEvent}

-- `if n <= 0 { n = other }`
unfoldable pub or_if_not_positive : ℤ → ℤ → ℤ
or_if_not_positive n other = if ltb_ℤ (pos 0) n then n else other

-- An HTTP request, and what comes of it: an error, or a status and a body, whose reading may fail.
pub record Post : Type 0 where
  pub url : Str
  pub api_key : Str
  pub model : Str
  pub prompt : Str

pub data Response : Type 0 where
  failed : Response
  responded : ℕ → Option Str → Response

pub record Exchange : Type 0 where
  pub response : Response
  pub duration_ms : ℤ
  pub now : ℕ

-- The service and the context: the exchange and `ctx.Err() != nil` after a number of requests, and the
-- addresses that http.NewRequestWithContext accepts.
pub record Net : Type 0 where
  pub is_url : Str → Bool
  pub exchange : ℕ → Exchange
  pub is_cancelled : ℕ → Bool
  pub has_emitter : Bool

pub record World : Type 0 where
  pub posted : List Post
  pub events : List UsageEvent

-- The address of the completions under a base URL.
unfoldable pub chat_url : Str → Str
unfolding trim_byte_left
chat_url base_url = reverse (trim_byte_left b'/' (reverse base_url)) ++ codes "/v1/chat/completions"
