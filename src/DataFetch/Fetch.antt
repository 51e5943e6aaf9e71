-- ===== src/DataFetch/Fetch.antt =====
-- backend/cmd/data-fetch/main.go: fetchURL, with its cache and its retries. A duration is a number of
-- nanoseconds; the state `W` stands for the files, the network and the clock.
pub mod Delay
pub mod Fresh
pub mod Tries
use civika.Prelude.{
  ℕ, zero, suc, ◌+◌, ◌*◌, Bool, true, false, not, ◌&&◌, ◌||◌, Option, none, some, List, [], ◌∷◌,
  ◌++◌, length, take, drop, any, ltb, leb, if◌then◌else◌,
}
use Prim.Native.Nat.{◌^◌}
use civika.Prelude.Int.{ℤ, pos, pos_part, negsuc, ltb_ℤ, ◌+ℤ◌, ◌-ℤ◌}
use civika.Prelude.Result.{Result, ok, err}
use civika.Prelude.StateResult.{and_then}
use civika.Text.{Str, codes, eqb, Runtime, trim_space, contains, itoa_ℕ, hex}
use civika.Text.Atoi.{atoi, wrap}
use civika.DataFetch.Urls.{UrlOps, equal_fold, canonical_url}

-- `time.Second`
abbrev pub second : ℕ
second = 1000000000

-- `base << attempt` on int64.
unfoldable pub backoff : ℕ → ℤ
unfolding wrap
backoff attempt = wrap (pos (second * 2 ^ attempt))

unfoldable pub retry_delay : ℕ → ℤ → ℤ → ℤ
unfolding backoff
retry_delay attempt retry_after backoff_max =
    if ltb_ℤ (pos 0) retry_after
    then if ltb_ℤ backoff_max retry_after then backoff_max else retry_after
    else if ltb_ℤ backoff_max (backoff attempt)
    then backoff_max
    else backoff attempt

-- `time.Duration(seconds) * time.Second` of a positive number.
unfoldable pub seconds : ℕ → ℤ
unfolding wrap
seconds n = wrap (pos (n * second))

-- `until` is `time.Until` of what `http.ParseTime` reads.
unfoldable pub parse_retry_after : (Str → Option ℤ) → Str → ℤ
unfolding trim_space atoi seconds
parse_retry_after until raw =
    let s = trim_space raw in
    let dated : ℤ = elim (until s) [
      | none ↦ pos 0
      | some d ↦ if ltb_ℤ (pos 0) d then d else pos 0
    ] in
    if eqb s [] then pos 0 else elim (atoi s) [
      | some n ↦ if ltb_ℤ (pos 0) n then seconds (pos_part n) else dated
      | none ↦ dated
    ]

-- How long `waitForNextRequest` sleeps; `jitter` is `f.rng.Intn(151)`.
unfoldable pub request_wait : ℤ → ℤ → ℕ → ℤ
unfolding ◌-ℤ◌ ◌+ℤ◌
request_wait min_interval since_last jitter =
    let wait_for = min_interval -ℤ since_last in
    if not (ltb_ℤ (pos 0) min_interval)
    then pos 0
    else if ltb_ℤ (pos 0) wait_for
    then wait_for +ℤ pos ((jitter + 100) * 1000000)
    else pos 0

-- An error is its message.
unfoldable pub is_retryable_error : Str → Bool
unfolding contains
is_retryable_error message =
    contains message (codes "HTTP status: 429")
    || contains message (codes "HTTP status: 500")
    || contains message (codes "HTTP status: 502")
    || contains message (codes "HTTP status: 503")
    || contains message (codes "HTTP status: 504")

unfoldable pub validate_sha : Runtime → UrlOps → Str → Str → Bool
unfolding trim_space hex equal_fold
validate_sha rt ops body expected_hex =
    let expected = trim_space expected_hex in
    if eqb expected [] then false else equal_fold ops expected (hex (rt.sha256 body))

-- `filepath.Join` is an argument.
unfoldable pub cache_paths : Runtime → UrlOps → (List Str → Str) → Str → Str → Str × Str
unfolding canonical_url hex
cache_paths rt ops join_path cache_dir url =
    let hex_key = hex (rt.sha256 (canonical_url ops url)) in
    let prefix = join_path (cache_dir ∷ take 2 hex_key ∷ hex_key ∷ []) in
    (prefix ++ codes ".meta.json", prefix ++ codes ".body")

pub record CacheMeta : Type 0 where
  pub url : Str
  pub content_type : Str
  pub sha256 : Str
  pub fetched_at_utc : Str

-- What `os.ReadFile` gives.
pub data FileRead : Type 0 where
  found : Str → FileRead
  missing : FileRead
  broken : Str → FileRead

-- A body and its content type.
abbrev pub Page : Type 0
Page = Str × Str

-- An answer to a GET request: an error, or a status, its `Retry-After`, its content type and its body,
-- whose reading may fail.
pub data Answer : Type 0 where
  no_answer : Str → Answer
  replied : ℕ → Str → Str → Result Str Str → Answer

pub record System (W : Type 0) : Type 0 where
  pub read_file : W → Str → FileRead
  pub decode_meta : Str → Result Str CacheMeta
  pub parse_time : Str → Option ℕ
  pub now : W → ℕ
  pub join_path : List Str → Str
  pub until : W → Str → Option ℤ
  -- `waitForNextRequest`, the request, `writeCache` and `sleepCtx`.
  pub wait_for_next_request : W → W × Result Str Unit
  pub get : Str → W → W × Answer
  pub write_cache : Str → Str → Str → W → W × Result Str Unit
  pub sleep : ℤ → W → W × Result Str Unit

pub record Fetcher : Type 0 where
  pub max_response_bytes : ℕ
  -- `parseFetchConfig` refuses a negative number.
  pub max_retries : ℕ
  pub backoff_max : ℤ
  pub cache_dir : Str
  pub cache_ttl : ℤ
  pub force_refresh : Bool

module _ {W : Type 0} (rt : Runtime) (ops : UrlOps) (sys : System W) (f : Fetcher) where
  -- The body of an entry that has not expired.
  unfoldable pub read_body : Str → CacheMeta → W → Result Str (Option Page)
  unfolding validate_sha
  read_body body_path meta w = elim (sys.read_file w body_path) [
    | missing ↦ ok none
    | broken message ↦ err message
    | found body ↦
        if validate_sha rt ops body meta.sha256
        then ok (some (body, meta.content_type))
        else ok none
  ]

  -- `f.cacheTTL > 0 && time.Since(t) > f.cacheTTL`
  unfoldable pub is_past_ttl : ℕ → W → Bool
  unfolding ◌-ℤ◌
  is_past_ttl fetched w =
      ltb_ℤ (pos 0) f.cache_ttl && ltb_ℤ f.cache_ttl (pos (sys.now w) -ℤ pos fetched)

  unfoldable pub read_entry : Str → CacheMeta → W → Result Str (Option Page)
  unfolding is_past_ttl read_body
  read_entry body_path meta w = elim (sys.parse_time meta.fetched_at_utc) [
    | none ↦ ok none
    | some fetched ↦ if is_past_ttl fetched w then ok none else read_body body_path meta w
  ]

  unfoldable pub read_cache : Str → W → Result Str (Option Page)
  unfolding trim_space cache_paths read_entry
  read_cache url w =
      let paths = cache_paths rt ops sys.join_path f.cache_dir url in
      if eqb (trim_space f.cache_dir) [] then ok none else elim (sys.read_file w paths.0) [
        | missing ↦ ok none
        | broken message ↦ err message
        | found raw ↦ elim (sys.decode_meta raw) [
          | err message ↦ err message
          | ok meta ↦ read_entry paths.1 meta w
        ]
      ]

  -- `fetchURLOnce`: a page, or an error and the delay that the server asks for.
  unfoldable pub page_of : W → Answer → Result (Str × ℤ) Page
  unfolding parse_retry_after itoa_ℕ
  page_of w (no_answer message) = err (message, pos 0)
  page_of w (replied status retry_after content_type body) =
      if ltb status 200 || leb 300 status
      then err (
        codes "unexpected HTTP status: " ++ itoa_ℕ status,
        parse_retry_after (sys.until w) retry_after,
      )
      else elim body [
        | err message ↦ err (message, pos 0)
        | ok bytes ↦
            if ltb f.max_response_bytes (length (take (suc f.max_response_bytes) bytes))
            then err (
              codes "response exceeds " ++ (itoa_ℕ f.max_response_bytes ++ codes " bytes"),
              pos 0,
            )
            else ok (take (suc f.max_response_bytes) bytes, content_type)
      ]

  -- The attempts from number `attempt` on that `left` more may follow.
  unfoldable pub tries : ℕ → ℕ → Str → W → W × Result Str Page
  unfolding page_of is_retryable_error retry_delay
  tries zero attempt url w = and_then (sys.wait_for_next_request w) (λ u v.
      let answer = sys.get url v in
      elim (page_of answer.0 answer.1) [
        | ok page ↦ and_then (sys.write_cache url page.1 page.0 answer.0) (λ t x. (x, ok page))
        | err failure ↦ (answer.0, err failure.0)
      ])
  tries (suc left) attempt url w = and_then (sys.wait_for_next_request w) (λ u v.
      let answer = sys.get url v in
      elim (page_of answer.0 answer.1) [
        | ok page ↦ and_then (sys.write_cache url page.1 page.0 answer.0) (λ t x. (x, ok page))
        | err failure ↦
            if not (is_retryable_error failure.0)
            then (answer.0, err failure.0)
            else and_then (sys.sleep (retry_delay attempt failure.1 f.backoff_max) answer.0)
                (λ t x. tries left (suc attempt) url x)
      ])

  -- What `readCache` returned, or the attempts if it found no page.
  unfoldable pub cached_or_tried : Result Str (Option Page) → Str → W → W × Result Str Page
  unfolding tries
  cached_or_tried (err message) url w = (w, err message)
  cached_or_tried (ok (some page)) url w = (w, ok page)
  cached_or_tried (ok none) url w = tries f.max_retries 0 url w

  -- `fetchURL`
  unfoldable pub fetch_url : Str → W → W × Result Str Page
  unfolding canonical_url read_cache tries cached_or_tried
  fetch_url raw_url w =
      let url = canonical_url ops raw_url in
      if f.force_refresh
      then tries f.max_retries 0 url w
      else cached_or_tried (read_cache url w) url w
