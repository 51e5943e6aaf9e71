-- ===== src/DataFetch/Fetch/Tries.antt =====
-- backend/cmd/data-fetch/main.go: the requests of fetchURL.
use civika.Prelude.{ℕ, zero, suc, ◌+◌, ◌≤◌, ◌≡◌, Option, none, some, Bool-cases, inl, inr, arith}
use civika.Prelude.Int.{ℤ}
use civika.Prelude.Result.{Result, ok, err, Result-cases}
use civika.Prelude.StateResult.{and_then, Ends, and_then-Ends, Ends-state}
use civika.Text.{Str, Runtime}
use civika.DataFetch.Urls.{UrlOps, canonical_url}
use civika.DataFetch.Fetch.{
  Page, System, Fetcher, page_of, is_retryable_error, retry_delay, read_cache, tries,
  cached_or_tried, fetch_url,
}

module _ {W : Type 0} (rt : Runtime) (ops : UrlOps) (sys : System W) (f : Fetcher)
    (requests : W → ℕ) (waits : (w : W) → requests (sys.wait_for_next_request w).0 ≡ requests w)
    (gets : (url : Str) (w : W) → requests (sys.get url w).0 ≡ suc (requests w))
    (writes : (url content_type body : Str) (w : W)
      → requests (sys.write_cache url content_type body w).0 ≡ requests w)
    (sleeps : (d : ℤ) (w : W) → requests (sys.sleep d w).0 ≡ requests w) where
  -- At most `n` requests in the state a call ends with.
  abbrev IsWithin : {A : Type 0} → ℕ → W × Result Str A → Type 0
  IsWithin n m = Ends (λ v a. requests v ≤ n) (λ v e. requests v ≤ n) m

  kept : {A : Type 0} (n : ℕ) (m : W × Result Str A) → requests m.0 ≤ n → IsWithin n m
  kept n m h = Ends-state (λ v. requests v ≤ n) m h

  -- A page that is fetched is written to the cache.
  written :
      (n : ℕ) (url : Str) (page : Page) (w : W)
      → requests w ≤ n
      → IsWithin n (and_then (sys.write_cache url page.1 page.0 w) (λ t x. (x, ok page)))
  written n url page w h =
      and_then-Ends (λ v a. requests v ≤ n) (λ v a. requests v ≤ n) (λ v e. requests v ≤ n) _ _
        (kept n (sys.write_cache url page.1 page.0 w) (rw (writes url page.1 page.0 w) h))
        (λ t x i. i)

  weaken :
      {A : Type 0} (k n : ℕ) (m : W × Result Str A)
      → Ends (λ v a. requests v + k ≤ n) (λ v e. requests v + k ≤ n) m
      → Ends (λ v a. requests v + k ≤ n) (λ v e. requests v ≤ n) m
  weaken k n (v, ok a) h = h
  weaken k n (v, err e) h = omega arith

  waited :
      (k n : ℕ) (w : W)
      → requests w + k ≤ n
      → Ends (λ v a. requests v + k ≤ n) (λ v e. requests v ≤ n) (sys.wait_for_next_request w)
  waited k n w h =
      weaken k n (sys.wait_for_next_request w) (
        Ends-state (λ v. requests v + k ≤ n) (sys.wait_for_next_request w) (omega (arith, waits w)))

  slept :
      (k n : ℕ) (d : ℤ) (w : W)
      → requests w + k ≤ n
      → Ends (λ v a. requests v + k ≤ n) (λ v e. requests v ≤ n) (sys.sleep d w)
  slept k n d w h =
      weaken k n (sys.sleep d w)
        (Ends-state (λ v. requests v + k ≤ n) (sys.sleep d w) (omega (arith, sleeps d w)))

  tries-IsWithin :
      (left attempt n : ℕ) (url : Str) (w : W)
      → requests w + suc left ≤ n
      → IsWithin n (tries rt ops sys f left attempt url w)
  unfolding tries
  tries-IsWithin zero attempt n url w h =
      and_then-Ends (λ v a. requests v + 1 ≤ n) (λ v a. requests v ≤ n) (λ v e. requests v ≤ n) _ _
        (waited 1 n w h)
        (λ u v i.
          let answer = sys.get url v in
          let l : requests answer.0 ≤ n = omega (arith, gets url v) in
          elim (Result-cases (page_of rt ops sys f answer.0 answer.1)) [
            | inl (page, e) ↦ rw e (written n url page answer.0 l)
            | inr (failure, e) ↦ rw e l
          ])
  tries-IsWithin (suc left) attempt n url w h =
      and_then-Ends (λ v a. requests v + suc (suc left) ≤ n) (λ v a. requests v ≤ n)
        (λ v e. requests v ≤ n) _ _ (waited (suc (suc left)) n w h)
        (λ u v i.
          let answer = sys.get url v in
          let l : requests answer.0 + suc left ≤ n = omega (arith, gets url v) in
          elim (Result-cases (page_of rt ops sys f answer.0 answer.1)) [
            | inl (page, e) ↦ rw e (written n url page answer.0 (omega arith))
            | inr (failure, e) ↦ elim (Bool-cases (is_retryable_error failure.0)) [
              | inr r ↦ rw (e, r) (omega arith)
              | inl r ↦
                  rw (e, r)
                    (and_then-Ends (λ x a. requests x + suc left ≤ n) (λ x a. requests x ≤ n)
                      (λ x a. requests x ≤ n) _ _
                      (slept (suc left) n (retry_delay attempt failure.1 f.backoff_max) answer.0 l)
                      (λ t x j. tries-IsWithin left (suc attempt) n url x j))
            ]
          ])

  within_state : {A : Type 0} (n : ℕ) (m : W × Result Str A) → IsWithin n m → requests m.0 ≤ n
  within_state n (v, ok a) h = h
  within_state n (v, err e) h = h

  tries_le :
      (url : Str) (w : W)
      → requests (tries rt ops sys f f.max_retries 0 url w).0 ≤ requests w + suc f.max_retries
  tries_le url w =
      let n = requests w + suc f.max_retries in
      within_state n (tries rt ops sys f f.max_retries 0 url w)
        (tries-IsWithin f.max_retries 0 n url w (omega arith))

  cached_or_tried_le :
      (r : Result Str (Option Page)) (url : Str) (w : W)
      → requests (cached_or_tried rt ops sys f r url w).0 ≤ requests w + suc f.max_retries
  unfolding cached_or_tried
  cached_or_tried_le (err message) url w = omega arith
  cached_or_tried_le (ok (some page)) url w = omega arith
  cached_or_tried_le (ok none) url w = tries_le url w

  -- If only the request itself counts as a request: fetchURL makes at most one request more than its
  -- limit of retries, whether it uses the cache or not and whatever the answers are.
  pub fetch_url_requests :
      (raw_url : Str) (w : W)
      → requests (fetch_url rt ops sys f raw_url w).0 ≤ requests w + suc f.max_retries
  unfolding fetch_url
  fetch_url_requests raw_url w = elim (Bool-cases f.force_refresh) [
    | inl t ↦ rw (fetch_url, t) (tries_le (canonical_url ops raw_url) w)
    | inr t ↦
        rw (fetch_url, t)
          (cached_or_tried_le (read_cache rt ops sys f (canonical_url ops raw_url) w)
            (canonical_url ops raw_url) w)
  ]
