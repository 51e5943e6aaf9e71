-- ===== src/Http/RateLimit.antt =====
-- backend/internal/http/middleware.go: `qaRateLimiter`. The token bucket of golang.org/x/time/rate is an
-- argument: a new bucket, and `AllowN(now, 1)`. An instant is a number of nanoseconds, and `now.Sub`
-- is kept at zero when the clock goes back.
pub mod Visitors
pub mod Known
use civika.Prelude.{
  ℕ, zero, suc, ◌+◌, ◌-◌, ◌*◌, ◌≡◌, refl, Bool, true, false, Option, none, some, List, [], ltb, leb,
  if◌then◌else◌,
}
use civika.Prelude.Int.{ℤ, pos, negsuc}
use civika.Text.{Str}
use civika.GoMap.{Map, lookup, insert, sweep}

pub record Bucket (L : Type 0) : Type 0 where
  pub new_limiter : L
  pub allow_n : L → ℕ → L × Bool

pub record QaVisitor (L : Type 0) : Type 0 where
  pub limiter : L
  pub last_seen : ℕ

pub record QaRateLimiter (L : Type 0) : Type 0 where
  pub visitors : Map (QaVisitor L)
  pub cleanup_interval : ℕ
  pub last_cleanup : ℕ

-- `newQARateLimiter`: an interval that is not positive is one minute.
unfoldable pub new_qa_rate_limiter : {L : Type 0} → ℤ → ℕ → QaRateLimiter L
new_qa_rate_limiter cleanup_interval now = record {
  visitors = [];
  cleanup_interval = elim cleanup_interval [
    | ℤ.pos zero ↦ 60000000000
    | ℤ.pos (suc n) ↦ suc n
    | ℤ.negsuc n ↦ 60000000000
  ];
  last_cleanup = now;
}

module _ {L : Type 0} where
  unfoldable pub is_stale : ℕ → ℕ → QaVisitor L → Bool
  is_stale interval now visitor = ltb (interval * 2) (now - visitor.last_seen)

  unfoldable pub cleaned_up : ℕ → QaRateLimiter L → QaRateLimiter L
  unfolding is_stale sweep
  cleaned_up now l =
      if leb l.cleanup_interval (now - l.last_cleanup)
      then record {
        visitors = sweep (is_stale l.cleanup_interval now) l.visitors;
        cleanup_interval = l.cleanup_interval;
        last_cleanup = now;
      }
      else l

  module _ (bucket : Bucket L) where
    -- The visitor's limiter, or a new one.
    unfoldable pub limiter_of : Option (QaVisitor L) → L
    limiter_of none = bucket.new_limiter
    limiter_of (some visitor) = visitor.limiter

    unfoldable pub allow : Str → ℕ → QaRateLimiter L → QaRateLimiter L × Bool
    unfolding cleaned_up limiter_of lookup insert
    allow key now l =
        let l' = cleaned_up now l in
        let r = bucket.allow_n (limiter_of (lookup key l'.visitors)) now in
        (
          record l' {
            visitors = insert key (record { limiter = r.0; last_seen = now }) l'.visitors;
          },
          r.1,
        )
