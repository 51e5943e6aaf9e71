-- ===== src/Http/RateLimit/Known.antt =====
-- backend/internal/http/middleware.go: one call of `allow`.
use civika.Prelude.{
  ℕ, ◌&&◌, ◌-◌, ◌*◌, ◌≡◌, refl, ◌∙◌, ap, Option, none, some, ltb, leb, if◌then◌else◌, arith,
}
use civika.Text.{Str, eqb}
use civika.GoMap.{lookup, Distinct, lookup-insert, lookup-sweep}
use civika.Http.RateLimit.{
  Bucket, QaVisitor, QaRateLimiter, is_stale, cleaned_up, limiter_of, allow,
}

module _ {L : Type 0} where
  module _ (bucket : Bucket L) where
    -- The visitor that `allow` goes on with: none if it is unknown, or if a cleanup is due and it was
    -- last seen more than two intervals ago.
    abbrev pub known : ℕ → QaRateLimiter L → Str → Option (QaVisitor L)
    known now l key = elim (lookup key l.visitors) [
      | none ↦ none
      | some visitor ↦
          if leb l.cleanup_interval (now - l.last_cleanup)
            && ltb (l.cleanup_interval * 2) (now - visitor.last_seen)
          then none
          else some visitor
    ]

    lookup-cleaned_up :
        (now : ℕ) (l : QaRateLimiter L) (key : Str)
        → Distinct l.visitors
        → lookup key (cleaned_up now l).visitors ≡ known now l key
    unfolding cleaned_up is_stale
    lookup-cleaned_up now l key d =
        ground (arith, lookup-sweep (is_stale l.cleanup_interval now) key l.visitors d)

    -- With no key twice among the visitors: allow decides as the bucket of the key's visitor does at
    -- that time, or as a new bucket if the visitor is unknown or a due cleanup finds it stale; it
    -- keeps the new state of that bucket with the time of the call; and under any other key there is
    -- what was there, or nothing if a due cleanup finds that visitor stale.
    pub allow-known :
        (key : Str) (now : ℕ) (l : QaRateLimiter L)
        → Distinct l.visitors
        → ((allow bucket key now l).1
            ≡ (bucket.allow_n (limiter_of bucket (known now l key)) now).1)
          × ((j : Str)
              → lookup j (allow bucket key now l).0.visitors ≡ (
                  if eqb key j
                  then some (record {
                    limiter = (bucket.allow_n (limiter_of bucket (known now l key)) now).0;
                    last_seen = now;
                  })
                  else known now l j))
    unfolding allow
    allow-known key now l d = (
      ap (λ o. (bucket.allow_n (limiter_of bucket o) now).1) (lookup-cleaned_up now l key d),
      λ j.
          lookup-insert key j _ (cleaned_up now l).visitors
          ∙ rw (lookup-cleaned_up now l key d, lookup-cleaned_up now l j d) refl,
    )
