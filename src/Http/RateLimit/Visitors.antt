-- ===== src/Http/RateLimit/Visitors.antt =====
-- backend/internal/http/middleware.go: the visitors that the rate limiter keeps.
use civika.Prelude.{
  ℕ, zero, suc, ◌+◌, ◌-◌, ◌*◌, ◌≤◌, ◌<◌, ◌≡◌, refl, subst, ◌∙◌, false, List, [], ◌∷◌, ltb, leb, All,
  All-map, arith, Bool-cases, inl, inr,
}
use civika.Prelude.Int.{ℤ}
use civika.Text.{Str}
use civika.GoMap.{Map, sweep, Distinct, sweep-Distinct, insert-Distinct, insert-All}
use civika.Http.RateLimit.{
  Bucket, QaVisitor, QaRateLimiter, new_qa_rate_limiter, is_stale, cleaned_up, allow,
}

le_through : (a b c : ℕ) → a ≤ b → b ≤ c → a ≤ c
le_through a b c p q = omega arith

until_next : (now interval : ℕ) → 0 < interval → now < now + interval
until_next now interval p = omega arith

before_next :
    (now last interval : ℕ)
    → 0 < interval
    → leb interval (now - last) ≡ false
    → now < last + interval
before_next now last interval p h = ground arith

three_intervals :
    (now seen interval same last : ℕ)
    → same ≡ interval
    → now < last + interval
    → last ≤ seen + same * 2
    → now < seen + interval * 3
three_intervals now seen interval same last e p q = omega arith

module _ {L : Type 0} where
  -- At the time `now`: a positive interval, one entry for a key, no time in the future, and no visitor
  -- that the last cleanup should have dropped.
  pub record IsValid (now : ℕ) (l : QaRateLimiter L) : Type 0 where
    pub positive : 0 < l.cleanup_interval
    pub distinct : Distinct l.visitors
    pub past : l.last_cleanup ≤ now
    pub seen :
        All
          (λ e.
            ((e.1).last_seen ≤ now) × (l.last_cleanup ≤ (e.1).last_seen + l.cleanup_interval * 2))
          l.visitors

  sweep-fresh :
      (interval now : ℕ) (m : Map (QaVisitor L))
      → All (λ e. (e.1).last_seen ≤ now) m
      → All
          (λ e. ((e.1).last_seen ≤ now) × (now ≤ (e.1).last_seen + interval * 2))
          (sweep (is_stale interval now) m)
  unfolding sweep is_stale
  sweep-fresh interval now [] h = tt
  sweep-fresh interval now ((k, v) ∷ m) (p, h) =
      elim (Bool-cases (ltb (interval * 2) (now - v.last_seen))) [
        | inl e ↦ rw e (sweep-fresh interval now m h)
        | inr e ↦ rw e ((omega arith, ground arith), sweep-fresh interval now m h)
      ]

  cleaned_up-IsValid :
      (earlier now : ℕ) (l : QaRateLimiter L)
      → earlier ≤ now
      → IsValid earlier l
      → IsValid now (cleaned_up now l)
        × (now < (cleaned_up now l).last_cleanup + l.cleanup_interval)
  unfolding cleaned_up
  cleaned_up-IsValid earlier now l order v =
      elim (Bool-cases (leb l.cleanup_interval (now - l.last_cleanup))) [
        | inl e ↦ rw e (
          record {
            positive = v.positive;
            distinct = sweep-Distinct (is_stale l.cleanup_interval now) l.visitors v.distinct;
            past = omega arith;
            seen = sweep-fresh l.cleanup_interval now l.visitors (
                All-map l.visitors (λ e p. le_through (e.1).last_seen earlier now p.0 order)
                  v.seen);
          },
          until_next now l.cleanup_interval v.positive,
        )
        | inr e ↦ rw e (
          record {
            positive = v.positive;
            distinct = v.distinct;
            past = le_through l.last_cleanup earlier now v.past order;
            seen =
                All-map l.visitors (λ e p. (le_through (e.1).last_seen earlier now p.0 order, p.1))
                  v.seen;
          },
          before_next now l.last_cleanup l.cleanup_interval v.positive e,
        )
      ]

  cleaned_up-interval :
      (now : ℕ) (l : QaRateLimiter L) → (cleaned_up now l).cleanup_interval ≡ l.cleanup_interval
  unfolding cleaned_up
  cleaned_up-interval now l = ground arith

  new-IsValid : (interval : ℤ) (now : ℕ) → IsValid now (new_qa_rate_limiter {L = L} interval now)
  unfolding new_qa_rate_limiter
  new-IsValid (ℤ.pos zero) now = record {
    positive = omega arith;
    distinct = tt;
    past = omega arith;
    seen = tt;
  }
  new-IsValid (ℤ.pos (suc n)) now = record {
    positive = omega arith;
    distinct = tt;
    past = omega arith;
    seen = tt;
  }
  new-IsValid (ℤ.negsuc n) now = record {
    positive = omega arith;
    distinct = tt;
    past = omega arith;
    seen = tt;
  }

  module _ (bucket : Bucket L) where
    pub allow-IsValid :
        (key : Str) (earlier now : ℕ) (l : QaRateLimiter L)
        → earlier ≤ now
        → IsValid earlier l
        → IsValid now (allow bucket key now l).0
    unfolding allow
    allow-IsValid key earlier now l order v =
        let (w, soon) = cleaned_up-IsValid earlier now l order v in
        record {
          positive = w.positive;
          distinct = insert-Distinct key _ (cleaned_up now l).visitors w.distinct;
          past = w.past;
          seen =
              insert-All
                (λ e.
                  ((e.1).last_seen ≤ now)
                  × ((cleaned_up now l).last_cleanup
                      ≤ (e.1).last_seen + (cleaned_up now l).cleanup_interval * 2))
                key _ (cleaned_up now l).visitors
                (
                  omega arith,
                  le_through (cleaned_up now l).last_cleanup now
                      (now + (cleaned_up now l).cleanup_interval * 2) w.past (omega arith),
                )
                w.seen;
        }

    -- The calls of `allow` with their keys and times, from a new limiter on.
    abbrev pub run : List (Str × ℕ) → QaRateLimiter L → QaRateLimiter L
    run [] l = l
    run ((key, now) ∷ calls) l = run calls (allow bucket key now l).0

    -- The times do not go back, from `now` on.
    abbrev pub InOrder : ℕ → List (Str × ℕ) → Type 0
    InOrder now [] = Unit
    InOrder now ((key, later) ∷ calls) = (now ≤ later) × InOrder later calls

    -- The time of the last call.
    abbrev pub last_time : ℕ → List (Str × ℕ) → ℕ
    last_time now [] = now
    last_time now ((key, later) ∷ calls) = last_time later calls

    allow-recent :
        (key : Str) (earlier now : ℕ) (l : QaRateLimiter L)
        → earlier ≤ now
        → IsValid earlier l
        → All
            (λ e. now < (e.1).last_seen + l.cleanup_interval * 3)
            (allow bucket key now l).0.visitors
    unfolding allow
    allow-recent key earlier now l order v =
        let (w, soon) = cleaned_up-IsValid earlier now l order v in
        insert-All (λ e. now < (e.1).last_seen + l.cleanup_interval * 3) key _
          (cleaned_up now l).visitors
          (three_intervals now now l.cleanup_interval (cleaned_up now l).cleanup_interval
            (cleaned_up now l).last_cleanup (cleaned_up-interval now l) soon
            (le_through (cleaned_up now l).last_cleanup now
              (now + (cleaned_up now l).cleanup_interval * 2) w.past (omega arith)))
          (All-map (cleaned_up now l).visitors
            (λ e p.
              three_intervals now (e.1).last_seen l.cleanup_interval
                (cleaned_up now l).cleanup_interval (cleaned_up now l).last_cleanup
                (cleaned_up-interval now l) soon p.1)
            w.seen)

    allow-interval :
        (key : Str) (now : ℕ) (l : QaRateLimiter L)
        → (allow bucket key now l).0.cleanup_interval ≡ l.cleanup_interval
    unfolding allow
    allow-interval key now l = cleaned_up-interval now l

    run-recent_from :
        (calls : List (Str × ℕ)) (now interval : ℕ) (l : QaRateLimiter L)
        → l.cleanup_interval ≡ interval
        → IsValid now l
        → InOrder now calls
        → All (λ e. now < (e.1).last_seen + interval * 3) l.visitors
        → All (λ e. last_time now calls < (e.1).last_seen + interval * 3) (run calls l).visitors
    run-recent_from [] now interval l same v order h = h
    run-recent_from ((key, later) ∷ calls) now interval l same v order h =
        run-recent_from calls later interval (allow bucket key later l).0
          (allow-interval key later l ∙ same) (allow-IsValid key now later l order.0 v) order.1
          (subst
            (λ k. All (λ e. later < (e.1).last_seen + k * 3) (allow bucket key later l).0.visitors)
            same (allow-recent key now later l order.0 v))

    -- After any calls of allow whose times do not go back, from a new limiter on: each visitor that is
    -- kept was seen less than three cleanup intervals before the last call.
    pub run-recent :
        (interval : ℤ) (start : ℕ) (calls : List (Str × ℕ))
        → InOrder start calls
        → All
            (λ e.
              last_time start calls
              < (e.1).last_seen + (new_qa_rate_limiter {L = L} interval start).cleanup_interval * 3)
            (run calls (new_qa_rate_limiter interval start)).visitors
    run-recent interval start calls order =
        run-recent_from calls start (new_qa_rate_limiter {L = L} interval start).cleanup_interval
          (new_qa_rate_limiter interval start) refl (new-IsValid interval start) order
          (unfold new_qa_rate_limiter in tt)
