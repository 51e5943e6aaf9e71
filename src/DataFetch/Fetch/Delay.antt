-- ===== src/DataFetch/Fetch/Delay.antt =====
-- backend/cmd/data-fetch/main.go: the delay before a retry.
use civika.Prelude.{ℕ, ◌*◌, ◌≤◌, ◌≡◌, arith}
use Prim.Native.Nat.{◌^◌}
use native.Mathlib.Nat.{pow-le-pow_right, one-le-pow}
use civika.Prelude.Int.{ℤ, pos, ◌≤ℤ◌}
use civika.Text.Atoi.{wrap}
use civika.DataFetch.Fetch.{second, backoff, retry_delay}

-- A shift that fits int64.
wrap_small : (n : ℕ) → 1 ≤ n → n ≤ 8589934592000000000 → wrap (pos n) ≡ pos n
unfolding wrap
wrap_small n l h = ground arith

backoff_positive : (attempt : ℕ) → attempt ≤ 33 → pos 1 ≤ℤ backoff attempt
unfolding backoff
backoff_positive attempt h =
    let low : 1 ≤ 2 ^ attempt = one-le-pow attempt 2 (omega arith) in
    let high : 2 ^ attempt ≤ 8589934592 = pow-le-pow_right (omega arith) h in
    rw (wrap_small (second * 2 ^ attempt) (omega (arith, low)) (omega (arith, high)))
      (omega (arith, low))

-- For an attempt up to number 33, counted from 0, and a positive maximum: the delay before a retry is
-- positive and at most the maximum, whatever delay the server asks for.
pub retry_delay_bounds :
    (attempt : ℕ) (retry_after backoff_max : ℤ)
    → attempt ≤ 33
    → pos 1 ≤ℤ backoff_max
    → (pos 1 ≤ℤ retry_delay attempt retry_after backoff_max)
      × (retry_delay attempt retry_after backoff_max ≤ℤ backoff_max)
unfolding retry_delay
retry_delay_bounds attempt retry_after backoff_max h p = ground (arith, backoff_positive attempt h)
