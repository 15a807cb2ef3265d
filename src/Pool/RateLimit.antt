-- ===== src/Pool/RateLimit.antt =====
-- src/pool/rate_limit.rs: the token bucket of one endpoint. The source counts tokens in floating
-- point; here a token is 10^9 units, so that a refill over nanoseconds is exact, and the rounding
-- of the source's arithmetic is not modelled.
pub mod Laws
mod Tests
use drm3_rpc_pool.Prelude.{ℕ, ◌+◌, ◌-◌, ◌*◌, min, Bool, true, false, ltb, leb, if◌then◌else◌}

-- The units of one token, and the nanoseconds of one second.
abbrev pub token : ℕ
token = 1_000_000_000

-- `Inner` and the limits of the bucket. `refill_per_sec` is in tokens per second, which are units
-- per nanosecond.
pub record RateLimiter : Type 0 where
  pub tokens : ℕ
  pub last_refill : ℕ
  pub capacity : ℕ
  pub refill_per_sec : ℕ

-- `rps.max(1)`.
pub at_least_one : ℕ → ℕ
at_least_one rps = if ltb rps 1 then 1 else rps

unfoldable pub per_second : ℕ → ℕ → RateLimiter
unfolding at_least_one
per_second rps now = record {
  tokens = at_least_one rps * token;
  last_refill = now;
  capacity = at_least_one rps * token;
  refill_per_sec = at_least_one rps;
}

refill : RateLimiter → ℕ → RateLimiter
refill limiter now =
    let elapsed = now - limiter.last_refill in
    if ltb 0 elapsed
    then record limiter {
      tokens = min (limiter.tokens + elapsed * limiter.refill_per_sec) limiter.capacity;
      last_refill = now;
    }
    else limiter

take_token : RateLimiter → RateLimiter × Bool
take_token limiter =
    if leb token limiter.tokens
    then (record limiter { tokens = limiter.tokens - token }, true)
    else (limiter, false)

unfoldable pub try_acquire_at : RateLimiter → ℕ → RateLimiter × Bool
unfolding refill take_token
try_acquire_at limiter now = take_token (refill limiter now)
