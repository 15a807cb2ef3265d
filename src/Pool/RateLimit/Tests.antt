-- ===== src/Pool/RateLimit/Tests.antt =====
-- A limiter of two requests per second, and the theorem at it.
use drm3_rpc_pool.Prelude.{ℕ, ◌+◌, ◌-◌, ◌*◌, ◌≤◌, ◌≡◌, refl, List, [], ◌∷◌, arith}
use drm3_rpc_pool.Pool.RateLimit.{token, at_least_one, per_second, try_acquire_at}
use drm3_rpc_pool.Pool.RateLimit.Laws.{grants, limiter_after, grants-bounded}

abbrev times : List ℕ
times = 0 ∷ 0 ∷ 0 ∷ 500_000_000 ∷ 600_000_000 ∷ []

three_of_five : grants (per_second 2 0) times ≡ 3
unfolding grants per_second try_acquire_at
three_of_five = refl

-- After a pause of a minute: no more than a burst, and the refill since the first acquisition.
grants-bounded_example :
    grants (limiter_after (per_second 2 0) times) (60_000_000_000 ∷ 60_500_000_000 ∷ []) * token
    ≤ at_least_one 2 * (token + (60_500_000_000 - 60_000_000_000))
grants-bounded_example =
    grants-bounded 2 0 times 60_000_000_000 60_500_000_000 (60_500_000_000 ∷ []) (omega arith)
      (omega arith, tt)
