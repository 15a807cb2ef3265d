-- ===== src/Pool/State.antt =====
-- The pool's state in src/pool/mod.rs, and its construction. `Sys` adds to the pool what its methods
-- touch outside: the clock, of which each `Instant::now()` takes the next reading, and the calls
-- that the metrics sink has received, oldest first.
pub mod Frame
pub mod Fresh
use drm3_rpc_pool.Prelude.{
  ℕ, zero, suc, ◌+◌, ◌-◌, ◌%◌, ◌^◌, String, Bool, List, [], ◌∷◌, ◌++◌, Option, none, some, Result,
  ok, err, ◌>>=◌, leb,
}
use drm3_rpc_pool.Prelude.Sorting.{sort_by}
use drm3_rpc_pool.Error.{RpcError}
use drm3_rpc_pool.Config.{RpcEndpoint, RpcPoolConfig, headers}
use drm3_rpc_pool.Config.Validate.{validate}
use drm3_rpc_pool.Health.{BackoffPolicy, EndpointHealth, new_health}
use drm3_rpc_pool.Metrics.{Event}
use drm3_rpc_pool.Pool.RateLimit.{RateLimiter, per_second}

pub record PoolEntry : Type 0 where
  pub endpoint : RpcEndpoint
  pub health : EndpointHealth
  pub auth_headers : List (String × String)
  pub rate_limiter : Option RateLimiter
  pub in_flight : ℕ

pub record PoolInner : Type 0 where
  pub entries : List PoolEntry
  pub request_id : ℕ
  pub max_retries : ℕ

pub record Sys : Type 0 where
  pub pool : PoolInner
  pub reads : ℕ
  pub events : List Event

-- `InFlightGuard::enter` and its `drop`, on a 64-bit counter.
unfoldable pub enter : PoolEntry → PoolEntry
enter entry = record entry { in_flight = (entry.in_flight + 1) % 2 ^ 64 }

unfoldable pub leave : PoolEntry → PoolEntry
leave entry = record entry { in_flight = (entry.in_flight + 2 ^ 64 - 1) % 2 ^ 64 }

-- An update of one entry in place.
abbrev pub modify {ℓ} : {A : Type ℓ} → List A → ℕ → (A → A) → List A
modify [] i f = []
modify (x ∷ xs) zero f = f x ∷ xs
modify (x ∷ xs) (suc i) f = x ∷ modify xs i f

unfoldable pub modify_entry : Sys → ℕ → (PoolEntry → PoolEntry) → Sys
modify_entry sys i f = record sys {
  pool = record (sys.pool) { entries = modify sys.pool.entries i f };
}

unfoldable pub emit : Sys → Event → Sys
emit sys event = record sys { events = sys.events ++ event ∷ [] }

unfoldable pub by_priority : RpcEndpoint → RpcEndpoint → Bool
by_priority a b = leb a.priority b.priority

module _ (clock : ℕ → ℕ) where
  -- `Instant::now()`.
  unfoldable pub read_clock : Sys → Sys × ℕ
  read_clock sys = (record sys { reads = suc sys.reads }, clock sys.reads)

  -- An endpoint with a limit reads the clock once, when its limiter is made.
  unfoldable pub new_entry : BackoffPolicy → RpcEndpoint → ℕ → ℕ × PoolEntry
  new_entry backoff endpoint reads =
      let entry : Option RateLimiter → PoolEntry = λ limiter. record {
        endpoint = endpoint;
        health = new_health backoff;
        auth_headers = headers endpoint.auth;
        rate_limiter = limiter;
        in_flight = 0;
      } in
      elim endpoint.max_rps [
        | none ↦ (reads, entry none)
        | some rps ↦ (suc reads, entry (some (per_second rps (clock reads))))
      ]

  unfoldable pub new_entries : BackoffPolicy → List RpcEndpoint → ℕ → ℕ × List PoolEntry
  unfolding new_entry
  new_entries backoff [] reads = (reads, [])
  new_entries backoff (endpoint ∷ rest) reads =
      let (reads', entry) = new_entry backoff endpoint reads in
      let (reads'', entries) = new_entries backoff rest reads' in (reads'', entry ∷ entries)

  -- `RpcPool::new`, with no event recorded and the given number of clock readings taken.
  unfoldable pub new : RpcPoolConfig → BackoffPolicy → ℕ → Result Sys RpcError
  unfolding new_entries by_priority
  new config backoff reads = do
    valid ← validate config
    let (reads', entries) = new_entries backoff (sort_by by_priority config.endpoints) reads
    ok (record {
      pool = record { entries = entries; request_id = 1; max_retries = config.max_retries };
      reads = reads';
      events = [];
    })
