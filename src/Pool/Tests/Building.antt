-- ===== src/Pool/Tests/Building.antt =====
-- A pool that `RpcPool::new` makes of a configuration of two endpoints, one of them rate-limited.
use mathlib.Core.List.{Perm}
use drm3_rpc_pool.Prelude.{◌≡◌, refl, [], ◌∷◌, some, ok, All, map}
use drm3_rpc_pool.Prelude.Sorting.{sort_by, IsSorted}
use drm3_rpc_pool.Config.Validate.{validate}
use drm3_rpc_pool.Config.{RpcPoolConfig, default_config, headers, new_endpoint}
use drm3_rpc_pool.Health.{default_policy}
use drm3_rpc_pool.Pool.RateLimit.{per_second}
use drm3_rpc_pool.Pool.State.{Sys, by_priority, new}
use drm3_rpc_pool.Pool.State.Fresh.{IsFresh, new-IsFresh}
use drm3_rpc_pool.Pool.Tests.{entry_of, clock}

abbrev config : RpcPoolConfig
config = record default_config {
  endpoints =
      record (new_endpoint "b") { priority = 1 }
      ∷ record (new_endpoint "a") { max_rps = some 2 }
      ∷ [];
}

abbrev fresh : Sys
fresh = record {
  pool = record {
    entries =
        record (entry_of "a" 0) {
          endpoint = record (new_endpoint "a") { max_rps = some 2 };
          rate_limiter = some (record {
            tokens = 2_000_000_000;
            last_refill = 0;
            capacity = 2_000_000_000;
            refill_per_sec = 2;
          });
        }
        ∷ entry_of "b" 1
        ∷ [];
    request_id = 1;
    max_retries = 0;
  };
  reads = 1;
  events = [];
}

made : new clock config default_policy 0 ≡ ok fresh
unfolding new validate sort_by per_second headers
made = refl

new-IsFresh_example :
    (validate config ≡ ok tt)
    × Perm (map (λ e. e.endpoint) fresh.pool.entries) config.endpoints
    × IsSorted by_priority (map (λ e. e.endpoint) fresh.pool.entries)
    × All (IsFresh default_policy) fresh.pool.entries
    × (fresh.pool.max_retries ≡ config.max_retries)
new-IsFresh_example = new-IsFresh clock default_policy config 0 made
