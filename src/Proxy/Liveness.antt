-- ===== src/Proxy/Liveness.antt =====
-- A pool that the health endpoint of src/proxy.rs is asked of has an endpoint.
use mathlib.Core.List.{Perm}
use mathlib.Core.List.Perm
use drm3_rpc_pool.Prelude.{ℕ, ◌≡◌, ◌≢◌, true, List, [], ◌∷◌, map, ok, ltb, length, sym, arith}
use drm3_rpc_pool.Config.{RpcPoolConfig}
use drm3_rpc_pool.Config.Validate.Distinct.{validate-eq-ok_iff}
use drm3_rpc_pool.Health.{BackoffPolicy}
use drm3_rpc_pool.Pool.State.{PoolEntry, Sys, new}
use drm3_rpc_pool.Pool.State.Fresh.{new-IsFresh}

module _ (clock : ℕ → ℕ) (backoff : BackoffPolicy) where
  pub new-nonempty :
      (config : RpcPoolConfig) (reads : ℕ) {sys : Sys}
      → new clock config backoff reads ≡ ok sys
      → ltb 0 (length sys.pool.entries) ≡ true
  new-nonempty config reads {sys} made =
      let (valid, same, sorted, fresh, budget) = new-IsFresh clock backoff config reads made in
      let some_endpoint = ((validate-eq-ok_iff config).0 valid).0 in
      nonempty sys.pool.entries same some_endpoint
    where
      nonempty :
          (entries : List PoolEntry)
          → Perm (map (λ e. e.endpoint) entries) config.endpoints
          → config.endpoints ≢ []
          → ltb 0 (length entries) ≡ true
      nonempty [] same h = absurd (h (sym (Perm.nil-eq same)))
      nonempty (e ∷ es) same h = ground arith
