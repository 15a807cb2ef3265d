-- ===== src/Pool/Tasks/Lifetime.antt =====
-- The life of a pool of src/pool/mod.rs: from `RpcPool::new`, through any calls.
use mathlib.Core.Option
use drm3_rpc_pool.Prelude.{
  ℕ, zero, suc, ◌%◌, ◌^◌, ◌≡◌, ◌↔◌, ap, sym, ◌∙◌, false, List, [], ◌∷◌, some, some-eq-some, Result,
  ok, map, get_elem?, All, arith,
}
use drm3_rpc_pool.Config.{RpcPoolConfig}
use drm3_rpc_pool.Health.{BackoffPolicy, EndpointHealth, is_available_at}
use drm3_rpc_pool.Health.History.{replay, InCooldown, is_available_at-eq-false_iff}
use drm3_rpc_pool.Wire.{Bytes, Serde, ResponseError}
use drm3_rpc_pool.Pool.State.{PoolEntry, Sys, new}
use drm3_rpc_pool.Pool.State.Frame.{get_elem?-map}
use drm3_rpc_pool.Pool.State.Fresh.{IsFresh, new-IsFresh}
use drm3_rpc_pool.Pool.Tasks.{World, Reach}
use drm3_rpc_pool.Pool.Tasks.Loads.{pending, Exact, Reach-Exact}
use drm3_rpc_pool.Pool.Tasks.Healths.{filed, ledger_of, Reach-Replays}

module _ (backoff : BackoffPolicy) where
  fresh-Exact :
      (Value : Type 0) (entries : List PoolEntry)
      → All (IsFresh backoff) entries
      → Exact {Value = Value} (map (λ e. e.in_flight) entries) []
  fresh-Exact Value [] all j n at = cc
  fresh-Exact Value (e ∷ es) all zero n at = ground (arith, all.0.idle, some-eq-some at)
  fresh-Exact Value (e ∷ es) all (suc j) n at = fresh-Exact Value es all.1 j n at

  pub fresh-Replays :
      (entries : List PoolEntry)
      → All (IsFresh backoff) entries
      → (j : ℕ) (h : EndpointHealth) → get_elem? (map (λ e. e.health) entries) j ≡ some h
      → h ≡ replay backoff []
  unfolding replay
  fresh-Replays [] all j h at = cc
  fresh-Replays (e ∷ es) all zero h at = sym (some-eq-some at) ∙ all.0.healthy
  fresh-Replays (e ∷ es) all (suc j) h at = fresh-Replays es all.1 j h at

module _ {Value A : Type 0} (serde : Serde Value) (clock : ℕ → ℕ)
    (handle : Bytes → Result A ResponseError) where
  -- From a pool that `new` makes, after any interleaving of calls, replies and cancellations, and for
  -- every entry: the in-flight counter is the number of calls awaiting it, modulo 2^64, and at any
  -- instant it is refused exactly when the reports of the replies that were delivered from it
  -- leave it in its cooldown.
  pub new-Reach :
      (config : RpcPoolConfig) (backoff : BackoffPolicy) (reads : ℕ) {sys : Sys} {w : World Value}
      → new clock config backoff reads ≡ ok sys
      → (r : Reach serde clock handle (record { sys = sys; tasks = [] }) w)
      → (j : ℕ) (entry : PoolEntry) (now : ℕ) → get_elem? w.sys.pool.entries j ≡ some entry
      → (entry.in_flight ≡ pending j w.tasks % 2 ^ 64)
        × ((is_available_at entry.health now ≡ false)
            ↔ InCooldown backoff (filed j (ledger_of serde clock handle r)) now)
  new-Reach config backoff reads {sys} {w} made r j entry now at =
      let (valid, same, sorted, fresh, budget) = new-IsFresh clock backoff config reads made in
      let exact =
        Reach-Exact serde clock handle r (fresh-Exact backoff Value sys.pool.entries fresh) in
      let health_is =
        Reach-Replays serde clock handle backoff r (fresh-Replays backoff sys.pool.entries fresh) j
          entry.health
          (get_elem?-map (λ e. e.health) w.sys.pool.entries j
            ∙ ap (Option.map (λ e. e.health)) at) in
      (
        exact j entry.in_flight (
            get_elem?-map (λ e. e.in_flight) w.sys.pool.entries j
            ∙ ap (Option.map (λ e. e.in_flight)) at),
        rw health_is
            (is_available_at-eq-false_iff backoff (filed j (ledger_of serde clock handle r)) now),
      )
