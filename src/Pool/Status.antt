-- ===== src/Pool/Status.antt =====
-- The read-only views of src/pool/mod.rs: `len`, `is_empty`, `endpoints` and `status`.
use drm3_rpc_pool.Prelude.{ℕ, suc, Bool, List, [], ◌∷◌, map, Option, none, some, length, ◌==◌}
use drm3_rpc_pool.Config.{RpcEndpoint}
use drm3_rpc_pool.Health.{EndpointStatus, snapshot}
use drm3_rpc_pool.Pool.State.{PoolEntry, Sys}

pub record PoolEntryStatus : Type 0 where
  pub endpoint : RpcEndpoint
  pub health : EndpointStatus

pub len : Sys → ℕ
len sys = length sys.pool.entries

pub is_empty : Sys → Bool
is_empty sys = length sys.pool.entries == 0

pub endpoints : Sys → List RpcEndpoint
endpoints sys = map (λ e. e.endpoint) sys.pool.entries

module _ (clock : ℕ → ℕ) where
  -- `elapsed` reads the clock, where there is an instant to compare with.
  pub elapsed_read : Option ℕ → ℕ → ℕ × ℕ
  elapsed_read none reads = (reads, 0)
  elapsed_read (some t) reads = (suc reads, clock reads)

  unfoldable pub statuses : List PoolEntry → ℕ → ℕ × List PoolEntryStatus
  unfolding elapsed_read
  statuses [] reads = (reads, [])
  statuses (entry ∷ rest) reads =
      let (reads', success_read) = elapsed_read entry.health.inner.last_success_at reads in
      let (reads'', failure_read) = elapsed_read entry.health.inner.last_failure_at reads' in
      let (last, later) = statuses rest reads'' in
      (
        last,
        record {
          endpoint = entry.endpoint;
          health = snapshot entry.health success_read failure_read;
        }
            ∷ later,
      )

  unfoldable pub status : Sys → Sys × List PoolEntryStatus
  unfolding statuses
  status sys =
      let (reads, views) = statuses sys.pool.entries sys.reads in
      (record sys { reads = reads }, views)
