-- ===== src/Metrics.antt =====
-- src/metrics.rs: the hooks that the pool fires. A sink is described by the calls that it receives.
pub mod Sinks
use drm3_rpc_pool.Prelude.{ℕ, String}

-- The methods of the trait `Metrics`, as the recording sink keeps them: a latency is in nanoseconds.
pub data Event : Type 0 where
  on_request : String → String → Event
  on_success : String → String → ℕ → Event
  on_failure : String → String → ℕ → String → Event
  on_skipped_incapable : String → String → Event
  on_skipped_cooldown : String → String → Event
