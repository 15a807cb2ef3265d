-- ===== src/Pool/Defaults.antt =====
-- The constructors of src/pool/mod.rs that choose a transport: `with_default_transport` and
-- `from_config`. Of the transport they fix the timeout, in milliseconds.
use drm3_rpc_pool.Prelude.{ℕ, Option, none, some, Result, ok, err, ◌>>=◌}
use drm3_rpc_pool.Error.{RpcError}
use drm3_rpc_pool.Config.{RpcPoolConfig}
use drm3_rpc_pool.Health.{default_policy}
use drm3_rpc_pool.Pool.State.{Sys, new}

-- `ReqwestTransport::new` has 15 seconds.
abbrev pub default_timeout_ms : ℕ
default_timeout_ms = 15000

pub transport_timeout_ms : Option ℕ → ℕ
transport_timeout_ms none = default_timeout_ms
transport_timeout_ms (some ms) = ms

module _ (clock : ℕ → ℕ) where
  -- Nothing where it panics, on an invalid configuration.
  unfoldable pub with_default_transport : RpcPoolConfig → ℕ → Option (Sys × ℕ)
  unfolding new
  with_default_transport config reads = elim (new clock config default_policy reads) [
    | ok sys ↦ some (sys, default_timeout_ms)
    | err e ↦ none
  ]

  unfoldable pub from_config : RpcPoolConfig → ℕ → Result (Sys × ℕ) RpcError
  unfolding new transport_timeout_ms
  from_config config reads = do
    sys ← new clock config default_policy reads
    ok (sys, transport_timeout_ms config.request_timeout_ms)
