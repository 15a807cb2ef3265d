-- ===== src/Daemon/Serving.antt =====
-- When `serve` of src/main.rs listens, and with which pool.
use mathlib.Core.List.{Perm}
use drm3_rpc_pool.Prelude.{
  ℕ, ◌≡◌, refl, String, List, map, true, some, Result, ok, length, All, Ensures-ok,
}
use drm3_rpc_pool.Prelude.Sorting.{IsSorted}
use drm3_rpc_pool.Config.{RpcEndpoint, RpcPoolConfig}
use drm3_rpc_pool.Config.Env.{Process}
use drm3_rpc_pool.Config.Toml.{from_toml_file}
use drm3_rpc_pool.Config.Toml.RoundTrip.{IsValid, from_toml_file-Ensures}
use drm3_rpc_pool.Health.{default_policy}
use drm3_rpc_pool.Pool.State.{by_priority}
use drm3_rpc_pool.Pool.State.Fresh.{IsFresh, new-ok, new-IsFresh}
use drm3_rpc_pool.Pool.Defaults.{transport_timeout_ms}
use drm3_rpc_pool.Presets.{endpoints_for}
use drm3_rpc_pool.Daemon.{LogFormat, Network, Listening, init, server_of, serve}
use drm3_rpc_pool.Daemon.Starter.{is_comment, SkipsComments, starter, init-from_toml_file}

-- A server of a configuration: its endpoints, each once and in ascending priority, with fresh health,
-- and its retry budget and timeout.
pub record ServesConfig {Addr : Type 0} (cfg : RpcPoolConfig) (addr : Addr)
    (made : Result (Listening Addr) String) : Type 0 where
  pub server : Listening Addr
  pub is_made : made ≡ ok server
  pub address : server.addr ≡ addr
  pub same_endpoints : Perm (map (λ e. e.endpoint) server.pool.pool.entries) cfg.endpoints
  pub sorted : IsSorted by_priority (map (λ e. e.endpoint) server.pool.pool.entries)
  pub fresh : All (IsFresh default_policy) server.pool.pool.entries
  pub budget : server.pool.pool.max_retries ≡ cfg.max_retries
  pub size : server.endpoint_count ≡ length cfg.endpoints
  pub timeout : server.timeout_ms ≡ transport_timeout_ms cfg.request_timeout_ms

module _ {Addr : Type 0} (process : Process) (parse : String → Result RpcPoolConfig String)
    (read : String → Result String String) (network : Network Addr) (clock : ℕ → ℕ) where
  -- Where the configuration file loads, its listen address is one and can be bound: the server
  -- listens there, with a pool of the configuration's endpoints.
  pub serve-ServesConfig :
      (path : String) (log_format : LogFormat) (reads : ℕ) (cfg : RpcPoolConfig) (addr : Addr)
      → from_toml_file process parse read path ≡ ok cfg
      → network.parse_addr cfg.listen ≡ ok addr
      → network.bind addr ≡ ok tt
      → ServesConfig cfg addr (serve process parse read network clock path log_format reads)
  unfolding serve server_of
  serve-ServesConfig path log_format reads cfg addr loaded parsed bound =
      let valid =
        Ensures-ok IsValid _ cfg loaded (from_toml_file-Ensures process parse read path) in
      let (sys, made) = new-ok clock default_policy cfg reads valid in
      let (v, same, sorted, fresh, budget) = new-IsFresh clock default_policy cfg reads made in
      record {
        server = server_of process parse read network clock cfg sys addr log_format;
        is_made = rw (loaded, made, parsed, bound) refl;
        address = refl;
        same_endpoints = same;
        sorted = sorted;
        fresh = fresh;
        budget = budget;
        size = refl;
        timeout = refl;
      }

  -- Where the TOML reader skips comments and reads what the writer wrote of the chain's starter config,
  -- the chain's name has no control character, and the default address can be bound: the server
  -- that is given the file that `init` printed listens, with a pool of the chain's list in which
  -- every endpoint has priority 1.
  pub serve-init :
      (write : RpcPoolConfig → Result String String) (chain path printed : String)
      (log_format : LogFormat) (reads : ℕ) (addr : Addr)
      → SkipsComments parse
      → ((es : List RpcEndpoint) (written : String)
          → endpoints_for chain ≡ some es
          → write (starter es) ≡ ok written
          → parse written ≡ ok (starter es))
      → is_comment chain ≡ true
      → init process write chain ≡ ok printed
      → read path ≡ ok printed
      → network.parse_addr "127.0.0.1:8545" ≡ ok addr
      → network.bind addr ≡ ok tt
      → (es : List RpcEndpoint) × (endpoints_for chain ≡ some es)
        × ServesConfig
            (starter es)
            addr
            (serve process parse read network clock path log_format reads)
  serve-init write chain path printed log_format reads addr skips reads_back name made stored parsed
        bound =
      let (es, found, loaded) =
        init-from_toml_file process parse write skips read chain path printed reads_back name made
          stored in
      (es, found, serve-ServesConfig path log_format reads (starter es) addr loaded parsed bound)
