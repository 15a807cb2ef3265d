-- ===== src/Wasm/Class/Peers.antt =====
-- The documented use of bindings/wasm/src/lib.rs: `new RpcPool({ endpoints: peersFor(chain) })`.
use mathlib.Core.List.{Perm}
use drm3_rpc_pool.Prelude.{ℕ, ◌≡◌, String, List, none, map, Result, ok}
use drm3_rpc_pool.Prelude.Sorting.{IsSorted}
use drm3_rpc_pool.Config.{RpcEndpoint}
use drm3_rpc_pool.Pool.State.{Sys, by_priority}
use drm3_rpc_pool.Wasm.Class.{Bindgen, collect}

module _ {Js Value : Type 0} (bindgen : Bindgen Js Value) (clock : ℕ → ℕ) (reads : ℕ)
    (with_endpoints : Js → Js)
    (reads_back : (es : List RpcEndpoint) (js : Js)
      → bindgen.js_of_endpoints es ≡ ok js
      → (values : List Value) × (bindgen.config_of (with_endpoints js)
          ≡ ok (record { request_timeout_ms = none; max_retries = none; endpoints = values }))
        × (collect bindgen.endpoint_of values ≡ ok es)) where
  -- The pool of a chain: its list, each endpoint once, in ascending priority and with fresh health.
  pub record Serves (es : List RpcEndpoint) (made : Result Sys String) : Type 0 where
    pub sys : Sys
    pub is_made : made ≡ ok sys
    pub same_endpoints : Perm (map (λ e. e.endpoint) sys.pool.entries) es
    pub sorted : IsSorted by_priority (map (λ e. e.endpoint) sys.pool.entries)
    pub unlimited : sys.pool.max_retries ≡ 0
