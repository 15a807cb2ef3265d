-- ===== src/Wasm/Class.antt =====
-- bindings/wasm/src/lib.rs: the `RpcPool` class and `peersFor`. The conversions between JavaScript
-- and JSON values are serde_wasm_bindgen's, parameters; an error object is its text.
pub mod Peers
mod Tests
use drm3_rpc_pool.Prelude.{
  ℕ, String, Bool, ◌||◌, List, [], ◌∷◌, Option, none, some, Result, ok, err, ◌>>=◌, map_err, concat,
  if◌then◌else◌,
}
use drm3_rpc_pool.Error.{RpcError, to_string}
use drm3_rpc_pool.Config.{RpcEndpoint, RpcPoolConfig, default_config}
use drm3_rpc_pool.Health.{default_policy}
use drm3_rpc_pool.Wire.{Serde}
use drm3_rpc_pool.Presets.{endpoints_for}
use drm3_rpc_pool.Pool.State.{Sys, new}
use drm3_rpc_pool.Pool.Status.{PoolEntryStatus, len, status}
use drm3_rpc_pool.Pool.Dispatch.{Outcome, returned, panicked, Transport, call}

pub record JsConfig (Value : Type 0) : Type 0 where
  pub request_timeout_ms : Option ℕ
  pub max_retries : Option ℕ
  pub endpoints : List Value

-- `from_value` reads JSON values and configurations, and `serialize` writes what the class returns;
-- `endpoint_of` is `serde_json::from_value` at an endpoint.
pub record Bindgen (Js Value : Type 0) : Type 0 where
  pub config_of : Js → Result (JsConfig Value) String
  pub endpoint_of : Value → Result RpcEndpoint String
  pub is_undefined : Js → Bool
  pub is_null : Js → Bool
  pub value_of : Js → Result Value String
  pub empty_array : Value
  pub js_of_value : Value → Result Js String
  pub js_of_status : List PoolEntryStatus → Result Js String
  pub js_of_endpoints : List RpcEndpoint → Result Js String

-- `collect` into a `Result`: the first error ends it.
pub collect {ℓ κ μ} :
    {A : Type ℓ} {B : Type κ} {E : Type μ} → (A → Result B E) → List A → Result (List B) E
collect f [] = ok []
collect f (x ∷ xs) = do y ← f x; ys ← collect f xs; ok (y ∷ ys)

pub retries : Option ℕ → ℕ
retries none = 0
retries (some n) = n

module _ {Js Value : Type 0} (bindgen : Bindgen Js Value) where
  unfoldable pub pool_config : JsConfig Value → List RpcEndpoint → RpcPoolConfig
  unfolding retries
  pool_config parsed endpoints = record default_config {
    request_timeout_ms = parsed.request_timeout_ms;
    max_retries = retries parsed.max_retries;
    endpoints = endpoints;
  }

  -- The constructor.
  unfoldable pub construct : (ℕ → ℕ) → Js → ℕ → Result Sys String
  unfolding collect pool_config new
  construct clock config reads = do
    parsed ← map_err (λ e. concat ("invalid config: " ∷ e ∷ [])) (bindgen.config_of config)
    endpoints ←
        map_err (λ e. concat ("invalid endpoint: " ∷ e ∷ []))
          (collect bindgen.endpoint_of parsed.endpoints)
    map_err to_string (new clock (pool_config parsed endpoints) default_policy reads)

  params_or_empty : Js → Result Value String
  params_or_empty params =
      let read = map_err (λ e. concat ("invalid params: " ∷ e ∷ [])) (bindgen.value_of params) in
      if bindgen.is_undefined params || bindgen.is_null params then ok bindgen.empty_array else read

  -- The result of `call`: the call does not return where the pool panics.
  js_outcome : Outcome Value → Option (Result Js String)
  js_outcome panicked = none
  js_outcome (returned r) = some (do
    v ← map_err to_string r
    map_err (λ e. concat ("result serialize failed: " ∷ e ∷ [])) (bindgen.js_of_value v))

  unfoldable pub call_from_js :
      Serde Value → (ℕ → ℕ) → Transport → String → Js → Sys → Sys × Option (Result Js String)
  unfolding params_or_empty js_outcome
  call_from_js serde clock post method params sys = elim (params_or_empty params) [
    | err e ↦ (sys, some (err e))
    | ok v ↦ let (sys', o) = call serde clock post method v sys in (sys', js_outcome o)
  ]

  pub length_for_js : Sys → ℕ
  length_for_js sys = len sys

  pub status_for_js : (ℕ → ℕ) → Sys → Sys × Result Js String
  status_for_js clock sys =
      let (sys', snapshot) = status clock sys in
      (
        sys',
        map_err (λ e. concat ("status serialize failed: " ∷ e ∷ []))
            (bindgen.js_of_status snapshot),
      )

  -- `unwrap_or_default`.
  endpoints_or_none : Option (List RpcEndpoint) → List RpcEndpoint
  endpoints_or_none none = []
  endpoints_or_none (some endpoints) = endpoints

  unfoldable pub peers_for_js : String → Result Js String
  unfolding endpoints_or_none
  peers_for_js chain =
      map_err (λ e. concat ("peersFor serialize failed: " ∷ e ∷ []))
        (bindgen.js_of_endpoints (endpoints_or_none (endpoints_for chain)))
