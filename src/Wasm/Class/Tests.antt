-- ===== src/Wasm/Class/Tests.antt =====
-- The class of bindings/wasm/src/lib.rs where the JavaScript objects are lists of endpoints.
use drm3_rpc_pool.Prelude.{ℕ, List, [], ◌∷◌, none, false, ok, err}
use drm3_rpc_pool.Config.{RpcEndpoint, new_endpoint}
use drm3_rpc_pool.Wasm.Class.{Bindgen}

abbrev bindgen : Bindgen (List RpcEndpoint) RpcEndpoint
bindgen = record {
  config_of = λ js. ok (record { request_timeout_ms = none; max_retries = none; endpoints = js });
  endpoint_of = λ v. ok v;
  is_undefined = λ js. false;
  is_null = λ js. false;
  value_of = λ js. err "no value";
  empty_array = new_endpoint "";
  js_of_value = λ v. ok (v ∷ []);
  js_of_status = λ views. ok [];
  js_of_endpoints = λ es. ok es;
}

abbrev with_endpoints : List RpcEndpoint → List RpcEndpoint
with_endpoints js = js

abbrev clock : ℕ → ℕ
clock n = n
