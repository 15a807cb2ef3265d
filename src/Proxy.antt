-- ===== src/Proxy.antt =====
-- src/proxy.rs: the JSON-RPC entry point and the health endpoint. JSON values are serde_json's, by
-- the operations that the handlers use; the router and the extraction of the body are axum's.
pub mod Envelope
pub mod Liveness
pub mod Readiness
mod Tests
use mathlib.Core.Option
use drm3_rpc_pool.Prelude.{
  ℕ, suc, ◌+◌, String, Bool, true, false, List, [], ◌∷◌, ◌++◌, Option, none, some, Result, ok, err,
  ◌==◌, ltb, if◌then◌else◌, length, concat,
}
use drm3_rpc_pool.Prelude.Int.{ℤ, pos, negsuc}
use drm3_rpc_pool.Error.{RpcError, no_candidates, all_failed, to_string}
use drm3_rpc_pool.Wire.{Serde}
use drm3_rpc_pool.Pool.State.{Sys}
use drm3_rpc_pool.Pool.Status.{PoolEntryStatus, status}
use drm3_rpc_pool.Pool.Dispatch.{
  Outcome, returned, panicked, Transport, ForwardResult, answer, relayed, forward,
}

-- `Value::get` at a key, `as_str`, the match with `Value::Array`, and the values that `json!` builds.
pub record Json (Value : Type 0) : Type 0 where
  pub get : Value → String → Option Value
  pub as_str : Value → Option String
  pub as_array : Value → Option (List Value)
  pub null : Value
  pub text : String → Value
  pub number : ℤ → Value
  pub array : List Value → Value
  pub object : List (String × Value) → Value

pub unwrap_or {ℓ} : {A : Type ℓ} → Option A → A → A
unwrap_or none a = a
unwrap_or (some x) a = x

module _ {Value : Type 0} (json : Json Value) where
  -- `error["data"] = d` on a fresh object adds a last field.
  data_field : Option Value → List (String × Value)
  data_field none = []
  data_field (some d) = ("data", d) ∷ []

  pub rpc_error : Value → ℤ → String → Option Value → Value
  unfolding data_field
  rpc_error id code message details =
      let error =
        json.object
          (("code", json.number code) ∷ ("message", json.text message) ∷ data_field details) in
      json.object (("jsonrpc", json.text "2.0") ∷ ("id", id) ∷ ("error", error) ∷ [])

  pub pool_error_code : RpcError → ℤ × String
  pool_error_code (no_candidates method reason) = (
    negsuc 32010,
    concat ("no healthy endpoints: " ∷ to_string (no_candidates method reason) ∷ []),
  )
  pool_error_code (all_failed method count attempts) = (
    negsuc 32009,
    concat ("all upstreams failed: " ∷ to_string (all_failed method count attempts) ∷ []),
  )
  pool_error_code other = (negsuc 32602, concat ("proxy error: " ∷ to_string other ∷ []))

  pub map_pool_error : Value → RpcError → Value
  unfolding pool_error_code rpc_error
  map_pool_error id e = let (code, message) = pool_error_code e in rpc_error id code message none

  pub id_of : Value → Value
  id_of req = unwrap_or (json.get req "id") json.null

  -- `req.get("method").and_then(Value::as_str)`.
  pub method_of : Value → Option String
  method_of req = elim (json.get req "method") [ none ↦ none | some m ↦ json.as_str m ]

  pub params_of : Value → Value
  params_of req = unwrap_or (json.get req "params") (json.array [])

  pub envelope : Value → Result (ForwardResult Value) RpcError → Value
  unfolding rpc_error map_pool_error
  envelope id (ok (answer v)) =
      json.object (("jsonrpc", json.text "2.0") ∷ ("id", id) ∷ ("result", v) ∷ [])
  envelope id (ok (relayed code message details)) = rpc_error id code message details
  envelope id (err e) = map_pool_error id e

  -- What the handler makes of the outcome of `forward`: nothing where that panics.
  pub respond : Value → Outcome (ForwardResult Value) → Option Value
  unfolding envelope
  respond id panicked = none
  respond id (returned r) = some (envelope id r)

  module _ (serde : Serde Value) (clock : ℕ → ℕ) (post : Transport) where
    pub handle_one : Value → Sys → Sys × Option Value
    unfolding id_of method_of params_of rpc_error respond unwrap_or
    handle_one req sys = elim (method_of req) [
      | none ↦
          (sys, some (rpc_error (id_of req) (negsuc 32599) "Invalid Request: missing method" none))
      | some m ↦
          let (sys', outcome) = forward serde clock post m (params_of req) sys in
          (sys', respond (id_of req) outcome)
    ]

    -- The loop over a batch, which a panic ends.
    pub handle_batch : List Value → List Value → Sys → Sys × Option (List Value)
    unfolding handle_one
    handle_batch out [] sys = (sys, some out)
    handle_batch out (item ∷ items) sys =
        let (sys', reply) = handle_one item sys in
        elim reply [ none ↦ (sys', none) | some v ↦ handle_batch (out ++ v ∷ []) items sys' ]

    -- The status code and the body.
    pub rpc_handler : Value → Sys → Sys × Option (ℕ × Value)
    unfolding handle_batch handle_one
    rpc_handler payload sys = elim (json.as_array payload) [
      | some items ↦
          let (sys', replies) = handle_batch [] items sys in
          (sys', Option.map (λ out. (200, json.array out)) replies)
      | none ↦
          let (sys', reply) = handle_one payload sys in (sys', Option.map (λ v. (200, v)) reply)
    ]

  unfoldable pub healthy : List PoolEntryStatus → ℕ
  healthy [] = 0
  healthy (s ∷ rest) =
      let more = healthy rest in if s.health.consecutive_failures == 0 then suc more else more

  unfoldable pub health_handler : (ℕ → ℕ) → Sys → Sys × (ℕ × Value)
  unfolding healthy
  health_handler clock sys =
      let (sys', views) = status clock sys in
      let total = length views in
      let body = json.object (
        ("status", json.text (if ltb 0 total then "ok" else "empty"))
        ∷ ("endpoints_total", json.number (pos total))
        ∷ ("endpoints_healthy", json.number (pos (healthy views)))
        ∷ []) in
      (sys', ((if ltb 0 total then 200 else 503), body))

  -- `json!` of the status: `status_value` is serde's.
  unfoldable pub metrics_handler :
      (List PoolEntryStatus → Value) → (ℕ → ℕ) → Sys → Sys × (ℕ × Value)
  metrics_handler status_value clock sys =
      let (sys', views) = status clock sys in
      (sys', (200, json.object (("endpoints", status_value views) ∷ [])))
