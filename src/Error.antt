-- ===== src/Error.antt =====
-- src/error.rs: the pool's error type and its `Display` texts.
use drm3_rpc_pool.Prelude.{ℕ, String, List, [], ◌∷◌, concat, decimal}
use drm3_rpc_pool.Prelude.Int.{ℤ, signed_decimal}

pub data RpcError : Type 0 where
  no_candidates : String → String → RpcError
  all_failed : String → ℕ → List (String × String) → RpcError
  transport : String → String → RpcError
  json_rpc : String → ℤ → String → RpcError
  malformed : String → String → RpcError
  config : String → RpcError

-- The `#[error(...)]` attributes.
unfoldable pub to_string : RpcError → String
to_string (no_candidates method reason) =
    concat ("no healthy endpoints support method " ∷ method ∷ ": " ∷ reason ∷ [])
to_string (all_failed method count attempts) =
    concat ("all " ∷ decimal count ∷ " RPC endpoints failed for " ∷ method ∷ [])
to_string (transport endpoint message) =
    concat ("transport error for " ∷ endpoint ∷ ": " ∷ message ∷ [])
to_string (json_rpc endpoint code message) =
    concat ("rpc error from " ∷ endpoint ∷ ": " ∷ signed_decimal code ∷ " " ∷ message ∷ [])
to_string (malformed endpoint message) =
    concat ("malformed response from " ∷ endpoint ∷ ": " ∷ message ∷ [])
to_string (config message) = concat ("invalid configuration: " ∷ message ∷ [])
