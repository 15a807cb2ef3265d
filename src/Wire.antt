-- ===== src/Wire.antt =====
-- src/pool/wire.rs: JSON-RPC bodies. The JSON values and their reader and writer are serde_json's,
-- taken as parameters.
use drm3_rpc_pool.Prelude.{
  ℕ, String, List, [], ◌∷◌, Option, none, some, Result, ok, err, ◌>>=◌, map_err, concat, ◌≡◌, arith,
}
use drm3_rpc_pool.Prelude.Int.{ℤ, signed_decimal}

abbrev pub Bytes : Type 0
Bytes = List ℕ

pub record JsonRpcRequest (Value : Type 0) : Type 0 where
  pub jsonrpc : String
  pub id : ℕ
  pub method : String
  pub params : Value

pub record JsonRpcErrorBody (Value : Type 0) : Type 0 where
  pub code : ℤ
  pub message : String
  pub details : Option Value

pub record JsonRpcResponse (Value : Type 0) : Type 0 where
  pub jsonrpc : Option String
  pub id : Option Value
  pub result : Option Value
  pub error : Option (JsonRpcErrorBody Value)

-- serde_json on the two derived shapes. An error is its message.
pub record Serde (Value : Type 0) : Type 0 where
  pub to_vec : JsonRpcRequest Value → Result Bytes String
  pub from_slice : Bytes → Result (JsonRpcResponse Value) String

pub data ResponseError : Type 0 where
  invalid_json : String → ResponseError
  rpc_error : ℤ → String → ResponseError
  empty_result : ResponseError

-- The `#[error(...)]` attributes.
pub response_error_text : ResponseError → String
response_error_text (invalid_json e) = concat ("invalid json: " ∷ e ∷ [])
response_error_text (rpc_error code message) =
    concat ("rpc error " ∷ signed_decimal code ∷ " " ∷ message ∷ [])
response_error_text empty_result = "no result in response"

-- `UpstreamRpcError` and `RawOutcome`.
pub record UpstreamRpcError (Value : Type 0) : Type 0 where
  pub code : ℤ
  pub message : String
  pub details : Option Value

pub data RawOutcome (Value : Type 0) : Type 0 where
  result : Value → RawOutcome Value
  upstream_error : UpstreamRpcError Value → RawOutcome Value

module _ {Value : Type 0} (serde : Serde Value) where
  unfoldable pub parse_rpc_response : Bytes → Result Value ResponseError
  parse_rpc_response bytes = do
    parsed ← map_err invalid_json (serde.from_slice bytes)
    elim parsed.error [
      | some e ↦ err (rpc_error e.code e.message)
      | none ↦ elim parsed.result [ some v ↦ ok v | none ↦ err empty_result ]
    ]

  unfoldable pub classify_response : Bytes → Result (RawOutcome Value) ResponseError
  classify_response bytes = do
    parsed ← map_err invalid_json (serde.from_slice bytes)
    elim parsed.error [
      | some e ↦
          ok (upstream_error (record { code = e.code; message = e.message; details = e.details }))
      | none ↦ elim parsed.result [ some v ↦ ok (result v) | none ↦ err empty_result ]
    ]

  -- What `parse_rpc_response` makes of an outcome that `classify_response` relays.
  abbrev pub refuse_error : RawOutcome Value → Result Value ResponseError
  refuse_error (result v) = ok v
  refuse_error (upstream_error e) = err (rpc_error e.code e.message)

  -- The two readers agree on every body, but that the one refuses an error envelope which the
  -- other relays with its code and message.
  pub parse-classify :
      (bytes : Bytes) → parse_rpc_response bytes ≡ (classify_response bytes >>= refuse_error)
  unfolding parse_rpc_response classify_response
  parse-classify bytes = ground arith
