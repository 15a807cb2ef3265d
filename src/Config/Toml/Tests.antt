-- ===== src/Config/Toml/Tests.antt =====
-- A configuration that is loaded from a file.
use drm3_rpc_pool.Prelude.{String, [], ◌∷◌, none, some, Result, ok, err, str_eq, if◌then◌else◌}
use drm3_rpc_pool.Config.Types.{RpcPoolConfig, from_urls}
use drm3_rpc_pool.Config.Env.{Process}

abbrev two : RpcPoolConfig
two = from_urls ("https://a" ∷ "https://b" ∷ [])

-- The same, with a placeholder for its listen address.
abbrev raw_two : RpcPoolConfig
raw_two = record two { listen = "${LISTEN}" }

abbrev process : Process
process = record {
  var = λ name. if str_eq name "LISTEN" then some "127.0.0.1:8545" else none;
  debug = λ s. s;
}

abbrev parse : String → Result RpcPoolConfig String
parse text = if str_eq text "saved" then ok raw_two else err "unknown"

abbrev read : String → Result String String
read path = if str_eq path "pool.toml" then ok "saved" else err "not found"
