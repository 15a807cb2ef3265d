-- ===== src/Config/Env.antt =====
-- `expand_env` of src/config.rs and the `resolve_env` methods that apply it. The process
-- environment and the `{:?}` form of a text are parameters.
pub mod Templates
pub mod Parsing
mod Tests
use Prim.Native.Char.{code}
use Prim.Native.String.{◌++◌ as str_append}
use mathlib.Core.Option
use drm3_rpc_pool.Prelude.{
  ℕ, zero, suc, String, Bool, false, ◌&&◌, List, [], ◌∷◌, Option, none, some, Result, ok, err,
  ◌>>=◌, ◌==◌, if◌then◌else◌, concat,
}
use drm3_rpc_pool.Error.{RpcError, config}
use drm3_rpc_pool.Config.Types.{Auth, no_auth, url_key, header, bearer, RpcEndpoint, RpcPoolConfig}

pub record Process : Type 0 where
  pub var : String → Option String
  pub debug : String → String

abbrev pub chars : String → ℕ
chars String.[] = 0
chars (String.◌∷◌ c s) = suc (chars s)

unfoldable pub opens : String → Bool
opens String.[] = false
opens (String.◌∷◌ c s) = code c == b'{'

unfoldable pub drop_first : String → String
drop_first String.[] = ""
drop_first (String.◌∷◌ c s) = s

-- `rest.find("${")`, with the texts before and after the two characters.
unfoldable pub split_open : String → Option (String × String)
unfolding opens drop_first
split_open String.[] = none
split_open (String.◌∷◌ c s) =
    if code c == b'$' && opens s
    then some ("", drop_first s)
    else Option.map (λ p. (String.◌∷◌ c p.0, p.1)) (split_open s)

-- `after.find('}')`, likewise.
unfoldable pub split_close : String → Option (String × String)
split_close String.[] = none
split_close (String.◌∷◌ c s) =
    if code c == b'}'
    then some ("", s)
    else Option.map (λ p. (String.◌∷◌ c p.0, p.1)) (split_close s)

module _ (process : Process) where
  abbrev pub unterminated : String → RpcError
  unterminated input =
      config (concat ("unterminated ${...} in config value: " ∷ process.debug input ∷ []))

  abbrev pub unset : String → RpcError
  unset name =
      config (concat ("environment variable " ∷ name ∷ " referenced in config is unset" ∷ []))

  -- The rounds of the loop are bounded by the characters that are left.
  unfoldable pub expand_loop : ℕ → String → String → String → Result String RpcError
  expand_loop zero input out rest = ok (str_append out rest)
  expand_loop (suc fuel) input out rest = elim (split_open rest) [
    | none ↦ ok (str_append out rest)
    | some (before, after) ↦ elim (split_close after) [
      | none ↦ err (unterminated input)
      | some (name, tail) ↦ elim (process.var name) [
        | none ↦ err (unset name)
        | some value ↦ expand_loop fuel input (str_append (str_append out before) value) tail
      ]
    ]
  ]

  unfoldable pub expand_env : String → Result String RpcError
  unfolding expand_loop split_open split_close
  expand_env input = expand_loop (suc (chars input)) input "" input

  unfoldable pub resolve_auth : Auth → Result Auth RpcError
  resolve_auth no_auth = ok no_auth
  resolve_auth url_key = ok url_key
  resolve_auth (header name value) = do
    name' ← expand_env name
    value' ← expand_env value
    ok (header name' value')
  resolve_auth (bearer token) = do token' ← expand_env token; ok (bearer token')

  unfoldable pub resolve_endpoint : RpcEndpoint → Result RpcEndpoint RpcError
  unfolding resolve_auth
  resolve_endpoint endpoint = do
    url ← expand_env endpoint.url
    auth ← resolve_auth endpoint.auth
    ok (record endpoint { url = url; auth = auth })

  unfoldable pub resolve_endpoints : List RpcEndpoint → Result (List RpcEndpoint) RpcError
  unfolding resolve_endpoint
  resolve_endpoints [] = ok []
  resolve_endpoints (endpoint ∷ rest) = do
    endpoint' ← resolve_endpoint endpoint
    rest' ← resolve_endpoints rest
    ok (endpoint' ∷ rest')

  unfoldable pub resolve_config : RpcPoolConfig → Result RpcPoolConfig RpcError
  unfolding resolve_endpoints
  resolve_config cfg = do
    listen ← expand_env cfg.listen
    endpoints ← resolve_endpoints cfg.endpoints
    ok (record cfg { listen = listen; endpoints = endpoints })
