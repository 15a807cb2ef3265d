-- ===== src/Config/Toml/RoundTrip.antt =====
-- What is saved is loaded: the files of src/config.rs.
use text.Mathlib.TextLemmas.{nil-append}
use drm3_rpc_pool.Prelude.{
  ◌≡◌, refl, ap, String, List, [], ◌∷◌, none, Result, ok, All, Ensures, Result-cases, inl, inr,
}
use drm3_rpc_pool.Config.Types.{Auth, no_auth, url_key, header, bearer, RpcEndpoint, RpcPoolConfig}
use drm3_rpc_pool.Config.Env.{
  Process, split_open, expand_loop, expand_env, resolve_auth, resolve_endpoint, resolve_endpoints,
  resolve_config,
}
use drm3_rpc_pool.Config.Validate.{validate, from_toml_str}
use drm3_rpc_pool.Config.Toml.{from_toml_file}

-- A text with no placeholder.
abbrev pub IsPlain : String → Type 0
IsPlain s = split_open s ≡ none

abbrev pub IsPlainAuth : Auth → Type 0
IsPlainAuth no_auth = Unit {0}
IsPlainAuth url_key = Unit {0}
IsPlainAuth (header name value) = IsPlain name × IsPlain value
IsPlainAuth (bearer token) = IsPlain token

abbrev pub IsPlainEndpoint : RpcEndpoint → Type 0
IsPlainEndpoint endpoint = IsPlain endpoint.url × IsPlainAuth endpoint.auth

abbrev pub IsPlainConfig : RpcPoolConfig → Type 0
IsPlainConfig cfg = IsPlain cfg.listen × All IsPlainEndpoint cfg.endpoints

abbrev pub IsValid : RpcPoolConfig → Type 0
IsValid cfg = validate cfg ≡ ok tt

module _ (process : Process) where
  expand_env-plain : (s : String) → IsPlain s → expand_env process s ≡ ok s
  unfolding expand_env expand_loop
  expand_env-plain s plain = rw (expand_env, expand_loop, plain) (ap ok (nil-append s))

  resolve_auth-plain : (auth : Auth) → IsPlainAuth auth → resolve_auth process auth ≡ ok auth
  unfolding resolve_auth
  resolve_auth-plain no_auth plain = refl
  resolve_auth-plain url_key plain = refl
  resolve_auth-plain (header name value) (p, q) =
      rw (expand_env-plain name p, expand_env-plain value q) refl
  resolve_auth-plain (bearer token) p = rw (expand_env-plain token p) refl

  resolve_endpoints-plain :
      (endpoints : List RpcEndpoint)
      → All IsPlainEndpoint endpoints
      → resolve_endpoints process endpoints ≡ ok endpoints
  unfolding resolve_endpoints resolve_endpoint
  resolve_endpoints-plain [] all = refl
  resolve_endpoints-plain (endpoint ∷ rest) ((p, q), all) =
      rw
        (
          expand_env-plain endpoint.url p,
          resolve_auth-plain endpoint.auth q,
          resolve_endpoints-plain rest all,
        )
        refl

  resolve_config-plain :
      (cfg : RpcPoolConfig) → IsPlainConfig cfg → resolve_config process cfg ≡ ok cfg
  unfolding resolve_config
  resolve_config-plain cfg (p, all) =
      rw (expand_env-plain cfg.listen p, resolve_endpoints-plain cfg.endpoints all) refl

  pub from_toml_file-plain :
      (parse : String → Result RpcPoolConfig String) (read : String → Result String String)
      (cfg : RpcPoolConfig) (path text : String)
      → read path ≡ ok text
      → parse text ≡ ok cfg
      → IsPlainConfig cfg
      → validate cfg ≡ ok tt
      → from_toml_file process parse read path ≡ ok cfg
  unfolding from_toml_file from_toml_str
  from_toml_file-plain parse read cfg path text stored parsed plain valid =
      rw (stored, parsed, resolve_config-plain cfg plain, valid) refl

  from_toml_str-Ensures :
      (parse : String → Result RpcPoolConfig String) (text : String)
      → Ensures IsValid (from_toml_str process parse text)
  unfolding from_toml_str
  from_toml_str-Ensures parse text = elim (Result-cases (parse text)) [
    | inr (e, bad) ↦ rw (bad, from_toml_str) tt
    | inl (cfg, parsed) ↦ elim (Result-cases (resolve_config process cfg)) [
      | inr (e, bad) ↦ rw (parsed, from_toml_str, bad) tt
      | inl (resolved, is) ↦ elim (Result-cases (validate resolved)) [
        | inr (e, bad) ↦ rw (parsed, from_toml_str, is, bad) tt
        | inl (checked, valid) ↦ rw (parsed, from_toml_str, is, valid) valid
      ]
    ]
  ]

  -- What is loaded has passed the validation.
  pub from_toml_file-Ensures :
      (parse : String → Result RpcPoolConfig String) (read : String → Result String String)
      (path : String)
      → Ensures IsValid (from_toml_file process parse read path)
  unfolding from_toml_file
  from_toml_file-Ensures parse read path = elim (Result-cases (read path)) [
    | inr (e, bad) ↦ rw (bad, from_toml_file) tt
    | inl (text, stored) ↦ rw (stored, from_toml_file) (from_toml_str-Ensures parse text)
  ]
