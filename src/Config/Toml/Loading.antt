-- ===== src/Config/Toml/Loading.antt =====
-- What a configuration that src/config.rs loads from a file is.
use drm3_rpc_pool.Prelude.{◌≡◌, ◌≢◌, String, List, [], ◌∷◌, Result, ok, map, All}
use drm3_rpc_pool.Config.Types.{Auth, no_auth, url_key, header, bearer, RpcEndpoint, RpcPoolConfig}
use drm3_rpc_pool.Config.Env.{Process}
use drm3_rpc_pool.Config.Env.Templates.{Template, render, IsParsed, fill}
use drm3_rpc_pool.Config.Validate.Distinct.{IsNamed, Distinct}

module _ (process : Process) where
  -- A text is a template, which is filled in from the environment to another.
  abbrev pub Filled : String → String → Type 0
  Filled text filled =
      (t : Template) × (render t ≡ text) × IsParsed t × (fill process text t ≡ ok filled)

  abbrev pub FilledAuth : Auth → Auth → Type 0
  FilledAuth no_auth auth = auth ≡ no_auth
  FilledAuth url_key auth = auth ≡ url_key
  FilledAuth (header name value) auth =
      (n : String) × (v : String) × Filled name n × Filled value v × (auth ≡ header n v)
  FilledAuth (bearer token) auth = (t : String) × Filled token t × (auth ≡ bearer t)

  pub record FilledEndpoint (raw endpoint : RpcEndpoint) : Type 0 where
    pub url : Filled raw.url endpoint.url
    pub auth : FilledAuth raw.auth endpoint.auth
    pub else_same : endpoint ≡ record raw { url = endpoint.url; auth = endpoint.auth }

  abbrev pub FilledEndpoints : List RpcEndpoint → List RpcEndpoint → Type 0
  FilledEndpoints [] [] = Unit
  FilledEndpoints (raw ∷ raws) (endpoint ∷ endpoints) =
      FilledEndpoint raw endpoint × FilledEndpoints raws endpoints
  FilledEndpoints raws endpoints = ⊥

  -- What a loaded configuration is made of.
  pub record Loaded (parse : String → Result RpcPoolConfig String)
      (read : String → Result String String) (path : String) (cfg : RpcPoolConfig) : Type 0 where
    pub text : String
    pub raw : RpcPoolConfig
    pub stored : read path ≡ ok text
    pub parsed : parse text ≡ ok raw
    pub listen : Filled raw.listen cfg.listen
    pub endpoints : FilledEndpoints raw.endpoints cfg.endpoints
    pub else_same : cfg ≡ record raw { listen = cfg.listen; endpoints = cfg.endpoints }
    pub some_endpoint : cfg.endpoints ≢ []
    pub named : All IsNamed cfg.endpoints
    pub distinct : Distinct (map (λ e. e.url) cfg.endpoints)
