-- ===== src/Config/Validate/Tests.antt =====
-- The law of `validate` at two endpoints.
use drm3_rpc_pool.Prelude.{◌≡◌, ◌≢◌, ◌↔◌, [], ◌∷◌, map, All, ok}
use drm3_rpc_pool.Config.Types.{RpcPoolConfig, from_urls}
use drm3_rpc_pool.Config.Validate.{validate}
use drm3_rpc_pool.Config.Validate.Distinct.{IsNamed, Distinct, validate-eq-ok_iff}

abbrev two : RpcPoolConfig
two = from_urls ("https://a" ∷ "https://b" ∷ [])

validate-eq-ok_iff_example :
    (validate two ≡ ok tt)
    ↔ ((two.endpoints ≢ []) × All IsNamed two.endpoints × Distinct (map (λ e. e.url) two.endpoints))
validate-eq-ok_iff_example = validate-eq-ok_iff two
