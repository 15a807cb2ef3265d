-- ===== src/Config/Env/Tests.antt =====
-- `expand_env` at a text with one placeholder, and the theorem at a text with two.
use drm3_rpc_pool.Prelude.{◌≡◌, refl, some, none, ok, if◌then◌else◌, str_eq}
use drm3_rpc_pool.Config.Env.{Process, expand_env}
use drm3_rpc_pool.Config.Env.Templates.{Template, render, IsParsed, fill}
use drm3_rpc_pool.Config.Env.Parsing.{expand_env-fill}

abbrev process : Process
process = record {
  var = λ name. if str_eq name "HOST" then some "node" else none;
  debug = λ text. text;
}

expands : expand_env process "https://${HOST}/" ≡ ok "https://node/"
unfolding expand_env
expands = refl

expand_env-fill_example :
    (t : Template) × (render t ≡ "https://${HOST}/$${KEY}?x={}")
    × IsParsed t
    × (expand_env process "https://${HOST}/$${KEY}?x={}"
        ≡ fill process "https://${HOST}/$${KEY}?x={}" t)
expand_env-fill_example = expand_env-fill process "https://${HOST}/$${KEY}?x={}"
