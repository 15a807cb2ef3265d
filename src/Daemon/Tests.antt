-- ===== src/Daemon/Tests.antt =====
-- The daemon of src/main.rs on a machine with one file, and the theorems there.
use Prim.Native.String.{◌++◌ as str_append}
use drm3_rpc_pool.Prelude.{
  ℕ, ◌≡◌, refl, true, String, List, [], ◌∷◌, none, some, some-eq-some, Result, ok, sym, ap, ◌∙◌,
}
use drm3_rpc_pool.Config.{RpcEndpoint, RpcPoolConfig, from_urls}
use drm3_rpc_pool.Config.Env.{Process, expand_env, split_open, opens, drop_first, resolve_config}
use drm3_rpc_pool.Config.Validate.{validate, is_whitespace, from_toml_str}
use drm3_rpc_pool.Config.Toml.{from_toml_file, to_toml_string}
use drm3_rpc_pool.Presets.{endpoints_for, peers_for, bnb}
use drm3_rpc_pool.Daemon.{json, Network, starter_comments, commented, starter_config, init, serve}
use drm3_rpc_pool.Daemon.Starter.{is_comment, SkipsComments, starter}
use drm3_rpc_pool.Daemon.Serving.{ServesConfig, serve-ServesConfig, serve-init}

abbrev process : Process
process = record { var = λ name. none; debug = λ s. s }

-- Addresses are numbers.
abbrev network : Network ℕ
network = record { parse_addr = λ s. ok 8545; bind = λ addr. ok tt }

abbrev clock : ℕ → ℕ
clock n = n

abbrev one_url : RpcPoolConfig
one_url = from_urls ("https://a" ∷ [])

abbrev parse_one : String → Result RpcPoolConfig String
parse_one text = ok one_url

abbrev read_empty : String → Result String String
read_empty path = ok ""

one_url_loads : from_toml_file process parse_one read_empty "rpc-pool.toml" ≡ ok one_url
unfolding from_toml_file from_toml_str resolve_config expand_env split_open opens drop_first
    validate from_urls
one_url_loads = refl

serve-ServesConfig_example :
    ServesConfig one_url 8545
      (serve process parse_one read_empty network clock "rpc-pool.toml" json 0)
serve-ServesConfig_example =
    serve-ServesConfig process parse_one read_empty network clock "rpc-pool.toml" json 0 one_url
      8545 one_url_loads refl refl

abbrev parse_bnb : String → Result RpcPoolConfig String
parse_bnb text = ok (starter bnb)

abbrev write : RpcPoolConfig → Result String String
write cfg = ok "toml"

abbrev file : String
file = commented (starter_comments "BNB") (str_append "\n" "toml")

abbrev read : String → Result String String
read path = ok file

parse_bnb-SkipsComments : SkipsComments parse_bnb
parse_bnb-SkipsComments = record {
  comments = λ line rest cfg plain parsed. parsed;
  blank = λ rest cfg parsed. parsed;
}

bnb_found : endpoints_for "BNB" ≡ some bnb
unfolding endpoints_for is_whitespace
bnb_found = refl

reads_back :
    (es : List RpcEndpoint) (written : String)
    → endpoints_for "BNB" ≡ some es
    → write (starter es) ≡ ok written
    → parse_bnb written ≡ ok (starter es)
reads_back es written found wrote =
    let same : bnb ≡ es = some-eq-some (sym bnb_found ∙ found) in ap (λ l. ok (starter l)) same

init_prints : init process write "BNB" ≡ ok file
unfolding init starter_config peers_for endpoints_for to_toml_string is_whitespace
init_prints = refl

plain_name : is_comment "BNB" ≡ true
unfolding is_comment
plain_name = refl

serve-init_example :
    (es : List RpcEndpoint) × (endpoints_for "BNB" ≡ some es)
    × ServesConfig (starter es) 8545 (serve process parse_bnb read network clock "pool.toml" json 0)
serve-init_example =
    serve-init process parse_bnb read network clock write "BNB" "pool.toml" file json 0 8545
      parse_bnb-SkipsComments reads_back plain_name init_prints refl refl refl
