-- ===== src/Config/Validate.antt =====
-- `RpcPoolConfig::validate` of src/config.rs, and `from_toml_str`, with the TOML reader a parameter.
pub mod Distinct
pub mod Reordered
mod Tests
use Prim.Native.Char.{code}
use drm3_rpc_pool.Prelude.{
  ℕ, String, Bool, true, false, ◌&&◌, ◌||◌, List, [], ◌∷◌, Result, ok, err, ◌>>=◌, ◌==◌, leb,
  if◌then◌else◌, concat, str_eq, map_err,
}
use drm3_rpc_pool.Error.{RpcError, config}
use drm3_rpc_pool.Config.Types.{RpcEndpoint, RpcPoolConfig}
use drm3_rpc_pool.Config.Env.{Process, resolve_config}

-- `char::is_whitespace`, the White_Space code points.
unfoldable pub is_whitespace : ℕ → Bool
is_whitespace c =
    (leb 0x9 c && leb c 0xd)
    || c == 0x20
    || c == 0x85
    || c == 0xa0
    || c == 0x1680
    || (leb 0x2000 c && leb c 0x200a)
    || c == 0x2028
    || c == 0x2029
    || c == 0x202f
    || c == 0x205f
    || c == 0x3000

-- `text.trim().is_empty()`.
pub is_blank : String → Bool
unfolding is_whitespace
is_blank String.[] = true
is_blank (String.◌∷◌ c s) = is_whitespace (code c) && is_blank s

pub seen_before : List String → String → Bool
seen_before [] url = false
seen_before (s ∷ seen) url = str_eq s url || seen_before seen url

-- The loop over the endpoints; `seen` is the hash set.
unfoldable pub validate_loop : List String → List RpcEndpoint → Result (Unit {0}) RpcError
unfolding is_blank seen_before
validate_loop seen [] = ok tt
validate_loop seen (endpoint ∷ rest) =
    let later = validate_loop (endpoint.url ∷ seen) rest in
    if is_blank endpoint.url
    then err (config "endpoint URL is empty")
    else if seen_before seen endpoint.url
    then err (config (concat ("duplicate endpoint URL: " ∷ endpoint.url ∷ [])))
    else later

unfoldable pub validate : RpcPoolConfig → Result (Unit {0}) RpcError
unfolding validate_loop
validate cfg = elim cfg.endpoints [
  | [] ↦ err (config "endpoint list is empty")
  | endpoint ∷ rest ↦ validate_loop [] (endpoint ∷ rest)
]

-- `parse` is `toml::from_str`, whose error is its message.
unfoldable pub from_toml_str :
    Process → (String → Result RpcPoolConfig String) → String → Result RpcPoolConfig RpcError
unfolding validate
from_toml_str process parse text = do
  cfg ← map_err (λ e. config (concat ("TOML parse error: " ∷ e ∷ []))) (parse text)
  resolved ← resolve_config process cfg
  checked ← validate resolved
  ok resolved
