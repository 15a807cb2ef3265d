-- ===== src/Config/Toml.antt =====
-- The file access of src/config.rs: `from_toml_file` and `to_toml_string`. The TOML reader and
-- writer and the file's text are parameters.
pub mod RoundTrip
pub mod Loading
mod Tests
use drm3_rpc_pool.Prelude.{String, List, [], ◌∷◌, Result, ok, err, ◌>>=◌, concat, map_err}
use drm3_rpc_pool.Error.{RpcError, config}
use drm3_rpc_pool.Config.Types.{RpcPoolConfig}
use drm3_rpc_pool.Config.Env.{Process}
use drm3_rpc_pool.Config.Validate.{from_toml_str}

-- `parse` is `toml::from_str`, and `read` is `std::fs::read_to_string`, each with the text of its
-- error; a path is its text.
unfoldable pub from_toml_file :
    Process
    → (String → Result RpcPoolConfig String)
    → (String → Result String String)
    → String
    → Result RpcPoolConfig RpcError
unfolding from_toml_str
from_toml_file process parse read path = do
  text ← map_err (λ e. config (concat ("cannot read config " ∷ path ∷ ": " ∷ e ∷ []))) (read path)
  from_toml_str process parse text

-- `write` is `toml::to_string_pretty`.
unfoldable pub to_toml_string :
    (RpcPoolConfig → Result String String) → RpcPoolConfig → Result String RpcError
to_toml_string write cfg =
    map_err (λ e. config (concat ("TOML serialize error: " ∷ e ∷ []))) (write cfg)
