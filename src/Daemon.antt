-- ===== src/Daemon.antt =====
-- src/main.rs: the commands of the daemon. An error is its text; what `init` prints is its result, and
-- `serve` is followed until it listens. The command line is clap's, and axum serves the router.
pub mod Starter
pub mod Serving
mod Tests
use Prim.Native.String.{◌++◌ as str_append}
use drm3_rpc_pool.Prelude.{
  ℕ, suc, ◌-◌, ◌^◌, String, List, [], ◌∷◌, map, Option, none, some, Result, ok, err, ◌>>=◌, map_err,
  ltb, if◌then◌else◌, concat, length,
}
use drm3_rpc_pool.Error.{to_string}
use drm3_rpc_pool.Config.{RpcEndpoint, RpcPoolConfig}
use drm3_rpc_pool.Config.Env.{Process}
use drm3_rpc_pool.Config.Toml.{from_toml_file, to_toml_string}
use drm3_rpc_pool.Health.{default_policy}
use drm3_rpc_pool.Presets.{codes, names, peers_for}
use drm3_rpc_pool.Pool.HttpStatus.{parse_unsigned}
use drm3_rpc_pool.Pool.Defaults.{transport_timeout_ms}
use drm3_rpc_pool.Pool.State.{Sys, new}

pub data LogFormat : Type 0 where
  text json : LogFormat

pub data Command : Type 0 where
  init_for : String → Command

pub record Cli : Type 0 where
  pub config : Option String
  pub log_format : LogFormat
  pub command : Option Command

join : String → List String → String
join separator [] = ""
join separator (s ∷ []) = s
join separator (s ∷ t ∷ rest) = concat (s ∷ separator ∷ join separator (t ∷ rest) ∷ [])

pub at_one : RpcEndpoint → RpcEndpoint
at_one endpoint = record endpoint { priority = 1 }

-- The comment at the top of a starter config: what stands after the `#` of each line.
pub starter_comments : String → List String
starter_comments chain =
    str_append " drm3-rpc-pool starter config for `" (str_append chain "`.")
    ∷ " The endpoints below are free public RPCs at equal `priority` (peers):"
    ∷ " the pool spreads load across them and fails over between them. Runs"
    ∷ " as-is, no key required."
    ∷ ""
    ∷ " To prefer your own keyed provider, add it at `priority = 0` (above the"
    ∷ " peers) with an optional `max_in_flight` cap, so bursts spill onto the"
    ∷ " free peers instead of your bill. Keep secrets in the environment via"
    ∷ " ${ENV_VAR} templating:"
    ∷ ""
    ∷ "   [[endpoints]]"
    ∷ str_append "   url = \"https://"
        (str_append chain "-mainnet.g.alchemy.com/v2/${ALCHEMY_KEY}\"")
    ∷ "   priority = 0"
    ∷ "   max_in_flight = 50"
    ∷ "   auth = { type = \"url_key\" }"
    ∷ ""
    ∷ []

-- A text under comment lines.
pub commented : List String → String → String
commented [] rest = rest
commented (line ∷ lines) rest =
    str_append "#" (str_append line (str_append "\n" (commented lines rest)))

module _ (process : Process) (write : RpcPoolConfig → Result String String) where
  -- The starter config of a chain, in which every peer has priority 1.
  starter_config : Option RpcPoolConfig → String → Result RpcPoolConfig String
  unfolding at_one join
  starter_config none chain =
      err (
        concat
          ("unknown chain " ∷ process.debug chain ∷ ". known presets: " ∷ join ", " names ∷ []))
  starter_config (some cfg) chain = ok (record cfg { endpoints = map at_one cfg.endpoints })

  unfoldable pub init : String → Result String String
  unfolding starter_config starter_comments commented
  init chain = do
    cfg ← starter_config (peers_for chain) chain
    body ← map_err to_string (to_toml_string write cfg)
    ok (commented (starter_comments chain) (str_append "\n" body))

-- The server as it listens: its address, the pool and its size, the transport's timeout in
-- milliseconds, and the seconds between two flushes of the rollup, if it is flushed.
pub record Listening (Addr : Type 0) : Type 0 where
  pub addr : Addr
  pub pool : Sys
  pub endpoint_count : ℕ
  pub timeout_ms : ℕ
  pub flush_every_s : Option ℕ
  pub log_format : LogFormat

-- The texts of the errors of `SocketAddr::from_str` and of `TcpListener::bind` are the parameters'.
pub record Network (Addr : Type 0) : Type 0 where
  pub parse_addr : String → Result Addr String
  pub bind : Addr → Result (Unit {0}) String

seconds_or_default : Option ℕ → ℕ
seconds_or_default none = 60
seconds_or_default (some n) = n

module _ {Addr : Type 0} (process : Process) (parse : String → Result RpcPoolConfig String)
    (read : String → Result String String) (network : Network Addr) (clock : ℕ → ℕ) where
  -- ROLLUP_WINDOW_S, of which a text that is no 64-bit number counts as unset.
  window_s : ℕ
  unfolding seconds_or_default
  window_s = seconds_or_default (elim (process.var "ROLLUP_WINDOW_S") [
    | none ↦ none
    | some v ↦ parse_unsigned (2 ^ 64 - 1) (codes v)
  ])

  pub server_of : RpcPoolConfig → Sys → Addr → LogFormat → Listening Addr
  unfolding window_s
  server_of cfg pool addr log_format = record {
    addr = addr;
    pool = pool;
    endpoint_count = length cfg.endpoints;
    timeout_ms = transport_timeout_ms cfg.request_timeout_ms;
    flush_every_s = if ltb 0 window_s then some window_s else none;
    log_format = log_format;
  }

  unfoldable pub serve : String → LogFormat → ℕ → Result (Listening Addr) String
  unfolding server_of
  serve config_path log_format reads = do
    cfg ← map_err to_string (from_toml_file process parse read config_path)
    pool ← map_err to_string (new clock cfg default_policy reads)
    addr ←
        map_err (λ e. concat ("invalid listen address " ∷ process.debug cfg.listen ∷ ": " ∷ e ∷ []))
          (network.parse_addr cfg.listen)
    bound ← network.bind addr
    ok (server_of cfg pool addr log_format)

-- What a run of the daemon comes to: what it prints, or the server.
pub data Ran (Addr : Type 0) : Type 0 where
  printed : String → Ran Addr
  listens : Listening Addr → Ran Addr

path_or_default : Option String → String
path_or_default none = "rpc-pool.toml"
path_or_default (some path) = path

module _ {Addr : Type 0} (process : Process) (parse : String → Result RpcPoolConfig String)
    (write : RpcPoolConfig → Result String String) (read : String → Result String String)
    (network : Network Addr) (clock : ℕ → ℕ) where
  pub run : Cli → ℕ → Result (Ran Addr) String
  unfolding init serve path_or_default
  run cli reads = elim cli.command [
    | some (init_for chain) ↦ do output ← init process write chain; ok (printed output)
    | none ↦ do
      server ←
          serve process parse read network clock (path_or_default cli.config) cli.log_format reads
      ok (listens server)
  ]
