-- ===== src/Presets.antt =====
-- src/presets.rs: the endpoint lists of common chains and the lookups by name. A name is compared as
-- the codes of its characters, trimmed and in lower case.
pub mod Validity
mod Tests
use Prim.Native.Char.{code}
use mathlib.Core.Option
use drm3_rpc_pool.Prelude.{
  ℕ, suc, ◌+◌, ◌%◌, ◌^◌, String, Bool, true, false, ◌&&◌, ◌||◌, List, [], ◌∷◌, map, Option, none,
  some, ◌==◌, leb, if◌then◌else◌,
}
use drm3_rpc_pool.Config.{RpcEndpoint, new_endpoint, RpcPoolConfig, default_config}
use drm3_rpc_pool.Config.Validate.{is_whitespace}

unfoldable pub codes : String → List ℕ
codes String.[] = []
codes (String.◌∷◌ c s) = code c ∷ codes s

trim_start : List ℕ → List ℕ
trim_start [] = []
trim_start (c ∷ cs) = let rest = trim_start cs in if is_whitespace c then rest else c ∷ cs

-- What is left of a character and the trimmed text after it.
keep_unless_blank : ℕ → List ℕ → List ℕ
keep_unless_blank c [] = if is_whitespace c then [] else c ∷ []
keep_unless_blank c (d ∷ rest) = c ∷ d ∷ rest

trim_end : List ℕ → List ℕ
unfolding keep_unless_blank
trim_end [] = []
trim_end (c ∷ cs) = keep_unless_blank c (trim_end cs)

to_ascii_lowercase : ℕ → ℕ
to_ascii_lowercase c = if leb b'A' c && leb c b'Z' then c + 32 else c

codes_eq : List ℕ → List ℕ → Bool
codes_eq [] [] = true
codes_eq (c ∷ cs) (d ∷ ds) = c == d && codes_eq cs ds
codes_eq _ _ = false

-- The match of a trimmed name in lower case with a literal.
pub matches : String → String → Bool
unfolding codes trim_start trim_end to_ascii_lowercase codes_eq
matches name literal =
    codes_eq (map to_ascii_lowercase (trim_end (trim_start (codes name)))) (codes literal)

list_from : ℕ → List (String × String) → List RpcEndpoint
list_from i [] = []
list_from i ((label, url) ∷ rest) =
    record (new_endpoint url) { label = some label; priority = i % 2 ^ 32 } ∷ list_from (suc i) rest

list : List (String × String) → List RpcEndpoint
unfolding list_from
list labeled = list_from 0 labeled

pub base : List RpcEndpoint
unfolding list
base = list (
    ("base-official", "https://mainnet.base.org")
    ∷ ("base-publicnode", "https://base-rpc.publicnode.com")
    ∷ ("base-1rpc", "https://1rpc.io/base")
    ∷ ("base-llamarpc", "https://base.llamarpc.com")
    ∷ ("base-drpc", "https://base.drpc.org")
    ∷ ("base-tenderly", "https://base.gateway.tenderly.co")
    ∷ ("base-meowrpc", "https://base.meowrpc.com")
    ∷ ("base-blastapi", "https://base-mainnet.public.blastapi.io")
    ∷ ("base-blockpi", "https://base.blockpi.network/v1/rpc/public")
    ∷ ("base-omniatech", "https://endpoints.omniatech.io/v1/base/mainnet/public")
    ∷ ("base-nodies", "https://base-pokt.nodies.app")
    ∷ [])

pub ethereum : List RpcEndpoint
unfolding list
ethereum = list (
    ("eth-llamarpc", "https://eth.llamarpc.com")
    ∷ ("eth-publicnode", "https://ethereum-rpc.publicnode.com")
    ∷ ("eth-cloudflare", "https://cloudflare-eth.com")
    ∷ ("eth-blockpi", "https://ethereum.blockpi.network/v1/rpc/public")
    ∷ ("eth-1rpc", "https://1rpc.io/eth")
    ∷ [])

pub arbitrum : List RpcEndpoint
unfolding list
arbitrum = list (
    ("arb-official", "https://arb1.arbitrum.io/rpc")
    ∷ ("arb-llamarpc", "https://arbitrum.llamarpc.com")
    ∷ ("arb-publicnode", "https://arbitrum-one-rpc.publicnode.com")
    ∷ ("arb-1rpc", "https://1rpc.io/arb")
    ∷ [])

pub optimism : List RpcEndpoint
unfolding list
optimism = list (
    ("op-official", "https://mainnet.optimism.io")
    ∷ ("op-llamarpc", "https://optimism.llamarpc.com")
    ∷ ("op-publicnode", "https://optimism-rpc.publicnode.com")
    ∷ ("op-1rpc", "https://1rpc.io/op")
    ∷ [])

pub polygon : List RpcEndpoint
unfolding list
polygon = list (
    ("polygon-official", "https://polygon-rpc.com")
    ∷ ("polygon-llamarpc", "https://polygon.llamarpc.com")
    ∷ ("polygon-publicnode", "https://polygon-bor-rpc.publicnode.com")
    ∷ ("polygon-1rpc", "https://1rpc.io/matic")
    ∷ [])

unfoldable pub bnb : List RpcEndpoint
unfolding list
bnb = list (
    ("bnb-official", "https://bsc-dataseed.bnbchain.org")
    ∷ ("bnb-publicnode", "https://bsc-rpc.publicnode.com")
    ∷ ("bnb-llamarpc", "https://binance.llamarpc.com")
    ∷ ("bnb-1rpc", "https://1rpc.io/bnb")
    ∷ [])

abbrev pub names : List String
names = "base" ∷ "ethereum" ∷ "arbitrum" ∷ "optimism" ∷ "polygon" ∷ "bnb" ∷ []

unfoldable pub endpoints_for : String → Option (List RpcEndpoint)
unfolding matches
endpoints_for name =
    if matches name "base"
    then some base
    else if matches name "ethereum" || matches name "eth" || matches name "mainnet"
    then some ethereum
    else if matches name "arbitrum" || matches name "arb"
    then some arbitrum
    else if matches name "optimism" || matches name "op"
    then some optimism
    else if matches name "polygon" || matches name "matic"
    then some polygon
    else if matches name "bnb" || matches name "bsc"
    then some bnb
    else none

unfoldable pub config_for : String → Option RpcPoolConfig
unfolding endpoints_for
config_for name =
    Option.map (λ endpoints. record default_config { endpoints = endpoints }) (endpoints_for name)

unfoldable pub at_front : RpcEndpoint → RpcEndpoint
at_front endpoint = record endpoint { priority = 0 }

unfoldable pub peers_for : String → Option RpcPoolConfig
unfolding endpoints_for at_front
peers_for name =
    Option.map (λ endpoints. record default_config { endpoints = map at_front endpoints })
      (endpoints_for name)
