-- ===== src/Config/Types.antt =====
-- src/config.rs: the configuration's data types, their constructors and accessors.
use drm3_rpc_pool.Prelude.{
  ℕ, suc, ◌%◌, ◌^◌, String, Bool, true, false, ◌||◌, List, [], ◌∷◌, Option, none, some, str_eq,
  concat, if◌then◌else◌,
}

pub data Auth : Type 0 where
  no_auth : Auth
  url_key : Auth
  header : String → String → Auth
  bearer : String → Auth

-- The request headers that a mode of authentication contributes.
unfoldable pub headers : Auth → List (String × String)
headers no_auth = []
headers url_key = []
headers (header name value) = (name, value) ∷ []
headers (bearer token) = ("Authorization", concat ("Bearer " ∷ token ∷ [])) ∷ []

pub data RpcCapability : Type 0 where
  eth_call eth_get_logs eth_block_number eth_chain_id eth_get_balance : RpcCapability
  eth_get_transaction_receipt eth_get_transaction_count : RpcCapability
  eth_send_raw_transaction eth_estimate_gas eth_gas_price subscribe : RpcCapability
  other : String → RpcCapability

-- The derived `PartialEq`.
unfoldable pub capability_eq : RpcCapability → RpcCapability → Bool
capability_eq eth_call eth_call = true
capability_eq eth_get_logs eth_get_logs = true
capability_eq eth_block_number eth_block_number = true
capability_eq eth_chain_id eth_chain_id = true
capability_eq eth_get_balance eth_get_balance = true
capability_eq eth_get_transaction_receipt eth_get_transaction_receipt = true
capability_eq eth_get_transaction_count eth_get_transaction_count = true
capability_eq eth_send_raw_transaction eth_send_raw_transaction = true
capability_eq eth_estimate_gas eth_estimate_gas = true
capability_eq eth_gas_price eth_gas_price = true
capability_eq subscribe subscribe = true
capability_eq (other a) (other b) = str_eq a b
capability_eq _ _ = false

unfoldable pub for_method : String → RpcCapability
for_method method =
    if str_eq method "eth_call"
    then eth_call
    else if str_eq method "eth_getLogs"
    then eth_get_logs
    else if str_eq method "eth_blockNumber"
    then eth_block_number
    else if str_eq method "eth_chainId"
    then eth_chain_id
    else if str_eq method "eth_getBalance"
    then eth_get_balance
    else if str_eq method "eth_getTransactionReceipt"
    then eth_get_transaction_receipt
    else if str_eq method "eth_getTransactionCount"
    then eth_get_transaction_count
    else if str_eq method "eth_sendRawTransaction"
    then eth_send_raw_transaction
    else if str_eq method "eth_estimateGas"
    then eth_estimate_gas
    else if str_eq method "eth_gasPrice"
    then eth_gas_price
    else if str_eq method "eth_subscribe" || str_eq method "eth_unsubscribe"
    then subscribe
    else other method

pub record RpcEndpoint : Type 0 where
  pub url : String
  pub label : Option String
  pub priority : ℕ
  pub capabilities : List RpcCapability
  pub max_rps : Option ℕ
  pub max_in_flight : Option ℕ
  pub auth : Auth

-- `RpcEndpoint::new`.
abbrev pub new_endpoint : String → RpcEndpoint
new_endpoint url = record {
  url = url;
  label = none;
  priority = 0;
  capabilities = [];
  max_rps = none;
  max_in_flight = none;
  auth = no_auth;
}

pub with_auth : RpcEndpoint → Auth → RpcEndpoint
with_auth endpoint auth = record endpoint { auth = auth }

unfoldable pub tag : RpcEndpoint → String
tag endpoint = elim endpoint.label [ none ↦ endpoint.url | some label ↦ label ]

unfoldable pub any_capability : List RpcCapability → RpcCapability → Bool
any_capability [] capability = false
any_capability (c ∷ rest) capability = capability_eq c capability || any_capability rest capability

is_empty : List RpcCapability → Bool
is_empty [] = true
is_empty (c ∷ rest) = false

unfoldable pub supports : RpcEndpoint → RpcCapability → Bool
unfolding is_empty any_capability
supports endpoint capability =
    if is_empty endpoint.capabilities then true else any_capability endpoint.capabilities capability

pub record RpcPoolConfig : Type 0 where
  pub listen : String
  pub request_timeout_ms : Option ℕ
  pub max_retries : ℕ
  pub endpoints : List RpcEndpoint

-- `RpcPoolConfig::default`, with `default_listen` and `default_max_retries`.
abbrev pub default_config : RpcPoolConfig
default_config = record {
  listen = "127.0.0.1:8545";
  request_timeout_ms = none;
  max_retries = 0;
  endpoints = [];
}

-- `enumerate`, with the index cast by `as u32`.
ranked : ℕ → List String → List RpcEndpoint
ranked i [] = []
ranked i (url ∷ urls) = record (new_endpoint url) { priority = i % 2 ^ 32 } ∷ ranked (suc i) urls

unfoldable pub from_urls : List String → RpcPoolConfig
unfolding ranked
from_urls urls = record default_config { endpoints = ranked 0 urls }
