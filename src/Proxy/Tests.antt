-- ===== src/Proxy/Tests.antt =====
-- The proxy of src/proxy.rs over concrete values, and the theorem at a batch of two requests.
use drm3_rpc_pool.Prelude.{
  ℕ, ◌≡◌, ◌⊎◌, refl, String, List, [], ◌∷◌, Option, none, some, ok, err, arith, str_eq,
  if◌then◌else◌, Bool-cases, inl, inr,
}
use drm3_rpc_pool.Prelude.Int.{ℤ, pos}
use drm3_rpc_pool.Prelude.Sorting.{sort_by}
use drm3_rpc_pool.Config.{RpcPoolConfig, from_urls, headers, new_endpoint}
use drm3_rpc_pool.Config.Validate.{validate}
use drm3_rpc_pool.Health.{default_policy, new_health}
use drm3_rpc_pool.Wire.{Serde}
use drm3_rpc_pool.Pool.State.{Sys, new}
use drm3_rpc_pool.Pool.Dispatch.{Transport}
use drm3_rpc_pool.Proxy.{Json, id_of, rpc_handler, health_handler}
use drm3_rpc_pool.Proxy.Readiness.{calm, health_handler-Reach}
use drm3_rpc_pool.Prelude.{Result}
use drm3_rpc_pool.Config.{supports, for_method, tag}
use drm3_rpc_pool.Health.{is_available_at}
use drm3_rpc_pool.Wire.{Bytes, ResponseError, parse_rpc_response}
use drm3_rpc_pool.Pool.State.{read_clock, emit, modify_entry, enter, leave}
use drm3_rpc_pool.Pool.Candidates.{ordered_candidates}
use drm3_rpc_pool.Pool.Dispatch.{start_attempt, finish_attempt, out_of_budget}
use drm3_rpc_pool.Pool.Tasks.{
  World, begin, start, deliver, begins, starts, delivers, Reach, here, next,
}
use drm3_rpc_pool.Pool.Tasks.Healths.{ledger_of}
use drm3_rpc_pool.Pool.Dispatch.Steps.Healths.{report_of}
use drm3_rpc_pool.Proxy.Envelope.{ReadsObjects, AreEnvelopes, IsEnvelope, rpc_handler-AreEnvelopes}

-- Values of which objects and arrays are chains of fields and items.
data Tree : Type 0 where
  null nil : Tree
  text : String → Tree
  number : ℤ → Tree
  field : String → Tree → Tree → Tree
  item : Tree → Tree → Tree

abbrev get : Tree → String → Option Tree
get (field k v rest) key = if str_eq k key then some v else get rest key
get _ key = none

abbrev as_str : Tree → Option String
as_str (text s) = some s
as_str _ = none

abbrev items_of : Tree → List Tree
items_of (item v rest) = v ∷ items_of rest
items_of _ = []

abbrev as_array : Tree → Option (List Tree)
as_array (item v rest) = some (v ∷ items_of rest)
as_array _ = none

abbrev array : List Tree → Tree
array [] = nil
array (v ∷ vs) = item v (array vs)

abbrev object : List (String × Tree) → Tree
object [] = nil
object ((k, v) ∷ fields) = field k v (object fields)

abbrev json : Json Tree
json = record {
  get = get;
  as_str = as_str;
  as_array = as_array;
  null = null;
  text = text;
  number = number;
  array = array;
  object = object;
}

get-object : ReadsObjects json
get-object [] key distinct = refl
get-object ((k, v) ∷ fields) key distinct = elim (Bool-cases (str_eq k key)) [
  | inl h ↦ rw h refl
  | inr h ↦ rw h (get-object fields key (ground arith))
]

abbrev serde : Serde Tree
serde = record { to_vec = λ r. ok []; from_slice = λ bytes. err "EOF" }

abbrev clock : ℕ → ℕ
clock n = n

abbrev post : Transport
post reads url headers body = err "http 429 "

abbrev nobody : Sys
nobody = record {
  pool = record { entries = []; request_id = 1; max_retries = 0 };
  reads = 0;
  events = [];
}

-- A request with an id, and one that has neither an id nor a method.
abbrev batch : Tree
batch = array (
    object (("id", text "x") ∷ ("method", text "eth_call") ∷ [])
    ∷ object (("params", nil) ∷ [])
    ∷ [])

rpc_handler-AreEnvelopes_example :
    ((items : List Tree) × (vs : List Tree) × (as_array batch ≡ some items)
      × ((rpc_handler json serde clock post batch nobody).1 ≡ some (200, array vs))
      × AreEnvelopes json items vs)
    ⊎ ((v : Tree) × (as_array batch ≡ none)
        × ((rpc_handler json serde clock post batch nobody).1 ≡ some (200, v))
        × IsEnvelope json (id_of json batch) v)
rpc_handler-AreEnvelopes_example =
    rpc_handler-AreEnvelopes json serde clock post get-object batch nobody tt

abbrev one_url : RpcPoolConfig
one_url = from_urls ("https://a" ∷ [])

abbrev ready : Sys
ready = record {
  pool = record {
    entries =
        record {
          endpoint = new_endpoint "https://a";
          health = new_health default_policy;
          auth_headers = [];
          rate_limiter = none;
          in_flight = 0;
        }
        ∷ [];
    request_id = 1;
    max_retries = 0;
  };
  reads = 0;
  events = [];
}

made_ready : new clock one_url default_policy 0 ≡ ok ready
unfolding new validate from_urls sort_by headers
made_ready = refl

program : Unit {0}
unfolding begin start deliver start_attempt finish_attempt ordered_candidates sort_by supports
    is_available_at read_clock emit modify_entry enter leave for_method tag out_of_budget
program = tt

abbrev handle : Bytes → Result Tree ResponseError
handle = parse_rpc_response serde

-- One call, whose request the endpoint refused.
asked : (w : World Tree) × Reach serde clock handle (record { sys = ready; tasks = [] }) w
unfolding program
asked = (
  _,
  next (next (next here (begins "eth_call" nil)) (starts 0 _ _ 0 [] _ refl))
      (delivers 0 _ _ (err "http 429 ") _ [] refl),
)

asked_streak : calm (ledger_of serde clock handle asked.1) 0 1 ≡ 0
unfolding asked program report_of
asked_streak = refl

health_handler-Reach_example :
    ((health_handler json clock asked.0.sys).0.pool ≡ asked.0.sys.pool)
    × ((health_handler json clock asked.0.sys).1 ≡ (
      200,
      object (
          ("status", text "ok")
          ∷ ("endpoints_total", number (pos 1))
          ∷ ("endpoints_healthy", number (pos (calm (ledger_of serde clock handle asked.1) 0 1)))
          ∷ []),
    ))
health_handler-Reach_example =
    health_handler-Reach serde clock handle json one_url default_policy 0 made_ready asked.1
