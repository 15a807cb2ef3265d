-- ===== src/Throughput/Pools.antt =====
-- The pools that examples/throughput.rs builds, and what it plans to measure.
pub mod Building
pub mod Planned
use drm3_rpc_pool.Prelude.{
  ℕ, zero, suc, ◌+◌, ◌-◌, ◌*◌, ◌/◌, ◌%◌, ◌^◌, String, Bool, true, false, ◌&&◌, ◌||◌, not, List, [],
  ◌∷◌, Option, none, some, str_eq, leb, ◌==◌, if◌then◌else◌, get_elem?, length, concat,
}
use Prim.Native.Nat.{bit_xor}
use drm3_rpc_pool.Prelude.Sorting.{sort_by}
use drm3_rpc_pool.Config.{RpcEndpoint, RpcPoolConfig, default_config, from_urls}
use drm3_rpc_pool.Health.{Ratio}
use drm3_rpc_pool.Presets.{endpoints_for}
use drm3_rpc_pool.Rollup.{percentile}
use drm3_rpc_pool.Pool.State.{Sys}
use drm3_rpc_pool.Pool.Defaults.{with_default_transport}
use drm3_rpc_pool.Throughput.{Args}
use drm3_rpc_pool.Throughput.Generator.{permute}

-- A list has at most as many elements as are taken.
abbrev pub take {ℓ} : {A : Type ℓ} → ℕ → List A → List A
take zero xs = []
take (suc n) [] = []
take (suc n) (x ∷ xs) = x ∷ take n xs

-- The loop that sets the priorities and the caps, with the index cast by `as u32`.
pub set_policy : String → Option ℕ → ℕ → List RpcEndpoint → List RpcEndpoint
set_policy route cap i [] = []
set_policy route cap i (endpoint ∷ rest) =
    record endpoint {
      priority = if str_eq route "spread" then 0 else i % 2 ^ 32;
      max_in_flight = if str_eq route "capped" then cap else none;
    }
    ∷ set_policy route cap (suc i) rest

pool_of : (ℕ → ℕ) → String → Option ℕ → ℕ → List RpcEndpoint → Option (Sys × ℕ)
unfolding set_policy
pool_of clock route cap reads subset =
    with_default_transport clock
      (record default_config { endpoints = set_policy route cap 0 subset }) reads

-- Nothing where the pool panics, or where the fuel of the shuffle's draws runs out.
unfoldable pub build :
    (ℕ → ℕ) → ℕ → List RpcEndpoint → ℕ → String → Option ℕ → String → ℕ → ℕ → ℕ → Option (Sys × ℕ)
unfolding pool_of
build clock fuel eps size route cap pass seed run reads =
    let subset = take size eps in
    let shuffled = permute fuel subset (bit_xor seed (run * 0x100000001B3 % 2 ^ 64)) in
    if str_eq pass "shuffled"
    then elim shuffled [
      | none ↦ none
      | some (permuted, state) ↦ pool_of clock route cap reads permuted
    ]
    else pool_of clock route cap reads subset

-- `clamp(1, len)`, for a list that is not empty.
clamp : ℕ → ℕ → ℕ
clamp n len = if leb n 1 then 1 else if leb len n then len else n

or_all : Option ℕ → ℕ → ℕ
or_all none len = len
or_all (some n) len = n

-- The numbers from the first one on.
counted : ℕ → ℕ → List ℕ
counted first zero = []
counted first (suc n) = first ∷ counted (suc first) n

-- What `main` measures: one URL, or pools of some sizes of a chain's list; or its exit's text.
pub data Plan : Type 0 where
  measures_url : String → Plan
  measures_sizes : List RpcEndpoint → List ℕ → Plan
  exits : String → Plan

first_url : List RpcEndpoint → Plan
first_url [] = exits "preset has at least one endpoint"
first_url (endpoint ∷ rest) = measures_url endpoint.url

known_route : String → Bool
known_route route = str_eq route "spread" || str_eq route "chain" || str_eq route "capped"

is_none : Option ℕ → Bool
is_none none = true
is_none (some n) = false

with_preset : String → (List RpcEndpoint → Plan) → Plan
with_preset chain go = elim (endpoints_for chain) [
  | none ↦ exits (concat ("unknown chain preset: " ∷ chain ∷ []))
  | some eps ↦ go eps
]

single_plan : Args → Plan
unfolding with_preset first_url
single_plan args = elim args.endpoint [
  | some url ↦ measures_url url
  | none ↦ with_preset args.chain first_url
]

unfoldable pub plan : Args → Plan
unfolding known_route is_none single_plan with_preset clamp or_all counted
plan args =
    let pool_plan =
      with_preset args.chain (λ eps.
        measures_sizes eps (clamp (or_all args.pool_size (length eps)) (length eps) ∷ [])) in
    let sweep_plan = with_preset args.chain (λ eps.
      measures_sizes eps (counted 1 (clamp (or_all args.max_pool (length eps)) (length eps)))) in
    if not (known_route args.route)
    then exits (concat ("unknown route: " ∷ args.route ∷ " (expected spread|chain|capped)" ∷ []))
    else if str_eq args.route "capped" && is_none args.cap
    then exits "--route capped requires --cap N"
    else if str_eq args.mode "single"
    then single_plan args
    else if str_eq args.mode "pool"
    then pool_plan
    else if str_eq args.mode "sweep"
    then sweep_plan
    else exits (concat ("unknown mode: " ∷ args.mode ∷ " (expected single|pool|sweep)" ∷ []))
