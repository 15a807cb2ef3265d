-- ===== src/Throughput/Pools/Building.antt =====
-- The pools of examples/throughput.rs, pinned or shuffled, can be built.
use Prim.Native.Nat.{bit_xor}
use mathlib.Core.List.{Permᴰ}
use mathlib.Core.List.Permᴰ
use mathlib.Core.List.Perm
use drm3_rpc_pool.Config.Validate.Reordered.{validate-perm}
use drm3_rpc_pool.Throughput.Generator.{permute}
use drm3_rpc_pool.Throughput.Generator.Ending.{permute-ends}
use drm3_rpc_pool.Throughput.Generator.Shuffled.{permute-perm}
use mathlib.Core.List.{Perm}
use drm3_rpc_pool.Prelude.{
  ℕ, zero, suc, ◌*◌, ◌%◌, ◌^◌, Bool-cases, true, ◌≤◌, ◌<◌, ◌≡◌, ◌⊎◌, inl, inr, refl, ap, ◌∙◌,
  String, false, List, [], ◌∷◌, map, Option, some, str_eq, length, All, ok, arith,
}
use drm3_rpc_pool.Prelude.Sorting.{IsSorted}
use drm3_rpc_pool.Config.{RpcEndpoint, RpcPoolConfig, default_config}
use drm3_rpc_pool.Config.Validate.{validate_loop, validate}
use drm3_rpc_pool.Health.{default_policy}
use drm3_rpc_pool.Pool.State.{Sys, by_priority, new}
use drm3_rpc_pool.Pool.State.Fresh.{IsFresh, new-ok, new-IsFresh}
use drm3_rpc_pool.Pool.Defaults.{default_timeout_ms, with_default_transport}
use drm3_rpc_pool.Throughput.Pools.{take, set_policy, pool_of, build}

validate_loop-set_policy :
    (route : String) (cap : Option ℕ) (i : ℕ) (seen : List String) (es : List RpcEndpoint)
    → validate_loop seen (set_policy route cap i es) ≡ validate_loop seen es
unfolding validate_loop set_policy
validate_loop-set_policy route cap i seen [] = refl
validate_loop-set_policy route cap i seen (e ∷ es) =
    rw (validate_loop-set_policy route cap (suc i) (e.url ∷ seen) es) refl

-- What a valid list begins with is valid.
validate_loop-take :
    (n : ℕ) (seen : List String) (es : List RpcEndpoint)
    → validate_loop seen es ≡ ok tt
    → validate_loop seen (take n es) ≡ ok tt
unfolding validate_loop
validate_loop-take zero seen es h = refl
validate_loop-take (suc n) seen [] h = refl
validate_loop-take (suc n) seen (e ∷ es) h = ground (arith, validate_loop-take n (e.url ∷ seen) es)

length-take : (n : ℕ) (es : List RpcEndpoint) → n ≤ length es → length (take n es) ≡ n
length-take zero es h = refl
length-take (suc n) [] h = absurd (omega (arith, h))
length-take (suc n) (e ∷ es) h = ap suc (length-take n es (omega (arith, h)))

validate-take :
    (n : ℕ) (es : List RpcEndpoint)
    → 1 ≤ n
    → n ≤ length es
    → validate (record default_config { endpoints = es }) ≡ ok tt
    → validate (record default_config { endpoints = take n es }) ≡ ok tt
unfolding validate
validate-take zero es low high valid = absurd (omega (arith, low))
validate-take (suc n) [] low high valid = absurd (omega (arith, high))
validate-take (suc n) (e ∷ es) low high valid = validate_loop-take (suc n) [] (e ∷ es) valid

validate-set_policy :
    (route : String) (cap : Option ℕ) (es : List RpcEndpoint)
    → validate (record default_config { endpoints = es }) ≡ ok tt
    → validate (record default_config { endpoints = set_policy route cap 0 es }) ≡ ok tt
unfolding validate set_policy
validate-set_policy route cap [] valid = valid
validate-set_policy route cap (e ∷ es) valid =
    validate_loop-set_policy route cap 0 [] (e ∷ es) ∙ valid

-- What the shuffle of a pool of this size draws in this run.
abbrev IsDrawn : ℕ → List RpcEndpoint → ℕ → ℕ → ℕ → Type 0
IsDrawn fuel es seed run size =
    (drawn : List RpcEndpoint × ℕ) × (permute fuel (take size es)
        (bit_xor seed (run * 0x100000001B3 % 2 ^ 64))
      ≡ some drawn)

-- The order of a pool's endpoints: the list's, or what the shuffle drew where the pass asks for it.
abbrev Ordered : ℕ → List RpcEndpoint → String → ℕ → ℕ → ℕ → List RpcEndpoint → Type 0
Ordered fuel es pass seed run size order =
    ((str_eq pass "shuffled" ≡ false) × (order ≡ take size es))
    ⊎ ((str_eq pass "shuffled" ≡ true)
        × ((drawn : IsDrawn fuel es seed run size) × (order ≡ drawn.0.0)))

-- A pool of the first endpoints of a list, in the order of the pass and under the policy: each
-- once, in ascending priority, fresh.
pub record Built (fuel : ℕ) (es : List RpcEndpoint) (route : String) (cap : Option ℕ)
    (pass : String) (seed run size : ℕ) (made : Option (Sys × ℕ)) : Type 0 where
  pub low : 1 ≤ size
  pub high : size ≤ length es
  pub order : List RpcEndpoint
  pub ordered : Ordered fuel es pass seed run size order
  pub reordered : Perm order (take size es)
  pub chosen : length (take size es) ≡ size
  pub sys : Sys
  pub is_made : made ≡ some (sys, default_timeout_ms)
  pub same_endpoints : Perm (map (λ e. e.endpoint) sys.pool.entries) (set_policy route cap 0 order)
  pub sorted : IsSorted by_priority (map (λ e. e.endpoint) sys.pool.entries)
  pub fresh : All (IsFresh default_policy) sys.pool.entries

module _ (clock : ℕ → ℕ) where
  pool_of-made :
      (route : String) (cap : Option ℕ) (reads : ℕ) (subset : List RpcEndpoint) (sys : Sys)
      → new clock
          (record default_config { endpoints = set_policy route cap 0 subset })
          default_policy
          reads
        ≡ ok sys
      → pool_of clock route cap reads subset ≡ some (sys, default_timeout_ms)
  unfolding pool_of with_default_transport
  pool_of-made route cap reads subset sys made = rw (made, pool_of, with_default_transport) refl

  module _ (fuel : ℕ) (es : List RpcEndpoint) (route : String) (cap : Option ℕ) (pass : String)
      (seed run reads : ℕ) (valid : validate (record default_config { endpoints = es }) ≡ ok tt)
      (enough : 2 ^ 64 ≤ fuel) (fits : length es < 2 ^ 64) where
    pool_of-Built :
        (size : ℕ)
        → (1 ≤ size) × (size ≤ length es)
        → (order : List RpcEndpoint) → Ordered fuel es pass seed run size order
        → Permᴰ (take size es) order
        → Built fuel es route cap pass seed run size (pool_of clock route cap reads order)
    pool_of-Built size (low, high) order ordered reordered =
        let cfg : RpcPoolConfig = record default_config {
          endpoints = set_policy route cap 0 order;
        } in
        let accepted =
          validate-set_policy route cap order
            (validate-perm default_config reordered (validate-take size es low high valid)) in
        let (sys, made) = new-ok clock default_policy cfg reads accepted in
        let (v, same, sorted, fresh, budget) = new-IsFresh clock default_policy cfg reads made in
        record {
          low = low;
          high = high;
          order = order;
          ordered = ordered;
          reordered = Perm.symm ∣ reordered ∣₁;
          chosen = length-take size es high;
          sys = sys;
          is_made = pool_of-made route cap reads order sys made;
          same_endpoints = same;
          sorted = sorted;
          fresh = fresh;
        }

    pub build-Built :
        (size : ℕ)
        → (1 ≤ size) × (size ≤ length es)
        → Built fuel es route cap pass seed run size
            (build clock fuel es size route cap pass seed run reads)
    unfolding build
    build-Built size range = elim (Bool-cases (str_eq pass "shuffled")) [
      | inl shuffled ↦
          let (drawn, is) : IsDrawn fuel es seed run size =
            permute-ends fuel (take size es) _ enough
              (omega (arith, fits, range, length-take size es range.1)) in
          rw (build, shuffled, is)
            (pool_of-Built size range drawn.0 (inr (shuffled, ((drawn, is), refl)))
              (permute-perm fuel _ _ drawn is))
      | inr pinned ↦
          rw (build, pinned)
            (pool_of-Built size range (take size es) (inl (pinned, refl)) (Permᴰ.refl _))
    ]
