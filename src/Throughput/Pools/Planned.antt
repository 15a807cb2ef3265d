-- ===== src/Throughput/Pools/Planned.antt =====
-- The pools that a run of examples/throughput.rs plans can be built.
use drm3_rpc_pool.Prelude.{
  ℕ, zero, suc, ◌+◌, ◌≤◌, ◌<◌, ◌^◌, ◌≡◌, ◌⊎◌, inl, inr, List, [], ◌∷◌, some, length, All, All-imp,
  ok, arith,
}
use drm3_rpc_pool.Config.{RpcEndpoint, default_config}
use drm3_rpc_pool.Config.Validate.{validate}
use drm3_rpc_pool.Presets.{endpoints_for}
use drm3_rpc_pool.Presets.Validity.{endpoints_for-some}
use drm3_rpc_pool.Throughput.{Args}
use drm3_rpc_pool.Throughput.Pools.{
  build, clamp, or_all, counted, measures_sizes, first_url, with_preset, single_plan, plan,
}
use drm3_rpc_pool.Throughput.Pools.Building.{Built, build-Built}

clamp-in_range : (n len : ℕ) → 1 ≤ len → (1 ≤ clamp n len) × (clamp n len ≤ len)
unfolding clamp
clamp-in_range n len h = ground (arith, h)

counted-in_range :
    (first n len : ℕ)
    → 1 ≤ first
    → first + n ≤ len + 1
    → All (λ size. (1 ≤ size) × (size ≤ len)) (counted first n)
unfolding counted
counted-in_range first zero len low high = tt
counted-in_range first (suc n) len low high = (
  (low, omega (arith, high)),
  counted-in_range (suc first) n len (omega arith) (omega (arith, high)),
)

plan-sizes :
    (args : Args) (es : List RpcEndpoint) (sizes : List ℕ)
    → plan args ≡ measures_sizes es sizes
    → (endpoints_for args.chain ≡ some es)
      × ((sizes ≡ clamp (or_all args.pool_size (length es)) (length es) ∷ [])
          ⊎ (sizes ≡ counted 1 (clamp (or_all args.max_pool (length es)) (length es))))
unfolding plan with_preset single_plan first_url
plan-sizes args es sizes h = ground (arith, h)

validate-nonempty :
    (es : List RpcEndpoint)
    → validate (record default_config { endpoints = es }) ≡ ok tt
    → 1 ≤ length es
unfolding validate
validate-nonempty [] valid = cc
validate-nonempty (e ∷ es) valid = omega arith

planned-in_range :
    (es : List RpcEndpoint) (sizes : List ℕ) (m n : ℕ)
    → 1 ≤ length es
    → (sizes ≡ clamp m (length es) ∷ []) ⊎ (sizes ≡ counted 1 (clamp n (length es)))
    → All (λ size. (1 ≤ size) × (size ≤ length es)) sizes
planned-in_range es sizes m n h (inl e) = rw e (clamp-in_range m (length es) h, tt)
planned-in_range es sizes m n h (inr e) = rw e (
    counted-in_range 1 (clamp n (length es)) (length es) (omega arith)
      (omega (arith, clamp-in_range n (length es) h)))

module _ (clock : ℕ → ℕ) (fuel : ℕ) (enough : 2 ^ 64 ≤ fuel) where
  -- Where the fuel is for at least 2^64 draws, and the arguments plan pools of some sizes of a list
  -- shorter than 2^64: every one of them is built without a panic in every run, of that many
  -- endpoints, the first ones of the chain's list, in the list's order or, if the pass is
  -- shuffled, in the order that was drawn, under the route's policy, each once, in ascending
  -- priority and with fresh health.
  pub plan-Built :
      (args : Args) (es : List RpcEndpoint) (sizes : List ℕ) (run reads : ℕ)
      → plan args ≡ measures_sizes es sizes
      → length es < 2 ^ 64
      → (endpoints_for args.chain ≡ some es)
        × All
            (λ size.
              Built fuel es args.route args.cap args.pass args.seed run size
                (build clock fuel es size args.route args.cap args.pass args.seed run reads))
            sizes
  plan-Built args es sizes run reads planned fits =
      let (found, which) = plan-sizes args es sizes planned in
      let valid = (endpoints_for-some args.chain es found).0 in
      let in_range =
        planned-in_range es sizes (or_all args.pool_size (length es))
          (or_all args.max_pool (length es)) (validate-nonempty es valid) which in
      let built =
        build-Built clock fuel es args.route args.cap args.pass args.seed run reads valid enough
          fits in
      (found, All-imp built sizes in_range)
