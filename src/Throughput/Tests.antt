-- ===== src/Throughput/Tests.antt =====
-- Runs of the load test's command line and generator, and the theorem at a shuffled pool of one chain.
use drm3_rpc_pool.Prelude.Sorting.{sort_by}
use drm3_rpc_pool.Throughput.Bursts.{Summary}
use drm3_rpc_pool.Throughput.Reports.{Line, measure}
use drm3_rpc_pool.Prelude.{List, ◌+◌, map, arith, ◌^◌, ℕ, ◌≡◌, refl, [], ◌∷◌, some, none, All}
use drm3_rpc_pool.Config.Validate.{is_whitespace}
use drm3_rpc_pool.Presets.{endpoints_for, bnb, codes}
use drm3_rpc_pool.Pool.HttpStatus.{parse_unsigned}
use drm3_rpc_pool.Throughput.{Args, default_args, parse_args, with_args}
use drm3_rpc_pool.Throughput.Generator.{next_u64}
use drm3_rpc_pool.Throughput.Pools.{build, plan, measures_sizes}
use drm3_rpc_pool.Throughput.Pools.Building.{Built}
use drm3_rpc_pool.Throughput.Pools.Planned.{plan-Built}

-- The first number of the published generator for the seed 0.
first_draw : (next_u64 0).1 ≡ 0xE220A8397B1DCDAF
unfolding next_u64
first_draw = refl

abbrev bnb_args : Args
bnb_args = record default_args { chain = "bnb"; mode = "pool"; pool_size = some 9; requests = 50 }

command_line :
    parse_args
      ("--chain" ∷ "bnb" ∷ "--mode" ∷ "pool" ∷ "--pool-size" ∷ "9" ∷ "--requests" ∷ "50" ∷ [])
    ≡ with_args bnb_args
unfolding parse_args parse_unsigned codes
command_line = refl

abbrev clock : ℕ → ℕ
clock n = n

bnb_planned : plan bnb_args ≡ measures_sizes bnb (4 ∷ [])
unfolding plan endpoints_for bnb is_whitespace
bnb_planned = refl

-- The same pool in a pass that shuffles it.
abbrev shuffled_args : Args
shuffled_args = record bnb_args { pass = "shuffled" }

shuffled_planned : plan shuffled_args ≡ measures_sizes bnb (4 ∷ [])
unfolding plan endpoints_for bnb is_whitespace
shuffled_planned = refl

plan-Built_example :
    (endpoints_for "bnb" ≡ some bnb)
    × All
        (λ size.
          Built
            (2 ^ 64)
            bnb
            "spread"
            none
            "shuffled"
            1
            2
            size
            (build clock (2 ^ 64) bnb size "spread" none "shuffled" 1 2 0))
        (4 ∷ [])
unfolding bnb
plan-Built_example =
    plan-Built clock (2 ^ 64) (omega arith) shuffled_args bnb (4 ∷ []) 2 0 shuffled_planned
      (omega arith)

-- A burst whose every second request fails, on a world that counts the seconds of sleep.
abbrev half : ℕ → ℕ → ℕ → ℕ × Summary
half size run slept = (
  slept,
  record {
    success_rate = record { over = 1; under = 2 };
    throughput_rps = record { over = 5; under = size + run };
    elapsed = 2_000_000_000;
    p50_ms = run;
    p95_ms = 9;
  },
)

-- Pools of one and two endpoints in two runs each: a pause before each second run and second size.
abbrev swept : ℕ × List Line
swept =
    measure (λ secs slept. slept + secs) (some "3")
      (record default_args { runs = 2; max_pool = some 2 }) half (measures_sizes bnb (1 ∷ 2 ∷ [])) 0

sweep_report :
    (swept.0 ≡ 9)
    × (map (λ l. l.pool_size) swept.1 ≡ 1 ∷ 2 ∷ [])
    × (map (λ l. l.report.success_rate) swept.1 ≡ 500 ∷ 500 ∷ [])
    × (map (λ l. l.report.throughput_rps) swept.1 ≡ 21 ∷ 15 ∷ [])
unfolding measure sort_by parse_unsigned codes
sweep_report = (refl, refl, refl, refl)
