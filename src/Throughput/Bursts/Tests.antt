-- ===== src/Throughput/Bursts/Tests.antt =====
-- A burst of two requests, one at a time, and the theorem at it.
use drm3_rpc_pool.Prelude.{ℕ, ◌+◌, ◌*◌, ◌≤◌, ◌≡◌, ◌⊎◌, refl, arith}
use drm3_rpc_pool.Throughput.Bursts.{
  Burst, spawned, log_latency, count_ok, count_err, acquires, succeeds, fails, times, releases,
  Runs, begun, then_steps, summary,
}
use drm3_rpc_pool.Prelude.Sorting.{sort_by}
use drm3_rpc_pool.Rollup.{percentile}
use drm3_rpc_pool.Throughput.Bursts.Counts.{Metered}
use drm3_rpc_pool.Throughput.Bursts.Endings.{work, CanStep, Ended, Hangs, Runs-ends}

program : Unit {0}
unfolding spawned log_latency count_ok count_err summary percentile sort_by
program = tt

-- The first call answers after three milliseconds, and the second one fails.
fired : (b : Burst) × Runs 2 1 b 7
unfolding program
fired = (
  _,
  then_steps
      (then_steps
        (then_steps
          (then_steps
            (then_steps
              (then_steps (then_steps begun (acquires 0 0 0 refl refl)) (succeeds 0 0 refl))
              (times 0 3_000_000 0 refl))
            (releases 0 refl))
          (acquires 1 0 4_000_000 refl refl))
        (fails 1 4_000_000 refl))
      (releases 1 refl),
)

fired_summary : summary fired.0 1_000_000_000 ≡ record {
  success_rate = record { over = 1; under = 2 };
  throughput_rps = record { over = 1_000_000_000; under = 1_000_000_000 };
  elapsed = 1_000_000_000;
  p50_ms = 3;
  p95_ms = 3;
}
unfolding program fired
fired_summary = refl

Runs-ends_example :
    Metered 2 1 fired.0
    × (7 + work fired.0 ≤ 4 * 2)
    × (Ended 2 0 fired.0 ⊎ (CanStep fired.0 ⊎ ((◌≡◌ {A = ℕ} 1 0) × Hangs fired.0)))
Runs-ends_example = Runs-ends 0 (omega arith) fired.1
