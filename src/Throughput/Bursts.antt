-- ===== src/Throughput/Bursts.antt =====
-- `one_burst` of examples/throughput.rs: its tasks under the semaphore, as a step relation over single
-- operations. What a call answers, and when, is the environment's choice.
-- The quantiles of its `percentile` are those of src/rollup.rs.
pub mod Counts
pub mod Endings
mod Tests
use drm3_rpc_pool.Prelude.{
  ℕ, suc, ◌+◌, ◌-◌, ◌*◌, ◌/◌, ◌%◌, ◌^◌, ◌≡◌, List, [], ◌∷◌, ◌++◌, some, get_elem?, set, replicate,
  length, leb, ◌==◌, if◌then◌else◌,
}
use drm3_rpc_pool.Prelude.Sorting.{sort_by}
use drm3_rpc_pool.Health.{Ratio}
use drm3_rpc_pool.Rollup.{percentile}

-- A task before its permit, in its call since an instant, with an answer that is counted and not yet
-- timed, before the drop of its permit, and at its end.
pub data Runner : Type 0 where
  queued : Runner
  calling : ℕ → Runner
  answered : ℕ → Runner
  leaving : Runner
  finished : Runner

pub record Burst : Type 0 where
  pub permits : ℕ
  pub successes : ℕ
  pub failures : ℕ
  pub latencies : List ℕ
  pub runners : List Runner

pub spawned : ℕ → ℕ → Burst
spawned requests concurrency = record {
  permits = concurrency;
  successes = 0;
  failures = 0;
  latencies = [];
  runners = replicate requests queued;
}

-- `t0.elapsed().as_millis() as u64`, under the lock of the latencies.
pub log_latency : ℕ → ℕ → ℕ → Burst → Burst
log_latency k now since burst = record burst {
  latencies = burst.latencies ++ ((now - since) / 1_000_000 % 2 ^ 64) ∷ [];
  runners = set burst.runners k leaving;
}

pub count_ok : ℕ → ℕ → Burst → Burst
count_ok k since burst = record burst {
  successes = (burst.successes + 1) % 2 ^ 64;
  runners = set burst.runners k (answered since);
}

pub count_err : ℕ → Burst → Burst
count_err k burst = record burst {
  failures = (burst.failures + 1) % 2 ^ 64;
  runners = set burst.runners k leaving;
}

pub data Step (burst : Burst) : Burst → Type 0 where
  acquires :
      (k permits now : ℕ)
      → get_elem? burst.runners k ≡ some queued
      → burst.permits ≡ suc permits
      → Step burst (record burst { permits = permits; runners = set burst.runners k (calling now) })
  succeeds :
      (k since : ℕ)
      → get_elem? burst.runners k ≡ some (calling since)
      → Step burst (count_ok k since burst)
  fails :
      (k since : ℕ)
      → get_elem? burst.runners k ≡ some (calling since)
      → Step burst (count_err k burst)
  times :
      (k now since : ℕ)
      → get_elem? burst.runners k ≡ some (answered since)
      → Step burst (log_latency k now since burst)
  releases :
      (k : ℕ)
      → get_elem? burst.runners k ≡ some leaving
      → Step burst
          (record burst { permits = burst.permits + 1; runners = set burst.runners k finished })

-- A number of steps from the spawning of the tasks.
pub data Runs (requests concurrency : ℕ) : Burst → ℕ → Type 0 where
  begun : Runs requests concurrency (spawned requests concurrency) 0
  then_steps :
      {b c : Burst} {n : ℕ}
      → Runs requests concurrency b n
      → Step b c
      → Runs requests concurrency c (suc n)

-- What a burst is reported by: the elapsed time is in nanoseconds.
pub record Summary : Type 0 where
  pub success_rate : Ratio
  pub throughput_rps : Ratio
  pub elapsed : ℕ
  pub p50_ms : ℕ
  pub p95_ms : ℕ

pub summary : Burst → ℕ → Summary
summary burst elapsed =
    let total = burst.successes + burst.failures in
    let sorted = sort_by leb burst.latencies in
    record {
      success_rate =
          if total == 0
          then record { over = 0; under = 1 }
          else record { over = burst.successes; under = total };
      throughput_rps =
          if elapsed == 0
          then record { over = 0; under = 1 }
          else record { over = burst.successes * 1_000_000_000; under = elapsed };
      elapsed = elapsed;
      p50_ms = percentile 50 sorted;
      p95_ms = percentile 95 sorted;
    }
