-- ===== src/Throughput/Bursts/Counts.antt =====
-- What a burst of examples/throughput.rs counts, whatever the interleaving of its tasks.
use drm3_rpc_pool.Prelude.{
  ℕ, zero, suc, ◌+◌, ◌*◌, ◌^◌, ◌<◌, ◌≡◌, [], ◌∷◌, replicate, length, length-append, arith,
}
use drm3_rpc_pool.Prelude.Sums.{total, total-set}
use drm3_rpc_pool.Throughput.Bursts.{
  Runner, queued, calling, answered, leaving, finished, Burst, spawned, log_latency, count_ok,
  count_err, Step, acquires, succeeds, fails, times, releases, Runs, begun, then_steps,
}

-- Whether a task holds a permit, whether its outcome is not counted yet, and whether its latency is
-- still to be kept, as numbers.
abbrev pub holds : Runner → ℕ
holds queued = 0
holds (calling since) = 1
holds (answered since) = 1
holds leaving = 1
holds finished = 0

abbrev pub open_outcome : Runner → ℕ
open_outcome queued = 1
open_outcome (calling since) = 1
open_outcome (answered since) = 0
open_outcome leaving = 0
open_outcome finished = 0

abbrev pub untimed : Runner → ℕ
untimed (answered since) = 1
untimed queued = 0
untimed (calling since) = 0
untimed leaving = 0
untimed finished = 0

-- The permits that are free and those that are held are the concurrency; the outcomes that are
-- counted and those that are open are the requests; and each success has a latency, kept or to come.
pub record Metered (requests concurrency : ℕ) (b : Burst) : Type 0 where
  pub permitted : b.permits + total holds b.runners ≡ concurrency
  pub counted : b.successes + b.failures + total open_outcome b.runners ≡ requests
  pub timed : length b.latencies + total untimed b.runners ≡ b.successes

pub total-replicate :
    (weight : Runner → ℕ) (n : ℕ) (r : Runner) → total weight (replicate n r) ≡ n * weight r
total-replicate weight zero r = omega arith
total-replicate weight (suc n) r = grind (arith, total-replicate weight n r)

spawned-Metered :
    (requests concurrency : ℕ) → Metered requests concurrency (spawned requests concurrency)
unfolding spawned
spawned-Metered requests concurrency = record {
  permitted = omega (arith, total-replicate holds requests queued);
  counted = omega (arith, total-replicate open_outcome requests queued);
  timed = omega (arith, total-replicate untimed requests queued);
}

module _ {requests concurrency : ℕ} (fits : requests < 2 ^ 64) where
  Step-Metered :
      {b c : Burst} → Step b c → Metered requests concurrency b → Metered requests concurrency c
  unfolding log_latency count_ok count_err
  Step-Metered {b} (acquires k permits now at free) m = record {
    permitted = omega (arith, free, total-set holds k b.runners _ (calling now) at);
    counted = omega (arith, total-set open_outcome k b.runners _ (calling now) at);
    timed = omega (arith, total-set untimed k b.runners _ (calling now) at);
  }
  Step-Metered {b} (succeeds k since at) m = record {
    permitted = omega (arith, total-set holds k b.runners _ (answered since) at);
    counted = omega (arith, fits, total-set open_outcome k b.runners _ (answered since) at);
    timed = omega (
      arith,
      fits,
      total-set open_outcome k b.runners _ (answered since) at,
      total-set untimed k b.runners _ (answered since) at,
    );
  }
  Step-Metered {b} (fails k since at) m = record {
    permitted = omega (arith, total-set holds k b.runners _ leaving at);
    counted = omega (arith, fits, total-set open_outcome k b.runners _ leaving at);
    timed = omega (arith, total-set untimed k b.runners _ leaving at);
  }
  Step-Metered {b} (times k now since at) m = record {
    permitted = omega (arith, total-set holds k b.runners _ leaving at);
    counted = omega (arith, total-set open_outcome k b.runners _ leaving at);
    timed =
        omega
          (arith, total-set untimed k b.runners _ leaving at, length-append b.latencies (_ ∷ []));
  }
  Step-Metered {b} (releases k at) m = record {
    permitted = omega (arith, total-set holds k b.runners _ finished at);
    counted = omega (arith, total-set open_outcome k b.runners _ finished at);
    timed = omega (arith, total-set untimed k b.runners _ finished at);
  }

  pub Runs-Metered :
      {b : Burst} {n : ℕ} → Runs requests concurrency b n → Metered requests concurrency b
  Runs-Metered begun = spawned-Metered requests concurrency
  Runs-Metered (then_steps runs step) = Step-Metered step (Runs-Metered runs)
