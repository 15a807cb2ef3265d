-- ===== src/Throughput/Bursts/Endings.antt =====
-- How long a burst of examples/throughput.rs runs, and when it hangs.
use drm3_rpc_pool.Prelude.{
  ℕ, zero, suc, ◌+◌, ◌*◌, ◌^◌, ◌≤◌, ◌<◌, ◌≡◌, ◌⊎◌, inl, inr, refl, List, [], ◌∷◌, some,
  some-eq-some, get_elem?, length, ◌==◌, if◌then◌else◌, arith,
}
use drm3_rpc_pool.Prelude.Sums.{total, total-set}
use drm3_rpc_pool.Throughput.Bursts.{
  Runner, queued, calling, answered, leaving, finished, Burst, spawned, log_latency, count_ok,
  count_err, Step, acquires, succeeds, fails, times, releases, summary, Runs, begun, then_steps,
}
use drm3_rpc_pool.Throughput.Bursts.Counts.{
  holds, open_outcome, untimed, Metered, total-replicate, Runs-Metered,
}

-- The most steps that a task can still take.
abbrev pub work_of : Runner → ℕ
work_of queued = 4
work_of (calling since) = 3
work_of (answered since) = 2
work_of leaving = 1
work_of finished = 0

abbrev pub work : Burst → ℕ
work b = total work_of b.runners

Step-work : {b c : Burst} → Step b c → work c < work b
unfolding log_latency count_ok count_err
Step-work {b} (acquires k permits now at free) =
    omega (arith, total-set work_of k b.runners _ (calling now) at)
Step-work {b} (succeeds k since at) =
    omega (arith, total-set work_of k b.runners _ (answered since) at)
Step-work {b} (fails k since at) = omega (arith, total-set work_of k b.runners _ leaving at)
Step-work {b} (times k now since at) = omega (arith, total-set work_of k b.runners _ leaving at)
Step-work {b} (releases k at) = omega (arith, total-set work_of k b.runners _ finished at)

Runs-work :
    {requests concurrency : ℕ} {b : Burst} {n : ℕ}
    → Runs requests concurrency b n
    → n + work b ≤ 4 * requests
unfolding spawned
Runs-work {requests} begun = omega (arith, total-replicate work_of requests queued)
Runs-work (then_steps runs step) = omega (arith, Runs-work runs, Step-work step)

abbrev pub CanStep : Burst → Type 0
CanStep b = (c : Burst) × Step b c

-- A task that holds a permit can go on.
find_holder :
    (runners : List Runner)
    → ((k : ℕ) × (r : Runner) × (get_elem? runners k ≡ some r) × (holds r ≡ 1))
      ⊎ (total holds runners ≡ 0)
find_holder [] = inr refl
find_holder (calling since ∷ rs) = inl (0, _, refl, refl)
find_holder (answered since ∷ rs) = inl (0, _, refl, refl)
find_holder (leaving ∷ rs) = inl (0, _, refl, refl)
find_holder (queued ∷ rs) = elim (find_holder rs) [
  | inl (k, r, at, held) ↦ inl (suc k, r, at, held)
  | inr none_held ↦ inr (omega (arith, none_held))
]
find_holder (finished ∷ rs) = elim (find_holder rs) [
  | inl (k, r, at, held) ↦ inl (suc k, r, at, held)
  | inr none_held ↦ inr (omega (arith, none_held))
]

find_queued :
    (runners : List Runner)
    → total holds runners ≡ 0
    → ((k : ℕ) × (get_elem? runners k ≡ some queued)) ⊎ (total work_of runners ≡ 0)
find_queued [] h = inr refl
find_queued (queued ∷ rs) h = inl (0, refl)
find_queued (calling since ∷ rs) h = absurd (omega (arith, h))
find_queued (answered since ∷ rs) h = absurd (omega (arith, h))
find_queued (leaving ∷ rs) h = absurd (omega (arith, h))
find_queued (finished ∷ rs) h = elim (find_queued rs (omega (arith, h))) [
  | inl (k, at) ↦ inl (suc k, at)
  | inr over ↦ inr (omega (arith, over))
]

holder-CanStep :
    (b : Burst) (k : ℕ) (r : Runner) → get_elem? b.runners k ≡ some r → holds r ≡ 1 → CanStep b
holder-CanStep b k queued at held = absurd (omega (arith, held))
holder-CanStep b k (calling since) at held = (_, fails k since at)
holder-CanStep b k (answered since) at held = (_, times k 0 since at)
holder-CanStep b k leaving at held = (_, releases k at)
holder-CanStep b k finished at held = absurd (omega (arith, held))

weight-le-total :
    (weight : Runner → ℕ) (k : ℕ) (rs : List Runner) (r : Runner)
    → get_elem? rs k ≡ some r
    → weight r ≤ total weight rs
weight-le-total weight k [] r at = cc
weight-le-total weight zero (x ∷ rs) r at =
    let same : x ≡ r = some-eq-some at in rw same (omega arith)
weight-le-total weight (suc k) (x ∷ rs) r at = omega (arith, weight-le-total weight k rs r at)

ℕ-cases : (n : ℕ) → (n ≡ 0) ⊎ ((m : ℕ) × (n ≡ suc m))
ℕ-cases zero = inl refl
ℕ-cases (suc m) = inr (m, refl)

hangs : {b c : Burst} → b.permits ≡ 0 → total holds b.runners ≡ 0 → ¬ Step b c
hangs {b} no_permit none_held (acquires k permits now at free) = omega (arith, no_permit, free)
hangs {b} no_permit none_held (succeeds k since at) =
    omega (arith, none_held, weight-le-total holds k b.runners _ at)
hangs {b} no_permit none_held (fails k since at) =
    omega (arith, none_held, weight-le-total holds k b.runners _ at)
hangs {b} no_permit none_held (times k now since at) =
    omega (arith, none_held, weight-le-total holds k b.runners _ at)
hangs {b} no_permit none_held (releases k at) =
    omega (arith, none_held, weight-le-total holds k b.runners _ at)

open-le-work : (rs : List Runner) → total open_outcome rs + total untimed rs ≤ total work_of rs
open-le-work [] = omega arith
open-le-work (queued ∷ rs) = omega (arith, open-le-work rs)
open-le-work (calling since ∷ rs) = omega (arith, open-le-work rs)
open-le-work (answered since ∷ rs) = omega (arith, open-le-work rs)
open-le-work (leaving ∷ rs) = omega (arith, open-le-work rs)
open-le-work (finished ∷ rs) = omega (arith, open-le-work rs)

-- Every task has ended: each request is counted once, each success has its latency, and the success
-- rate that is reported is of all requests.
pub record Ended (requests elapsed : ℕ) (b : Burst) : Type 0 where
  pub no_work : work b ≡ 0
  pub all_counted : b.successes + b.failures ≡ requests
  pub all_timed : length b.latencies ≡ b.successes
  pub rate_of_all :
      (summary b elapsed).success_rate
      ≡ record { over = b.successes; under = (if requests == 0 then 1 else requests) }

Metered-Ended :
    (requests concurrency elapsed : ℕ) (b : Burst)
    → Metered requests concurrency b
    → work b ≡ 0
    → Ended requests elapsed b
unfolding summary
Metered-Ended requests concurrency elapsed b m idle =
    let all : b.successes + b.failures ≡ requests =
      omega (arith, m.counted, idle, open-le-work b.runners) in
    record {
      no_work = idle;
      all_counted = all;
      all_timed = omega (arith, m.timed, idle, open-le-work b.runners);
      rate_of_all = ground (arith, all);
    }

-- A burst hangs: work is left, and no task can go on.
pub record Hangs (b : Burst) : Type 0 where
  pub unfinished : 0 < work b
  pub stuck : (c : Burst) → ¬ Step b c

Metered-goes_on :
    (requests concurrency elapsed : ℕ) (b : Burst)
    → Metered requests concurrency b
    → Ended requests elapsed b ⊎ (CanStep b ⊎ ((concurrency ≡ 0) × Hangs b))
Metered-goes_on requests concurrency elapsed b m = elim (find_holder b.runners) [
  | inl (k, r, at, held) ↦ inr (inl (holder-CanStep b k r at held))
  | inr none_held ↦ elim (find_queued b.runners none_held) [
    | inr idle ↦ inl (Metered-Ended requests concurrency elapsed b m idle)
    | inl (k, at) ↦ elim (ℕ-cases b.permits) [
      | inr (permits, free) ↦ inr (inl (_, acquires k permits 0 at free))
      | inl no_permit ↦ inr (
          inr (
            omega (arith, m.permitted, no_permit, none_held),
            record {
              unfinished = omega (arith, weight-le-total work_of k b.runners queued at);
              stuck = λ c. hangs no_permit none_held;
            },
          ))
    ]
  ]
]

-- A burst of fewer than 2^64 requests, however its tasks interleave and whatever the calls answer: the
-- free permits and the calls under way are always the concurrency, so that never more calls are under
-- way at once, and each request is either open or counted once; it takes at most four steps for each
-- request; and at any moment it has ended, with the rate of all requests in its summary, or some task
-- can go on, or it hangs, which happens only where the concurrency is 0.
pub Runs-ends :
    {requests concurrency : ℕ} {b : Burst} {n : ℕ} (elapsed : ℕ)
    → requests < 2 ^ 64
    → Runs requests concurrency b n
    → Metered requests concurrency b
      × (n + work b ≤ 4 * requests)
      × (Ended requests elapsed b ⊎ (CanStep b ⊎ ((concurrency ≡ 0) × Hangs b)))
Runs-ends {requests} {concurrency} {b} elapsed fits runs =
    let metered = Runs-Metered fits runs in
    (metered, Runs-work runs, Metered-goes_on requests concurrency elapsed b metered)
