-- ===== src/Health/History.antt =====
-- The health of src/health.rs after any sequence of reported requests.
use drm3_rpc_pool.Prelude.{
  ℕ, suc, ◌+◌, ◌-◌, ◌%◌, ◌^◌, ◌≤◌, ◌<◌, ◌≡◌, refl, min, String, List, [], ◌∷◌, true, false, Option,
  none, some, ◌↔◌, arith, length,
}
use drm3_rpc_pool.Health.{
  BackoffPolicy, EndpointHealth, new_health, saturating_add, record_success, record_failure,
  is_available_at, delay_for,
}
use drm3_rpc_pool.Health.Backoff.{delay_for-le-max}

-- One reported request: its latency, its error if it failed, and the instant of the report.
pub data Report : Type 0 where
  succeeded : ℕ → ℕ → Report
  failed : String → ℕ → ℕ → Report

unfoldable pub apply_report : EndpointHealth → Report → EndpointHealth
apply_report health (succeeded latency now) = record_success health latency now
apply_report health (failed error latency now) = record_failure health error latency now

-- The newest report stands first.
unfoldable pub replay : BackoffPolicy → List Report → EndpointHealth
unfolding apply_report
replay policy [] = new_health policy
replay policy (report ∷ older) = apply_report (replay policy older) report

-- The failures since the last success.
abbrev pub streak : List Report → ℕ
streak [] = 0
streak (succeeded latency now ∷ older) = 0
streak (failed error latency now ∷ older) = suc (streak older)

abbrev pub successes : List Report → ℕ
successes [] = 0
successes (succeeded latency now ∷ older) = suc (successes older)
successes (failed error latency now ∷ older) = successes older

abbrev pub failures : List Report → ℕ
failures [] = 0
failures (succeeded latency now ∷ older) = failures older
failures (failed error latency now ∷ older) = suc (failures older)

abbrev pub last_failure : List Report → Option ℕ
last_failure [] = none
last_failure (succeeded latency now ∷ older) = last_failure older
last_failure (failed error latency now ∷ older) = some now

pub record Tracks (policy : BackoffPolicy) (reports : List Report) (health : EndpointHealth)
    : Type 0 where
  pub same_policy : health.policy ≡ policy
  pub consecutive : health.inner.consecutive_failures ≡ min (streak reports) (2 ^ 32 - 1)
  pub failed_at : health.inner.last_failure_at ≡ last_failure reports
  pub requests : health.inner.total_requests ≡ length reports % 2 ^ 64
  pub succeeded : health.inner.total_successes ≡ successes reports % 2 ^ 64
  pub failed : health.inner.total_failures ≡ failures reports % 2 ^ 64
  pub balanced :
      health.inner.total_requests
      ≡ (health.inner.total_successes + health.inner.total_failures) % 2 ^ 64

-- The fields after any history are those of the history: the failures since the last success
-- (saturating at the largest 32-bit value), the last failure's instant, and the totals modulo
-- 2^64, where the requests are the successes and the failures together.
pub replay-Tracks :
    (policy : BackoffPolicy) (reports : List Report) → Tracks policy reports (replay policy reports)
unfolding replay record_success record_failure saturating_add
replay-Tracks policy [] = ground arith
replay-Tracks policy (succeeded latency now ∷ older) = ground (arith, replay-Tracks policy older)
replay-Tracks policy (failed error latency now ∷ older) = ground (arith, replay-Tracks policy older)

streak-last_failure :
    (reports : List Report) → 0 < streak reports → (t : ℕ) × (last_failure reports ≡ some t)
streak-last_failure [] h = elim h [ ]
streak-last_failure (succeeded latency now ∷ older) h = elim h [ ]
streak-last_failure (failed error latency now ∷ older) h = (now, refl)

abbrev pub InCooldown : BackoffPolicy → List Report → ℕ → Type 0
InCooldown policy reports now =
    (t : ℕ) × (last_failure reports ≡ some t)
    × (policy.demotion_threshold < min (streak reports) (2 ^ 32 - 1))
    × (now - t < delay_for policy (min (streak reports) (2 ^ 32 - 1)))

-- An endpoint is refused exactly when its failures since the last success exceed the threshold
-- and less time has passed since the last failure than the cooldown for that many failures.
pub is_available_at-eq-false_iff :
    (policy : BackoffPolicy) (reports : List Report) (now : ℕ)
    → (is_available_at (replay policy reports) now ≡ false) ↔ InCooldown policy reports now
unfolding is_available_at
is_available_at-eq-false_iff policy reports now = (
  λ e. ground (arith, replay-Tracks policy reports, streak-last_failure reports),
  λ c. ground (arith, replay-Tracks policy reports),
)

-- Once the cap has passed since the last failure, an endpoint is available, whatever its history.
pub is_available_at-after_cap :
    (policy : BackoffPolicy) (reports : List Report) (t now : ℕ)
    → last_failure reports ≡ some t
    → t + policy.max_delay ≤ now
    → is_available_at (replay policy reports) now ≡ true
unfolding is_available_at
is_available_at-after_cap policy reports t now e h = ground (
  arith,
  replay-Tracks policy reports,
  delay_for-le-max policy (min (streak reports) (2 ^ 32 - 1)),
)
