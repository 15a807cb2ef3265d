-- ===== src/Health.antt =====
-- src/health.rs: one endpoint's health and its exponential backoff. An instant and a duration are
-- numbers of nanoseconds; each method that reads the clock takes the instant as an argument.
pub mod Backoff
pub mod History
mod Tests
use drm3_rpc_pool.Prelude.{
  ℕ, ◌+◌, ◌-◌, ◌*◌, ◌/◌, ◌%◌, ◌^◌, min, String, Bool, true, Option, none, some, ltb, leb, ◌==◌,
  if◌then◌else◌,
}

abbrev pub millis : ℕ
millis = 1_000_000

abbrev pub seconds : ℕ
seconds = 1_000_000_000

-- `Duration` holds less than 2^64 seconds.
abbrev pub duration_end : ℕ
duration_end = 2 ^ 64 * seconds

pub record BackoffPolicy : Type 0 where
  pub demotion_threshold : ℕ
  pub base_delay : ℕ
  pub max_delay : ℕ

abbrev pub default_policy : BackoffPolicy
default_policy = record {
  demotion_threshold = 2;
  base_delay = 2 * seconds;
  max_delay = 300 * seconds;
}

abbrev pub tight : BackoffPolicy
tight = record { demotion_threshold = 1; base_delay = 10 * millis; max_delay = 200 * millis }

-- `1u32.checked_shl(over).unwrap_or(u32::MAX)`.
unfoldable pub backoff_factor : ℕ → ℕ
backoff_factor over = if ltb over 32 then 2 ^ over else 2 ^ 32 - 1

-- `checked_mul` of a duration, with the cap where it overflows.
unfoldable pub scaled_delay : BackoffPolicy → ℕ → ℕ
scaled_delay policy factor =
    if ltb (policy.base_delay * factor) duration_end
    then policy.base_delay * factor
    else policy.max_delay

unfoldable pub delay_for : BackoffPolicy → ℕ → ℕ
delay_for policy consecutive_failures =
    if consecutive_failures == 0
    then 0
    else (let over = consecutive_failures - policy.demotion_threshold in
        min (scaled_delay policy (backoff_factor over)) policy.max_delay)

pub record Inner : Type 0 where
  pub consecutive_failures : ℕ
  pub last_success_at : Option ℕ
  pub last_failure_at : Option ℕ
  pub last_error : Option String
  pub total_requests : ℕ
  pub total_successes : ℕ
  pub total_failures : ℕ
  pub total_latency_ms : ℕ

pub record EndpointHealth : Type 0 where
  pub inner : Inner
  pub policy : BackoffPolicy

-- `EndpointHealth::new`.
abbrev pub new_health : BackoffPolicy → EndpointHealth
new_health policy = record {
  inner = record {
    consecutive_failures = 0;
    last_success_at = none;
    last_failure_at = none;
    last_error = none;
    total_requests = 0;
    total_successes = 0;
    total_failures = 0;
    total_latency_ms = 0;
  };
  policy = policy;
}

-- Subtraction on ℕ is `saturating_duration_since`.
unfoldable pub is_available_at : EndpointHealth → ℕ → Bool
is_available_at health now =
    if leb health.inner.consecutive_failures health.policy.demotion_threshold
    then true
    else elim health.inner.last_failure_at [
      | none ↦ true
      | some last_failure ↦
          leb (delay_for health.policy health.inner.consecutive_failures) (now - last_failure)
    ]

-- `saturating_add` on w bits.
unfoldable pub saturating_add : ℕ → ℕ → ℕ → ℕ
saturating_add w a b = min (a + b) (2 ^ w - 1)

unfoldable pub record_success : EndpointHealth → ℕ → ℕ → EndpointHealth
record_success health latency now = record health {
  inner = record (health.inner) {
    consecutive_failures = 0;
    last_success_at = some now;
    last_error = none;
    total_requests = (health.inner.total_requests + 1) % 2 ^ 64;
    total_successes = (health.inner.total_successes + 1) % 2 ^ 64;
    total_latency_ms = saturating_add 128 health.inner.total_latency_ms (latency / millis);
  };
}

unfoldable pub record_failure : EndpointHealth → String → ℕ → ℕ → EndpointHealth
record_failure health error latency now = record health {
  inner = record (health.inner) {
    consecutive_failures = saturating_add 32 health.inner.consecutive_failures 1;
    last_failure_at = some now;
    last_error = some error;
    total_requests = (health.inner.total_requests + 1) % 2 ^ 64;
    total_failures = (health.inner.total_failures + 1) % 2 ^ 64;
    total_latency_ms = saturating_add 128 health.inner.total_latency_ms (latency / millis);
  };
}

-- The quotient of two numbers, which the source computes in floating point.
pub record Ratio : Type 0 where
  pub over : ℕ
  pub under : ℕ

pub record EndpointStatus : Type 0 where
  pub consecutive_failures : ℕ
  pub total_requests : ℕ
  pub total_successes : ℕ
  pub total_failures : ℕ
  pub average_latency_ms : Ratio
  pub last_error : Option String
  pub last_success_age_ms : Option ℕ
  pub last_failure_age_ms : Option ℕ

-- `t.elapsed().as_millis() as u64`.
unfoldable pub age_ms : ℕ → Option ℕ → Option ℕ
age_ms now none = none
age_ms now (some t) = some ((now - t) / millis % 2 ^ 64)

unfoldable pub snapshot : EndpointHealth → ℕ → ℕ → EndpointStatus
unfolding age_ms
snapshot health success_read failure_read =
    let inner = health.inner in
    record {
      consecutive_failures = inner.consecutive_failures;
      total_requests = inner.total_requests;
      total_successes = inner.total_successes;
      total_failures = inner.total_failures;
      average_latency_ms =
          if inner.total_requests == 0
          then record { over = 0; under = 1 }
          else record { over = inner.total_latency_ms; under = inner.total_requests };
      last_error = inner.last_error;
      last_success_age_ms = age_ms success_read inner.last_success_at;
      last_failure_age_ms = age_ms failure_read inner.last_failure_at;
    }
