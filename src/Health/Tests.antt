-- ===== src/Health/Tests.antt =====
-- The backoff of src/health.rs at its default policy, and the theorems at concrete histories.
use drm3_rpc_pool.Prelude.{◌-◌, ◌*◌, ◌^◌, ◌≡◌, ◌↔◌, refl, min, true, false, List, [], ◌∷◌, arith}
use drm3_rpc_pool.Health.{
  default_policy, tight, seconds, millis, delay_for, backoff_factor, scaled_delay, is_available_at,
  record_success, record_failure, saturating_add,
}
use drm3_rpc_pool.Health.Backoff.{delay_for-eq-doubling}
use drm3_rpc_pool.Health.History.{
  Report, succeeded, failed, replay, Tracks, InCooldown, replay-Tracks,
  is_available_at-eq-false_iff, is_available_at-after_cap,
}

delay_default : delay_for default_policy 4 ≡ 8 * seconds
unfolding delay_for scaled_delay backoff_factor
delay_default = refl

delay_capped : delay_for tight 1000 ≡ 200 * millis
unfolding delay_for scaled_delay backoff_factor
delay_capped = refl

-- Three failures, the last at one second.
abbrev failing : List Report
failing = failed "boom" 5 (1 * seconds) ∷ failed "boom" 5 0 ∷ failed "boom" 5 0 ∷ succeeded 7 0 ∷ []

cooling : is_available_at (replay default_policy failing) (2 * seconds) ≡ false
unfolding is_available_at replay record_success record_failure saturating_add delay_for scaled_delay
    backoff_factor
cooling = refl

delay_for-eq-doubling_example :
    delay_for default_policy 40
    ≡ min
        (default_policy.base_delay * 2 ^ (40 - default_policy.demotion_threshold))
        default_policy.max_delay
delay_for-eq-doubling_example =
    delay_for-eq-doubling default_policy 40 (omega arith) (omega arith) (omega arith)

replay-Tracks_example : Tracks default_policy failing (replay default_policy failing)
replay-Tracks_example = replay-Tracks default_policy failing

is_available_at-eq-false_iff_example :
    (is_available_at (replay default_policy failing) 5 ≡ false)
    ↔ InCooldown default_policy failing 5
is_available_at-eq-false_iff_example = is_available_at-eq-false_iff default_policy failing 5

is_available_at-after_cap_example :
    is_available_at (replay default_policy failing) (1000 * seconds) ≡ true
unfolding default_policy
is_available_at-after_cap_example =
    is_available_at-after_cap default_policy failing (1 * seconds) (1000 * seconds) refl
      (omega arith)
