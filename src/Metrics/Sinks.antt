-- ===== src/Metrics/Sinks.antt =====
-- src/metrics.rs and src/rollup.rs: the sinks of the metrics, as implementations of one interface.
pub mod Recorded
use drm3_rpc_pool.Prelude.{ℕ, String, List, [], ◌∷◌, ◌++◌}
use drm3_rpc_pool.Metrics.{
  Event, on_request, on_success, on_failure, on_skipped_incapable, on_skipped_cooldown,
}
use drm3_rpc_pool.Rollup.{Windows, receive}

-- The trait `Metrics` on a sink with a state: what each of its methods makes of the state.
pub record Metrics (S : Type 0) : Type 0 where
  pub request : String → String → S → S
  pub success : String → String → ℕ → S → S
  pub failure : String → String → ℕ → String → S → S
  pub skipped_incapable : String → String → S → S
  pub skipped_cooldown : String → String → S → S

-- The default bodies of the trait's last two methods.
abbrev pub ignore : {S : Type 0} → String → String → S → S
ignore endpoint_tag method s = s

abbrev pub noop_metrics : Metrics (Unit {0})
noop_metrics = record {
  request = λ tag method s. s;
  success = λ tag method latency s. s;
  failure = λ tag method latency error s. s;
  skipped_incapable = ignore;
  skipped_cooldown = ignore;
}

abbrev pub recording_metrics : Metrics (List Event)
recording_metrics = record {
  request = λ tag method events. events ++ on_request tag method ∷ [];
  success = λ tag method latency events. events ++ on_success tag method latency ∷ [];
  failure = λ tag method latency error events. events ++ on_failure tag method latency error ∷ [];
  skipped_incapable = λ tag method events. events ++ on_skipped_incapable tag method ∷ [];
  skipped_cooldown = λ tag method events. events ++ on_skipped_cooldown tag method ∷ [];
}

-- The rollup overrides neither default.
abbrev pub rollup_metrics : Metrics Windows
rollup_metrics = record {
  request = λ tag method windows. windows;
  success = λ tag method latency windows. receive windows (on_success tag method latency);
  failure =
      λ tag method latency error windows. receive windows (on_failure tag method latency error);
  skipped_incapable = ignore;
  skipped_cooldown = ignore;
}

module _ {S : Type 0} (metrics : Metrics S) where
  abbrev pub fire : S → Event → S
  fire s (on_request tag method) = metrics.request tag method s
  fire s (on_success tag method latency) = metrics.success tag method latency s
  fire s (on_failure tag method latency error) = metrics.failure tag method latency error s
  fire s (on_skipped_incapable tag method) = metrics.skipped_incapable tag method s
  fire s (on_skipped_cooldown tag method) = metrics.skipped_cooldown tag method s

  -- A sink after calls of its methods, the oldest first.
  abbrev pub fire_all : S → List Event → S
  fire_all s [] = s
  fire_all s (event ∷ events) = fire_all (fire s event) events
