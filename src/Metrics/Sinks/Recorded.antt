-- ===== src/Metrics/Sinks/Recorded.antt =====
-- What the sinks of src/metrics.rs and src/rollup.rs keep of a pool's calls.
use mathlib.Core.List.{append-nil, append_assoc}
use drm3_rpc_pool.Prelude.{◌≡◌, refl, sym, ◌∙◌, List, [], ◌∷◌, ◌++◌}
use drm3_rpc_pool.Metrics.{
  Event, on_request, on_success, on_failure, on_skipped_incapable, on_skipped_cooldown,
}
use drm3_rpc_pool.Metrics.Sinks.{recording_metrics, fire, fire_all}

fire-recording :
    (events : List Event) (e : Event) → fire recording_metrics events e ≡ events ++ e ∷ []
fire-recording events (on_request tag method) = refl
fire-recording events (on_success tag method latency) = refl
fire-recording events (on_failure tag method latency error) = refl
fire-recording events (on_skipped_incapable tag method) = refl
fire-recording events (on_skipped_cooldown tag method) = refl

-- The recording sink keeps the calls it receives, in their order.
pub fire_all-recording :
    (events log : List Event) → fire_all recording_metrics events log ≡ events ++ log
fire_all-recording events [] = sym (append-nil events)
fire_all-recording events (e ∷ log) =
    rw (fire-recording events e)
      (fire_all-recording (events ++ e ∷ []) log ∙ append_assoc events (e ∷ []) log)
