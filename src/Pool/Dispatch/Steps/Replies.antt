-- ===== src/Pool/Dispatch/Steps/Replies.antt =====
-- What the second half of a round of the loop in src/pool/mod.rs does: the reply and its bookkeeping.
use drm3_rpc_pool.Prelude.{
  ℕ, arith, ◌≡◌, ◌⊎◌, refl, String, [], ◌∷◌, ◌++◌, Result, ok, err, inl, inr, Result-cases,
}
use drm3_rpc_pool.Wire.{Bytes, ResponseError, response_error_text}
use drm3_rpc_pool.Metrics.{on_success, on_failure}
use drm3_rpc_pool.Pool.State.{Sys, leave, modify_entry, emit, read_clock}
use drm3_rpc_pool.Pool.State.Frame.{fixed, map-modify, map-modify_unseen}
use drm3_rpc_pool.Pool.Dispatch.{
  Waiting, Finished, succeeded, failed_over, record_answer, record_error, fail_over, finish_attempt,
}
use drm3_rpc_pool.Pool.Dispatch.Steps.{down, Landed}

module _ (clock : ℕ → ℕ) where
  module _ (method : String) where
    record_answer-Landed :
        (w : Waiting) (latency : ℕ) (s : Sys)
        → Landed w s (record_answer clock method w latency (read_clock clock s).0)
    unfolding record_answer emit modify_entry read_clock leave
    record_answer-Landed w latency s = record {
      frame = record {
        same_layout = map-modify_unseen fixed _ s.pool.entries w.index (λ x. refl);
        same_budget = refl;
      };
      loads_down = map-modify (λ e. e.in_flight) _ down s.pool.entries w.index (λ x. refl);
      same_id = refl;
      same_limiters = map-modify_unseen (λ e. e.rate_limiter) _ s.pool.entries w.index (λ x. refl);
      later = omega arith;
    }

    record_error-Landed :
        (w : Waiting) (latency : ℕ) (message : String) (s : Sys)
        → Landed w s (record_error clock method w latency message (read_clock clock s).0)
    unfolding record_error emit modify_entry read_clock leave
    record_error-Landed w latency message s = record {
      frame = record {
        same_layout = map-modify_unseen fixed _ s.pool.entries w.index (λ x. refl);
        same_budget = refl;
      };
      loads_down = map-modify (λ e. e.in_flight) _ down s.pool.entries w.index (λ x. refl);
      same_id = refl;
      same_limiters = map-modify_unseen (λ e. e.rate_limiter) _ s.pool.entries w.index (λ x. refl);
      later = omega arith;
    }

    record_error-events :
        (w : Waiting) (latency : ℕ) (message : String) (s : Sys)
        → (record_error clock method w latency message (read_clock clock s).0).events
          ≡ s.events ++ on_failure w.endpoint_tag method latency message ∷ []
    unfolding record_error emit modify_entry read_clock
    record_error-events w latency message s = refl

    record_answer-events :
        (w : Waiting) (latency : ℕ) (s : Sys)
        → (record_answer clock method w latency (read_clock clock s).0).events
          ≡ s.events ++ on_success w.endpoint_tag method latency ∷ []
    unfolding record_answer emit modify_entry read_clock
    record_answer-events w latency s = refl

  module _ {A : Type 0} (handle : Bytes → Result A ResponseError) (method : String) where
    -- How a reply counts as a failure: of the transport, or of the body.
    abbrev pub FailsWith : Result Bytes String → String → Type 0
    FailsWith reply message =
        (reply ≡ err message)
        ⊎ ((bytes : Bytes) × (e : ResponseError) × (reply ≡ ok bytes)
            × (handle bytes ≡ err e)
            × (message ≡ response_error_text e))

    abbrev pub FinishFacts : Result Bytes String → Waiting → Sys → Sys → Finished A → Type 0
    FinishFacts reply w s t (succeeded a) =
        Landed w s t
        × ((bytes : Bytes) × (reply ≡ ok bytes) × (handle bytes ≡ ok a))
        × ((latency : ℕ) × (t.events ≡ s.events ++ on_success w.endpoint_tag method latency ∷ []))
    FinishFacts reply w s t (failed_over loop) =
        Landed w s t
        × ((message : String) × FailsWith reply message
            × (loop
                ≡ record (w.progress) { attempts = w.progress.attempts ++ (w.url, message) ∷ [] })
            × ((latency : ℕ) × (t.events
                  ≡ s.events ++ on_failure w.endpoint_tag method latency message ∷ [])))

    pub finish_attempt-facts :
        (reply : Result Bytes String) (w : Waiting) (sys : Sys)
        → FinishFacts reply w sys
            (finish_attempt clock handle method reply w sys).0
            (finish_attempt clock handle method reply w sys).1
    unfolding finish_attempt fail_over
    finish_attempt-facts (err message) w sys = (
      record_error-Landed method w _ message sys,
      (message, inl refl, refl, (_, record_error-events method w _ message sys)),
    )
    finish_attempt-facts (ok bytes) w sys = elim (Result-cases (handle bytes)) [
      | inl (a, e) ↦
          rw (e, finish_attempt)
            (
              record_answer-Landed method w _ sys,
              (bytes, refl, e),
              (_, record_answer-events method w _ sys),
            )
      | inr (m, e) ↦
          let message = response_error_text m in
          rw (e, finish_attempt)
            (
              record_error-Landed method w _ message sys,
              (
                message,
                inr (bytes, m, refl, e, refl),
                refl,
                (_, record_error-events method w _ message sys),
              ),
            )
    ]
