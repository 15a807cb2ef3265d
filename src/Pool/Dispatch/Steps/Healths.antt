-- ===== src/Pool/Dispatch/Steps/Healths.antt =====
-- What a round of the loop in src/pool/mod.rs does to the health of the endpoints.
use drm3_rpc_pool.Prelude.{
  ℕ, suc, ◌-◌, ◌≡◌, refl, ◌∙◌, String, List, map, Result, ok, err, get_elem?, Bool-cases,
  Option-cases, Result-cases, inl, inr,
}
use drm3_rpc_pool.Health.{EndpointHealth, record_success, record_failure}
use drm3_rpc_pool.Health.History.{Report, succeeded as success, failed as failure, apply_report}
use drm3_rpc_pool.Wire.{Bytes, Serde, ResponseError, response_error_text}
use drm3_rpc_pool.Pool.State.{PoolEntry, Sys, enter, leave, modify, modify_entry, emit, read_clock}
use drm3_rpc_pool.Pool.State.Frame.{map-modify, map-modify_unseen}
use drm3_rpc_pool.Pool.Dispatch.{
  Loop, Waiting, throttle, out_of_budget, send, start_attempt, record_answer, record_error,
  fail_over, finish_attempt,
}

abbrev pub healths : Sys → List EndpointHealth
healths sys = map (λ e. e.health) sys.pool.entries

module _ (clock : ℕ → ℕ) where
  throttle-healths :
      (i : ℕ) (entry : PoolEntry) (sys : Sys) → healths (throttle clock i entry sys).0 ≡ healths sys
  unfolding throttle modify_entry read_clock
  throttle-healths i entry sys = elim (Option-cases entry.rate_limiter) [
    | inl free ↦ rw (free, throttle) refl
    | inr (limiter, bound) ↦
        rw (bound, throttle) (map-modify_unseen (λ e. e.health) _ sys.pool.entries i (λ x. refl))
  ]

  module _ {Value : Type 0} (serde : Serde Value) (method : String) (params : Value) where
    send-healths :
        (i : ℕ) (entry : PoolEntry) (loop : Loop) (sys : Sys)
        → healths (send clock serde method params i entry loop sys).0 ≡ healths sys
    unfolding send emit modify_entry read_clock enter
    send-healths i entry loop sys =
        elim (Result-cases (
          serde.to_vec (record {
            jsonrpc = "2.0";
            id = sys.pool.request_id;
            method = method;
            params = params;
          }))) [
            | inr (m, e) ↦ rw (e, send) refl
            | inl (body, e) ↦
                rw (e, send) (map-modify_unseen (λ e. e.health) _ sys.pool.entries i (λ x. refl))
          ]

    pub start_attempt-healths :
        (i : ℕ) (loop : Loop) (sys : Sys)
        → healths (start_attempt clock serde method params i loop sys).0 ≡ healths sys
    unfolding start_attempt
    start_attempt-healths i loop sys = elim (Option-cases (get_elem? sys.pool.entries i)) [
      | inl nothing ↦ rw (nothing, start_attempt) refl
      | inr (entry, at) ↦
          let same = throttle-healths i entry sys in
          elim (Bool-cases (throttle clock i entry sys).1) [
            | inr denied ↦ rw (at, start_attempt, denied) same
            | inl granted ↦ elim (Bool-cases (out_of_budget (throttle clock i entry sys).0 loop)) [
              | inl over ↦ rw (at, start_attempt, granted, over) same
              | inr within ↦
                  rw (at, start_attempt, granted, within)
                    (send-healths i entry loop (throttle clock i entry sys).0 ∙ same)
            ]
          ]
    ]

  module _ {A : Type 0} (handle : Bytes → Result A ResponseError) where
    -- The report that a reply makes: the first reading of the clock is the latency's, the second
    -- the report's instant.
    unfoldable pub report_of : Result Bytes String → Waiting → Sys → Report
    report_of reply w sys =
        let latency = clock sys.reads - w.started_at in
        let now = clock (suc sys.reads) in
        elim reply [
          | ok bytes ↦ elim (handle bytes) [
            | ok a ↦ success latency now
            | err e ↦ failure (response_error_text e) latency now
          ]
          | err message ↦ failure message latency now
        ]

    record_answer-healths :
        (method : String) (w : Waiting) (latency : ℕ) (sys : Sys)
        → healths (record_answer clock method w latency sys)
          ≡ modify (healths sys) w.index (λ h. record_success h latency (clock sys.reads))
    unfolding record_answer emit modify_entry read_clock leave
    record_answer-healths method w latency sys =
        map-modify (λ e. e.health) _ _ sys.pool.entries w.index (λ x. refl)

    record_error-healths :
        (method : String) (w : Waiting) (latency : ℕ) (message : String) (sys : Sys)
        → healths (record_error clock method w latency message sys)
          ≡ modify (healths sys) w.index (λ h. record_failure h message latency (clock sys.reads))
    unfolding record_error emit modify_entry read_clock leave
    record_error-healths method w latency message sys =
        map-modify (λ e. e.health) _ _ sys.pool.entries w.index (λ x. refl)

    pub finish_attempt-healths :
        (method : String) (reply : Result Bytes String) (w : Waiting) (sys : Sys)
        → healths (finish_attempt clock handle method reply w sys).0
          ≡ modify (healths sys) w.index (λ h. apply_report h (report_of reply w sys))
    unfolding finish_attempt fail_over read_clock report_of apply_report
    finish_attempt-healths method (err message) w sys = record_error-healths method w _ message _
    finish_attempt-healths method (ok bytes) w sys = elim (Result-cases (handle bytes)) [
      | inl (a, e) ↦ rw (e, finish_attempt, report_of) (record_answer-healths method w _ _)
      | inr (m, e) ↦ rw (e, finish_attempt, report_of) (record_error-healths method w _ _ _)
    ]
