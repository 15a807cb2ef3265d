-- ===== src/Pool/Dispatch/Steps/Sinks.antt =====
-- What a round of the loop in src/pool/mod.rs makes a rollup of src/rollup.rs receive.
use drm3_rpc_pool.Prelude.{
  ℕ, suc, ◌≡◌, refl, ◌∙◌, String, List, [], ◌∷◌, ◌++◌, Result, ok, err, get_elem?, Bool-cases,
  Option-cases, Result-cases, inl, inr,
}
use drm3_rpc_pool.Config.{RpcCapability, supports}
use drm3_rpc_pool.Health.{is_available_at}
use drm3_rpc_pool.Health.History.{Report, succeeded as success, failed as failure}
use drm3_rpc_pool.Wire.{Bytes, Serde, ResponseError}
use drm3_rpc_pool.Metrics.{Event, on_success, on_failure}
use drm3_rpc_pool.Metrics.Sinks.{Metrics, rollup_metrics, fire, fire_all}
use drm3_rpc_pool.Rollup.{Windows, receive}
use drm3_rpc_pool.Pool.State.{PoolEntry, Sys, modify_entry, emit, read_clock}
use drm3_rpc_pool.Pool.Candidates.{scan, ordered_candidates}
use drm3_rpc_pool.Pool.Dispatch.{
  Loop, Waiting, throttle, out_of_budget, send, start_attempt, record_answer, record_error,
  fail_over, finish_attempt,
}
use drm3_rpc_pool.Pool.Dispatch.Steps.Healths.{report_of}

fire_all-append :
    {S : Type 0} (metrics : Metrics S) (s : S) (log more : List Event)
    → fire_all metrics s (log ++ more) ≡ fire_all metrics (fire_all metrics s log) more
fire_all-append metrics s [] more = refl
fire_all-append metrics s (event ∷ log) more =
    fire_all-append metrics (fire metrics s event) log more

-- The rollup that has received a pool's calls.
abbrev pub windows : Sys → Windows
windows sys = fire_all rollup_metrics [] sys.events

scan-windows :
    (kept : Windows) (i : ℕ) (entries : List PoolEntry) (capability : RpcCapability) (now : ℕ)
    (method : String)
    → fire_all rollup_metrics kept (scan i entries capability now method).skips ≡ kept
unfolding scan
scan-windows kept i [] capability now method = refl
scan-windows kept i (entry ∷ entries) capability now method =
    let rest = scan-windows kept (suc i) entries capability now method in
    elim (Bool-cases (supports entry.endpoint capability)) [
      | inr incapable ↦ rw (incapable, scan) rest
      | inl capable ↦ elim (Bool-cases (is_available_at entry.health now)) [
        | inr cooling ↦ rw (capable, cooling, scan) rest
        | inl available ↦ rw (capable, available, scan) rest
      ]
    ]

pub ordered_candidates-windows :
    (sys : Sys) (capability : RpcCapability) (now : ℕ) (method : String)
    → windows (ordered_candidates sys capability now method).0 ≡ windows sys
unfolding ordered_candidates
ordered_candidates-windows sys capability now method =
    fire_all-append rollup_metrics [] sys.events _
    ∙ scan-windows (windows sys) 0 sys.pool.entries capability now method

emit-windows :
    (sys : Sys) (event : Event) → windows (emit sys event) ≡ fire rollup_metrics (windows sys) event
unfolding emit
emit-windows sys event = fire_all-append rollup_metrics [] sys.events (event ∷ [])

-- The hook that is fired with a report.
abbrev pub hook : String → String → Report → Event
hook tag method (success latency now) = on_success tag method latency
hook tag method (failure error latency now) = on_failure tag method latency error

module _ (clock : ℕ → ℕ) where
  throttle-windows :
      (i : ℕ) (entry : PoolEntry) (sys : Sys) → windows (throttle clock i entry sys).0 ≡ windows sys
  unfolding throttle modify_entry read_clock
  throttle-windows i entry sys = elim (Option-cases entry.rate_limiter) [
    | inl free ↦ rw (free, throttle) refl
    | inr (limiter, bound) ↦ rw (bound, throttle) refl
  ]

  module _ {Value : Type 0} (serde : Serde Value) (method : String) (params : Value) where
    send-windows :
        (i : ℕ) (entry : PoolEntry) (loop : Loop) (sys : Sys)
        → windows (send clock serde method params i entry loop sys).0 ≡ windows sys
    unfolding send emit modify_entry read_clock
    send-windows i entry loop sys =
        elim (Result-cases (
          serde.to_vec (record {
            jsonrpc = "2.0";
            id = sys.pool.request_id;
            method = method;
            params = params;
          }))) [
            | inr (m, e) ↦ rw (e, send) (emit-windows sys _)
            | inl (body, e) ↦ rw (e, send) (emit-windows sys _)
          ]

    pub start_attempt-windows :
        (i : ℕ) (loop : Loop) (sys : Sys)
        → windows (start_attempt clock serde method params i loop sys).0 ≡ windows sys
    unfolding start_attempt
    start_attempt-windows i loop sys = elim (Option-cases (get_elem? sys.pool.entries i)) [
      | inl nothing ↦ rw (nothing, start_attempt) refl
      | inr (entry, at) ↦
          let same = throttle-windows i entry sys in
          elim (Bool-cases (throttle clock i entry sys).1) [
            | inr denied ↦ rw (at, start_attempt, denied) same
            | inl granted ↦ elim (Bool-cases (out_of_budget (throttle clock i entry sys).0 loop)) [
              | inl over ↦ rw (at, start_attempt, granted, over) same
              | inr within ↦
                  rw (at, start_attempt, granted, within)
                    (send-windows i entry loop (throttle clock i entry sys).0 ∙ same)
            ]
          ]
    ]

  module _ {A : Type 0} (handle : Bytes → Result A ResponseError) where
    pub finish_attempt-windows :
        (method : String) (reply : Result Bytes String) (w : Waiting) (sys : Sys)
        → windows (finish_attempt clock handle method reply w sys).0
          ≡ receive (windows sys) (hook w.endpoint_tag method (report_of clock handle reply w sys))
    unfolding finish_attempt fail_over record_answer record_error read_clock modify_entry report_of
        emit
    finish_attempt-windows method (err message) w sys = emit-windows sys _
    finish_attempt-windows method (ok bytes) w sys = elim (Result-cases (handle bytes)) [
      | inl (a, e) ↦ rw (e, finish_attempt, report_of) (emit-windows sys _)
      | inr (m, e) ↦ rw (e, finish_attempt, report_of) (emit-windows sys _)
    ]
