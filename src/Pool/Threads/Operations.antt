-- ===== src/Pool/Threads/Operations.antt =====
-- The operations of a call of src/pool/mod.rs on what the threads share, one by one, in the order of
-- the code. The phases of a call are the places between two of them, with the local variables that
-- are still needed there.
use drm3_rpc_pool.Prelude.{
  ℕ, suc, ◌+◌, ◌%◌, ◌^◌, String, not, List, [], ◌∷◌, ◌++◌, none, some, Result, ok, err,
  if◌then◌else◌, get_elem?,
}
use drm3_rpc_pool.Config.{for_method, supports, tag}
use drm3_rpc_pool.Health.{is_available_at, record_success, record_failure}
use drm3_rpc_pool.Wire.{Bytes, Serde, ResponseError, response_error_text}
use drm3_rpc_pool.Metrics.{
  on_request, on_success, on_failure, on_skipped_incapable, on_skipped_cooldown,
}
use drm3_rpc_pool.Pool.RateLimit.{try_acquire_at}
use drm3_rpc_pool.Pool.State.{PoolEntry, Sys, modify_entry, emit, read_clock}
use drm3_rpc_pool.Pool.Dispatch.{Loop, Waiting, out_of_budget}

-- What a reply came to: an answer, or the text of a failure.
pub data Verdict : Type 0 where
  answered : Verdict
  failed : String → Verdict

abbrev pub verdict_of {ℓ} :
    {A : Type ℓ} → (Bytes → Result A ResponseError) → Result Bytes String → Verdict
verdict_of handle (ok bytes) = elim (handle bytes) [
  | ok a ↦ answered
  | err e ↦ failed (response_error_text e)
]
verdict_of handle (err message) = failed message

-- The update under the lock of the health, which reads the clock inside.
unfoldable pub keep_record : (ℕ → ℕ) → Waiting → ℕ → Verdict → Sys → Sys
keep_record clock w latency answered sys =
    let (sys', now) = read_clock clock sys in
    modify_entry sys' w.index (λ e. record e { health = record_success e.health latency now })
keep_record clock w latency (failed message) sys =
    let (sys', now) = read_clock clock sys in
    modify_entry sys' w.index
      (λ e. record e { health = record_failure e.health message latency now })

unfoldable pub report : String → Waiting → ℕ → Verdict → Sys → Sys
report method w latency answered sys = emit sys (on_success w.endpoint_tag method latency)
report method w latency (failed message) sys =
    emit sys (on_failure w.endpoint_tag method latency message)

pub data Phase (Value : Type 0) : Type 0 where
  scanning : String → Value → ℕ → ℕ → List ℕ → Phase Value
  noting : String → Value → ℕ → ℕ → List ℕ → Phase Value
  sorting : String → Value → List ℕ → Phase Value
  ready : String → Value → List ℕ → Loop → Phase Value
  throttling : String → Value → ℕ → List ℕ → Loop → ℕ → Phase Value
  granted : String → Value → ℕ → List ℕ → Loop → Phase Value
  announced : String → Value → ℕ → List ℕ → Loop → Phase Value
  numbered : String → Value → ℕ → List ℕ → Loop → Bytes → Phase Value
  timed : String → Value → Waiting → List ℕ → Phase Value
  awaiting : String → Value → Waiting → List ℕ → Phase Value
  replied : String → Value → Waiting → List ℕ → Result Bytes String → Phase Value
  measured : String → Value → Waiting → List ℕ → ℕ → Verdict → Phase Value
  recorded : String → Value → Waiting → List ℕ → ℕ → Verdict → Phase Value
  reported : String → Value → Waiting → List ℕ → Verdict → Phase Value
  over : Phase Value

module _ {Value : Type 0} where
  -- An index out of range is a panic, which ends the call.
  abbrev pub at_entry : Sys → ℕ → (PoolEntry → Sys × Phase Value) → Sys × Phase Value
  at_entry sys i go = elim (get_elem? sys.pool.entries i) [
    | none ↦ (sys, over)
    | some entry ↦ go entry
  ]

  -- One entry of the loop of `ordered_candidates`: its health is read under its lock.
  unfoldable pub look : String → Value → ℕ → ℕ → List ℕ → Sys → Sys × Phase Value
  look method params now i found sys = elim (get_elem? sys.pool.entries i) [
    | none ↦ (sys, sorting method params found)
    | some entry ↦
        if not (supports entry.endpoint (for_method method))
        then (
          emit sys (on_skipped_incapable (tag entry.endpoint) method),
          scanning method params now (suc i) found,
        )
        else if not (is_available_at entry.health now)
        then (sys, noting method params now i found)
        else (sys, scanning method params now (suc i) (found ++ i ∷ []))
  ]

  unfoldable pub note : String → Value → ℕ → ℕ → List ℕ → Sys → Sys × Phase Value
  note method params now i found sys = at_entry sys i λ entry. (
    emit sys (on_skipped_cooldown (tag entry.endpoint) method),
    scanning method params now (suc i) found,
  )

  -- The retry budget, which no thread changes.
  unfoldable pub admit : String → Value → ℕ → List ℕ → Loop → Sys → Phase Value
  admit method params i rest loop sys =
      if out_of_budget sys loop then over else granted method params i rest loop

  -- `try_acquire` reads the clock before it takes the lock.
  unfoldable pub approach : (ℕ → ℕ) → String → Value → ℕ → List ℕ → Loop → Sys → Sys × Phase Value
  unfolding admit
  approach clock method params i rest loop sys = at_entry sys i λ entry. elim entry.rate_limiter [
    | none ↦ (sys, admit method params i rest loop sys)
    | some limiter ↦
        let (sys', now) = read_clock clock sys in (sys', throttling method params i rest loop now)
  ]

  unfoldable pub acquire : String → Value → ℕ → List ℕ → Loop → ℕ → Sys → Sys × Phase Value
  unfolding admit
  acquire method params i rest loop now sys = at_entry sys i λ entry. elim entry.rate_limiter [
    | none ↦ (sys, admit method params i rest loop sys)
    | some limiter ↦
        let (limiter', taken) = try_acquire_at limiter now in
        (
          modify_entry sys i (λ e. record e { rate_limiter = some limiter' }),
          (if taken
              then admit method params i rest loop sys
              else ready method params rest (record loop { rate_limited = loop.rate_limited + 1 })),
        )
  ]

  unfoldable pub announce : String → Value → ℕ → List ℕ → Loop → Sys → Sys × Phase Value
  announce method params i rest loop sys = at_entry sys i λ entry. (
    emit sys (on_request (tag entry.endpoint) method),
    announced method params i rest (record loop { tried = loop.tried + 1 }),
  )

  -- `fetch_add` on the id, and the serializer on the thread's own data.
  unfoldable pub number : Serde Value → String → Value → ℕ → List ℕ → Loop → Sys → Sys × Phase Value
  number serde method params i rest loop sys =
      let id = sys.pool.request_id in
      let sys' : Sys = record sys { pool = record (sys.pool) { request_id = (id + 1) % 2 ^ 64 } } in
      elim (serde.to_vec (record { jsonrpc = "2.0"; id = id; method = method; params = params })) [
        | err e ↦ (sys', over)
        | ok body ↦ (sys', numbered method params i rest loop body)
      ]

  unfoldable pub set_off :
      (ℕ → ℕ) → String → Value → ℕ → List ℕ → Loop → Bytes → Sys → Sys × Phase Value
  set_off clock method params i rest loop body sys =
      let (sys', start) = read_clock clock sys in
      at_entry sys' i λ entry. (
        sys',
        timed method params
            (record {
              index = i;
              url = entry.endpoint.url;
              endpoint_tag = tag entry.endpoint;
              auth_headers = entry.auth_headers;
              body = body;
              started_at = start;
              progress = loop;
            })
            rest,
      )

  abbrev pub after : String → Value → Waiting → List ℕ → Verdict → Phase Value
  after method params w rest answered = over
  after method params w rest (failed message) =
      let loop = w.progress in
      ready method params rest (record loop { attempts = loop.attempts ++ (w.url, message) ∷ [] })
