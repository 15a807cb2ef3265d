-- ===== src/Pool/Dispatch.antt =====
-- `RpcPool::call` and `RpcPool::forward` of src/pool/mod.rs. The body of their common loop is cut at
-- the await: `start_attempt` runs up to it, and `finish_attempt` from the reply to the end of the
-- round. The two methods differ in how they read a response body, which is the argument `handle`.
pub mod Steps
pub mod Runs
pub mod Safety
pub mod Accounts
pub mod Answers
pub mod Methods
pub mod Courses
pub mod Limits
pub mod Timeout
pub mod Promises
use drm3_rpc_pool.Prelude.{
  ℕ, suc, ◌+◌, ◌-◌, ◌%◌, ◌^◌, String, Bool, true, false, ◌&&◌, not, List, [], ◌∷◌, ◌++◌, Option,
  none, some, Result, ok, err, map_ok, leb, ◌==◌, if◌then◌else◌, length, get_elem?, concat, decimal,
}
use drm3_rpc_pool.Prelude.Int.{ℤ}
use drm3_rpc_pool.Error.{RpcError, no_candidates, all_failed, malformed}
use drm3_rpc_pool.Config.{for_method, tag}
use drm3_rpc_pool.Health.{record_success, record_failure}
use drm3_rpc_pool.Wire.{
  Bytes, Serde, ResponseError, response_error_text, RawOutcome, result, upstream_error,
  parse_rpc_response, classify_response,
}
use drm3_rpc_pool.Metrics.{on_request, on_success, on_failure}
use drm3_rpc_pool.Pool.RateLimit.{try_acquire_at}
use drm3_rpc_pool.Pool.State.{PoolEntry, Sys, enter, leave, modify_entry, emit, read_clock}
use drm3_rpc_pool.Pool.Candidates.{Scan, ordered_candidates}

-- The loop's variables. `tried` stays at most `max_retries` where it is compared with it, so its
-- 32 bits suffice.
pub record Loop : Type 0 where
  pub attempts : List (String × String)
  pub rate_limited : ℕ
  pub tried : ℕ

abbrev pub fresh_loop : Loop
fresh_loop = record { attempts = []; rate_limited = 0; tried = 0 }

-- A request whose reply is awaited.
pub record Waiting : Type 0 where
  pub index : ℕ
  pub url : String
  pub endpoint_tag : String
  pub auth_headers : List (String × String)
  pub body : Bytes
  pub started_at : ℕ
  pub progress : Loop

-- A round up to the await: skipped by the limiter, ended by the retry budget, ended by an error of
-- the serializer, awaiting a reply, or a panic on an index out of range.
pub data Started : Type 0 where
  skipped : Loop → Started
  stopped : Started
  refused : RpcError → Started
  sent : Waiting → Started
  out_of_range : Started

pub data Finished (A : Type 0) : Type 0 where
  succeeded : A → Finished A
  failed_over : Loop → Finished A

pub data Outcome (A : Type 0) : Type 0 where
  returned : Result A RpcError → Outcome A
  panicked : Outcome A

unfoldable pub no_candidates_reason : ℕ → ℕ → ℕ → ℕ → String
no_candidates_reason considered incapable in_cooldown rate_limited = concat (
    "considered="
    ∷ decimal considered
    ∷ " incapable="
    ∷ decimal incapable
    ∷ " in_cooldown="
    ∷ decimal in_cooldown
    ∷ " rate_limited="
    ∷ decimal rate_limited
    ∷ [])

-- The end of the method, after the loop.
unfoldable pub exhausted : String → Scan → Loop → RpcError
exhausted method found loop = elim loop.attempts [
  | [] ↦ no_candidates method (
      no_candidates_reason (length found.candidates) found.incapable found.in_cooldown
        loop.rate_limited)
  | attempt ∷ more ↦ all_failed method (length (attempt ∷ more)) (attempt ∷ more)
]

-- The retry budget: 0 tries every candidate.
unfoldable pub out_of_budget : Sys → Loop → Bool
out_of_budget sys loop = not (sys.pool.max_retries == 0) && leb sys.pool.max_retries loop.tried

module _ (clock : ℕ → ℕ) where
  -- The client-side throttle: an entry with no limiter is always granted.
  unfoldable pub throttle : ℕ → PoolEntry → Sys → Sys × Bool
  throttle i entry sys = elim entry.rate_limiter [
    | none ↦ (sys, true)
    | some limiter ↦
        let (sys', now) = read_clock clock sys in
        let (limiter', granted) = try_acquire_at limiter now in
        (modify_entry sys' i (λ e. record e { rate_limiter = some limiter' }), granted)
  ]

  module _ {Value : Type 0} (serde : Serde Value) (method : String) (params : Value) where
    -- The dispatch itself: one more try, the metrics hook, the id, the body, the clock, the guard.
    unfoldable pub send : ℕ → PoolEntry → Loop → Sys → Sys × Started
    send i entry loop sys =
        let loop' : Loop = record loop { tried = loop.tried + 1 } in
        let announced = emit sys (on_request (tag entry.endpoint) method) in
        let id = announced.pool.request_id in
        let numbered : Sys = record announced {
          pool = record (announced.pool) { request_id = (id + 1) % 2 ^ 64 };
        } in
        elim (serde.to_vec
          (record { jsonrpc = "2.0"; id = id; method = method; params = params })) [
            | err e ↦ (
              numbered,
              refused
                  (malformed entry.endpoint.url (concat ("request serialize failed: " ∷ e ∷ []))),
            )
            | ok body ↦
                let (timed, start) = read_clock clock numbered in
                (
                  modify_entry timed i enter,
                  sent (record {
                    index = i;
                    url = entry.endpoint.url;
                    endpoint_tag = tag entry.endpoint;
                    auth_headers = entry.auth_headers;
                    body = body;
                    started_at = start;
                    progress = loop';
                  }),
                )
          ]

    unfoldable pub start_attempt : ℕ → Loop → Sys → Sys × Started
    unfolding throttle out_of_budget send
    start_attempt i loop sys = elim (get_elem? sys.pool.entries i) [
      | none ↦ (sys, out_of_range)
      | some entry ↦
          let (throttled, granted) = throttle i entry sys in
          if not granted
          then (throttled, skipped (record loop { rate_limited = loop.rate_limited + 1 }))
          else if out_of_budget throttled loop
          then (throttled, stopped)
          else send i entry loop throttled
    ]

  module _ (method : String) where
    -- The bookkeeping of an answer, and the drop of the guard at the end of the round.
    unfoldable pub record_answer : Waiting → ℕ → Sys → Sys
    record_answer w latency sys =
        let (sys', now) = read_clock clock sys in
        emit
          (modify_entry sys' w.index
            (λ e. leave (record e { health = record_success e.health latency now })))
          (on_success w.endpoint_tag method latency)

    unfoldable pub record_error : Waiting → ℕ → String → Sys → Sys
    record_error w latency message sys =
        let (sys', now) = read_clock clock sys in
        emit
          (modify_entry sys' w.index
            (λ e. leave (record e { health = record_failure e.health message latency now })))
          (on_failure w.endpoint_tag method latency message)

  module _ {A : Type 0} (handle : Bytes → Result A ResponseError) (method : String) where
    unfoldable pub fail_over : Waiting → ℕ → String → Sys → Sys × Finished A
    unfolding record_error
    fail_over w latency message sys =
        let loop = w.progress in
        (
          record_error method w latency message sys,
          failed_over (record loop { attempts = loop.attempts ++ (w.url, message) ∷ [] }),
        )

    unfoldable pub finish_attempt : Result Bytes String → Waiting → Sys → Sys × Finished A
    unfolding record_answer fail_over
    finish_attempt reply w sys =
        let (sys', now) = read_clock clock sys in
        let latency = now - w.started_at in
        elim reply [
          | ok bytes ↦ elim (handle bytes) [
            | ok a ↦ (record_answer method w latency sys', succeeded a)
            | err e ↦ fail_over w latency (response_error_text e) sys'
          ]
          | err message ↦ fail_over w latency message sys'
        ]

-- `Transport::post_json_with_headers`, which may answer differently at each reading of the clock.
abbrev pub Transport : Type 0
Transport = ℕ → String → List (String × String) → Bytes → Result Bytes String

abbrev pub ask : Transport → Sys → Waiting → Result Bytes String
ask post sys w = post sys.reads w.url w.auth_headers w.body

module _ {Value A : Type 0} (serde : Serde Value) (clock : ℕ → ℕ) (post : Transport)
    (handle : Bytes → Result A ResponseError) (method : String) (params : Value) where
  -- The loop over the candidates, where nothing else touches the pool meanwhile.
  pub dispatch : Scan → List ℕ → Loop → Sys → Sys × Outcome A
  unfolding start_attempt finish_attempt exhausted
  dispatch found [] loop sys = (sys, returned (err (exhausted method found loop)))
  dispatch found (i ∷ rest) loop sys =
      let (sys', step) = start_attempt clock serde method params i loop sys in
      elim step [
        | skipped loop' ↦ dispatch found rest loop' sys'
        | stopped ↦ (sys', returned (err (exhausted method found loop)))
        | refused e ↦ (sys', returned (err e))
        | out_of_range ↦ (sys', panicked)
        | sent w ↦
            let (sys'', reply) = finish_attempt clock handle method (ask post sys' w) w sys' in
            elim reply [
              | succeeded a ↦ (sys'', returned (ok a))
              | failed_over loop' ↦ dispatch found rest loop' sys''
            ]
      ]

  unfoldable pub run_method : Sys → Sys × Outcome A
  unfolding dispatch ordered_candidates
  run_method sys =
      let (sys', now) = read_clock clock sys in
      let (sys'', found) = ordered_candidates sys' (for_method method) now method in
      dispatch found found.candidates fresh_loop sys''

pub data ForwardResult (Value : Type 0) : Type 0 where
  answer : Value → ForwardResult Value
  relayed : ℤ → String → Option Value → ForwardResult Value

abbrev pub relay : {Value : Type 0} → RawOutcome Value → ForwardResult Value
relay (result v) = answer v
relay (upstream_error e) = relayed e.code e.message e.details

module _ {Value : Type 0} (serde : Serde Value) (clock : ℕ → ℕ) (post : Transport) where
  unfoldable pub call : String → Value → Sys → Sys × Outcome Value
  unfolding run_method
  call = run_method serde clock post (parse_rpc_response serde)

  unfoldable pub forward : String → Value → Sys → Sys × Outcome (ForwardResult Value)
  unfolding run_method
  forward = run_method serde clock post (λ bytes. map_ok relay (classify_response serde bytes))
