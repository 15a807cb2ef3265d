-- ===== src/Pool/Tests.antt =====
-- A pool of two endpoints, of which the preferred one answers 429: runs of the methods, and the
-- theorems of the pool at it.
use mathlib.Core.List.{Perm}
use drm3_rpc_pool.Prelude.{
  All, ℕ, zero, suc, ◌*◌, ◌≡◌, refl, String, true, List, [], ◌∷◌, ◌++◌, none, some, Result, ok, err,
  arith, length, str_eq, leb, Bool, false, if◌then◌else◌, get_elem?, ◌>>=◌, All, map,
}
use drm3_rpc_pool.Prelude.Int.{pos}
use drm3_rpc_pool.Prelude.Sorting.{sort_by, IsSorted}
use drm3_rpc_pool.Error.{no_candidates}
use drm3_rpc_pool.Config.Validate.{validate}
use drm3_rpc_pool.Pool.State.Fresh.{IsFresh, new-IsFresh}
use drm3_rpc_pool.Config.{
  RpcPoolConfig, default_config, headers, new_endpoint, for_method, eth_call, supports,
}
use drm3_rpc_pool.Health.{
  default_policy, new_health, is_available_at, record_success, record_failure,
}
use drm3_rpc_pool.Wire.{
  Bytes, JsonRpcResponse, Serde, parse_rpc_response, classify_response, refuse_error,
  parse-classify,
}
use drm3_rpc_pool.Pool.RateLimit.{try_acquire_at, per_second}
use drm3_rpc_pool.Pool.State.{
  PoolEntry, Sys, enter, leave, modify_entry, emit, read_clock, by_priority, new,
}
use drm3_rpc_pool.Pool.Candidates.{Scan, ordered_candidates}
use drm3_rpc_pool.Pool.Candidates.Laws.{
  IsRouting, incapable_of, cooling_of, ordered_candidates-IsRouting,
}
use drm3_rpc_pool.Pool.Dispatch.{
  Loop, returned, Transport, call, forward, exhausted, no_candidates_reason, relayed,
}
use drm3_rpc_pool.Pool.Dispatch.Steps.{request}
use drm3_rpc_pool.Pool.Dispatch.Safety.{Safe}
use drm3_rpc_pool.Pool.Dispatch.Accounts.{Refused}
use drm3_rpc_pool.Pool.Dispatch.Methods.{Told}
use drm3_rpc_pool.Metrics.{Event}
use drm3_rpc_pool.Pool.Dispatch.Answers.{Replied, is_answer}
use drm3_rpc_pool.Pool.Dispatch.Timeout.{call_with_timeout}
use drm3_rpc_pool.Pool.Dispatch.Timeout.Deadlines.{call_with_timeout-Safe}
use drm3_rpc_pool.Pool.Dispatch.Limits.{Limited, methods-Limited}
use drm3_rpc_pool.Pool.Dispatch.Promises.{
  methods-Told, relay_body, methods-Safe, forward-answers, forward-Replied, call-answers,
  call-Replied, call-no_candidates,
}
mod Building

-- Values are numbers: a body `0 v` is a result, `1 c` an error envelope, and any other invalid.
abbrev read_body : Bytes → Result (JsonRpcResponse ℕ) String
read_body (zero ∷ v ∷ rest) =
    ok (record { jsonrpc = none; id = none; result = some v; error = none })
read_body (suc zero ∷ c ∷ rest) = ok (record {
  jsonrpc = none;
  id = none;
  result = none;
  error = some (record { code = pos c; message = "reverted"; details = none });
})
read_body _ = err "EOF"

abbrev serde : Serde ℕ
serde = record { to_vec = λ r. ok (r.id ∷ r.params ∷ []); from_slice = read_body }

abbrev pub clock : ℕ → ℕ
clock n = n * 1_000_000

-- The endpoint "b" answers 7, "c" reverts, and any other is refused.
abbrev post : Transport
post reads url headers body =
    if str_eq url "b"
    then ok (0 ∷ 7 ∷ [])
    else if str_eq url "c"
    then ok (1 ∷ 3 ∷ [])
    else err "http 429 "

abbrev pub entry_of : String → ℕ → PoolEntry
entry_of url priority = record {
  endpoint = record (new_endpoint url) { priority = priority };
  health = new_health default_policy;
  auth_headers = [];
  rate_limiter = none;
  in_flight = 0;
}

abbrev initial : List PoolEntry → Sys
initial entries = record {
  pool = record { entries = entries; request_id = 1; max_retries = 0 };
  reads = 0;
  events = [];
}

abbrev two : Sys
two = initial (entry_of "a" 0 ∷ entry_of "b" 1 ∷ [])

-- An endpoint whose one token is taken.
abbrev throttled : Sys
throttled = initial (
    record (entry_of "b" 0) {
      rate_limiter = some (record {
        tokens = 0;
        last_refill = 100_000_000;
        capacity = 1_000_000_000;
        refill_per_sec = 1;
      });
    }
    ∷ [])

program : Unit {0}
unfolding call forward supports is_available_at ordered_candidates read_clock emit modify_entry
    enter leave parse_rpc_response classify_response record_success record_failure try_acquire_at
    for_method sort_by
program = tt

call_fails_over : (call serde clock post "eth_blockNumber" 0 two).1 ≡ returned (ok 7)
unfolding program
call_fails_over = refl

-- The error envelope of "c" makes `call` fail over, and `forward` relays it.
call_refuses_envelope :
    (call serde clock post "eth_call" 0 (initial (entry_of "c" 0 ∷ entry_of "b" 1 ∷ []))).1
    ≡ returned (ok 7)
unfolding program
call_refuses_envelope = refl

throttled-call :
    (call serde clock post "eth_call" 0 throttled).1
    ≡ returned (err (no_candidates "eth_call" (no_candidates_reason 1 0 0 1)))
unfolding program no_candidates_reason exhausted
throttled-call = refl

every_id : (id : ℕ) → (body : Bytes) × (serde.to_vec (request "eth_blockNumber" 0 id) ≡ ok body)
every_id id = (id ∷ 0 ∷ [], refl)

call-answers_example : is_answer (call serde clock post "eth_blockNumber" 0 two).1 ≡ true
unfolding program
call-answers_example =
    call-answers serde clock post "eth_blockNumber" 0 two 1 (entry_of "b" 1) refl every_id refl refl
      refl refl (λ reads body. (0 ∷ 7 ∷ [], 7, refl, refl))

call-Replied_example :
    (i : ℕ) × (entry : PoolEntry) × (get_elem? two.pool.entries i ≡ some entry)
    × (supports entry.endpoint (for_method "eth_blockNumber") ≡ true)
    × (is_available_at entry.health (clock 0) ≡ true)
    × Replied serde post (parse_rpc_response serde) "eth_blockNumber" 0 entry 7
unfolding program
call-Replied_example = call-Replied serde clock post "eth_blockNumber" 0 two refl

call-no_candidates_example :
    (◌≡◌ {A = String} "eth_call" "eth_call")
    × ((found : Scan) × IsRouting throttled.pool.entries
          (for_method "eth_call")
          "eth_call"
          (clock 0)
          found
        × All
            (Refused serde clock post (parse_rpc_response serde) "eth_call" 0 found throttled 1)
            found.candidates
        × (no_candidates_reason 1 0 0 1
            ≡ no_candidates_reason
                (length found.candidates)
                (incapable_of (for_method "eth_call") throttled.pool.entries)
                (cooling_of (for_method "eth_call") (clock 0) throttled.pool.entries)
                (length found.candidates)))
call-no_candidates_example =
    call-no_candidates serde clock post "eth_call" 0 throttled "eth_call"
      (no_candidates_reason 1 0 0 1) (λ id. (id ∷ 0 ∷ [], refl)) throttled-call

methods-Safe_example :
    Safe two
      (call serde clock post "eth_blockNumber" 0 two).0
      (call serde clock post "eth_blockNumber" 0 two).1
    × Safe two
        (forward serde clock post "eth_blockNumber" 0 two).0
        (forward serde clock post "eth_blockNumber" 0 two).1
methods-Safe_example = methods-Safe serde clock post "eth_blockNumber" 0 two (omega arith)

ordered_candidates-IsRouting_example :
    IsRouting two.pool.entries eth_call "eth_call" 5
      (ordered_candidates two eth_call 5 "eth_call").1
ordered_candidates-IsRouting_example = ordered_candidates-IsRouting two eth_call 5 "eth_call"

parse-classify_example :
    parse_rpc_response serde (1 ∷ 3 ∷ [])
    ≡ (classify_response serde (1 ∷ 3 ∷ []) >>= refuse_error serde)
parse-classify_example = parse-classify serde (1 ∷ 3 ∷ [])

-- "a" is refused, and the error envelope of "c" is relayed.
abbrev reverting : Sys
reverting = initial (entry_of "a" 0 ∷ entry_of "c" 1 ∷ [])

forward-answers_example :
    is_answer (forward serde clock post "eth_blockNumber" 0 reverting).1 ≡ true
unfolding program
forward-answers_example =
    forward-answers serde clock post "eth_blockNumber" 0 reverting 1 (entry_of "c" 1) refl every_id
      refl refl refl refl (λ reads body. (1 ∷ 3 ∷ [], relayed (pos 3) "reverted" none, refl, refl))

forward-Replied_example :
    (i : ℕ) × (entry : PoolEntry) × (get_elem? reverting.pool.entries i ≡ some entry)
    × (supports entry.endpoint (for_method "eth_blockNumber") ≡ true)
    × (is_available_at entry.health (clock 0) ≡ true)
    × Replied serde post
        (relay_body serde clock post "eth_blockNumber" 0 reverting)
        "eth_blockNumber"
        0
        entry
        (relayed (pos 3) "reverted" none)
unfolding program
forward-Replied_example = forward-Replied serde clock post "eth_blockNumber" 0 reverting refl

methods-Told_example :
    Told serde clock post
      (parse_rpc_response serde)
      "eth_blockNumber"
      0
      two
      (call serde clock post "eth_blockNumber" 0 two).0
      (call serde clock post "eth_blockNumber" 0 two).1
    × Told serde clock post
        (relay_body serde clock post "eth_blockNumber" 0 two)
        "eth_blockNumber"
        0
        two
        (forward serde clock post "eth_blockNumber" 0 two).0
        (forward serde clock post "eth_blockNumber" 0 two).1
methods-Told_example = methods-Told serde clock post "eth_blockNumber" 0 two every_id

methods-Limited_example :
    Limited "eth_blockNumber" 0 two (call serde clock post "eth_blockNumber" 0 two).0
    × Limited "eth_blockNumber" 0 two (forward serde clock post "eth_blockNumber" 0 two).0
methods-Limited_example = methods-Limited serde clock post "eth_blockNumber" 0 two every_id

-- A deadline that interrupts the third await and all after it.
abbrev late : ℕ → Bool
late n = leb 3 n

call_with_timeout-Safe_example :
    (let timed = call_with_timeout serde clock post late "eth_blockNumber" 0 "5s" two in
      Safe two timed.0 timed.1
      × (((n : ℕ) → late n ≡ false) → timed ≡ call serde clock post "eth_blockNumber" 0 two))
call_with_timeout-Safe_example =
    call_with_timeout-Safe serde clock post late "eth_blockNumber" 0 "5s" two (omega arith)
