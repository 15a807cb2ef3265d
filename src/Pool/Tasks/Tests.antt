-- ===== src/Pool/Tasks/Tests.antt =====
-- Two calls on one endpoint, of which one is answered and one dropped, and the theorem at them.
use drm3_rpc_pool.Prelude.{
  ◌%◌, ◌^◌, ◌↔◌, false, ℕ, zero, suc, sym, some-eq-some, String, Bool, true, get_elem?, ◌≡◌, refl,
  [], ◌∷◌, some, none, Result, ok, arith,
}
use drm3_rpc_pool.Prelude.Sorting.{sort_by}
use drm3_rpc_pool.Config.Validate.{validate}
use drm3_rpc_pool.Config.{
  RpcPoolConfig, from_urls, headers, new_endpoint, for_method, supports, tag,
}
use drm3_rpc_pool.Health.History.{InCooldown, replay}
use drm3_rpc_pool.Health.{
  EndpointHealth, default_policy, new_health, is_available_at, record_success,
}
use drm3_rpc_pool.Wire.{Bytes, Serde, ResponseError, parse_rpc_response}
use drm3_rpc_pool.Pool.State.{new, enter, leave, modify_entry, emit, read_clock}
use drm3_rpc_pool.Pool.State.Frame.{loads}
use drm3_rpc_pool.Pool.Candidates.{ordered_candidates}
use drm3_rpc_pool.Pool.Dispatch.{Waiting, start_attempt, finish_attempt, fresh_loop}
use drm3_rpc_pool.Pool.Tasks.{
  World, awaiting, begin, start, deliver, cancel, begins, starts, delivers, Reach, here, next,
}
use drm3_rpc_pool.Pool.Tasks.Loads.{pending, Exact, Reach-Exact}
use drm3_rpc_pool.Pool.Dispatch.Steps.Healths.{healths}
use drm3_rpc_pool.Pool.Tasks.Healths.{filed, ledger_of, Reach-Replays}
use drm3_rpc_pool.Pool.Tasks.Lifetime.{new-Reach}
use drm3_rpc_pool.Rollup.{EndpointRollup, drain, receive, percentile}
use drm3_rpc_pool.Pool.Tasks.Rollups.{DistinctTags, Bills, drain-Reach}

abbrev serde : Serde ℕ
serde = record {
  to_vec = λ r. ok (r.id ∷ []);
  from_slice = λ bytes. ok (record { jsonrpc = none; id = none; result = some 7; error = none });
}

abbrev clock : ℕ → ℕ
clock n = n

abbrev idle : World ℕ
idle = record {
  sys = record {
    pool = record {
      entries =
          record {
            endpoint = new_endpoint "a";
            health = new_health default_policy;
            auth_headers = [];
            rate_limiter = none;
            in_flight = 0;
          }
          ∷ [];
      request_id = 1;
      max_retries = 0;
    };
    reads = 0;
    events = [];
  };
  tasks = [];
}

abbrev handle : Bytes → Result ℕ ResponseError
handle = parse_rpc_response serde

abbrev begun : World ℕ
begun = begin serde clock handle "eth_call" 0 idle

abbrev busy : World ℕ
busy = start serde clock handle 0 "eth_call" 0 0 [] fresh_loop begun

program : Unit {0}
unfolding begin start deliver cancel supports is_available_at ordered_candidates read_clock emit
    modify_entry enter leave for_method sort_by start_attempt tag
program = tt

busy_load : loads busy.sys ≡ 1 ∷ []
unfolding program
busy_load = refl

Reach-Exact_example : Exact (loads busy.sys) busy.tasks
unfolding program
Reach-Exact_example =
    Reach-Exact serde clock handle {v = idle}
      (next (next here (begins "eth_call" 0)) (starts 0 "eth_call" 0 0 [] fresh_loop refl))
      (λ j n at. ground arith)

abbrev waiting : Waiting
waiting = record {
  index = 0;
  url = "a";
  endpoint_tag = "a";
  auth_headers = [];
  body = 1 ∷ [];
  started_at = 1;
  progress = record { attempts = []; rate_limited = 0; tried = 1 };
}

abbrev reply : Result Bytes String
reply = ok (0 ∷ [])

abbrev answered : World ℕ
answered = deliver serde clock handle 0 "eth_call" 0 reply waiting [] busy

awaits_reply : get_elem? busy.tasks 0 ≡ some (awaiting "eth_call" 0 waiting [])
unfolding program
awaits_reply = refl

history : Reach serde clock handle idle answered
unfolding program
history =
    next (next (next here (begins "eth_call" 0)) (starts 0 "eth_call" 0 0 [] fresh_loop refl))
      (delivers 0 "eth_call" 0 reply waiting [] awaits_reply)

idle_fresh :
    (j : ℕ) (h : EndpointHealth)
    → get_elem? (healths idle.sys) j ≡ some h
    → h ≡ replay default_policy (filed j [])
unfolding replay
idle_fresh zero h at = sym (some-eq-some at)
idle_fresh (suc j) h at = cc

abbrev answered_health : EndpointHealth
answered_health = record_success (new_health default_policy) 1 3

Reach-Replays_example :
    answered_health ≡ replay default_policy (filed 0 (ledger_of serde clock handle history))
unfolding program finish_attempt parse_rpc_response
Reach-Replays_example =
    Reach-Replays serde clock handle default_policy history idle_fresh 0 answered_health refl

abbrev one_url : RpcPoolConfig
one_url = from_urls ("a" ∷ [])

made_idle : new clock one_url default_policy 0 ≡ ok idle.sys
unfolding new validate from_urls sort_by headers
made_idle = refl

new-Reach_example :
    (0 ≡ pending 0 answered.tasks % 2 ^ 64)
    × ((is_available_at answered_health 5 ≡ false)
        ↔ InCooldown default_policy (filed 0 (ledger_of serde clock handle history)) 5)
unfolding program finish_attempt parse_rpc_response
new-Reach_example =
    new-Reach serde clock handle one_url default_policy 0 {w = answered} made_idle history 0
      (record {
        endpoint = new_endpoint "a";
        health = answered_health;
        auth_headers = [];
        rate_limiter = none;
        in_flight = 0;
      })
      5 refl

idle_distinct : DistinctTags idle.sys
unfolding program
idle_distinct zero zero t at at' = refl
idle_distinct zero (suc j) t at at' = cc
idle_distinct (suc i) j t at at' = cc

abbrev le : String → String → Bool
le a b = true

-- The rollup of the one call that was answered, within a millisecond.
abbrev of_answered : EndpointRollup
of_answered = record {
  endpoint = "a";
  requests = 1;
  successes = 1;
  failures = 0;
  p50_ms = 0;
  p95_ms = 0;
}

drain-Reach_example : Bills answered_health "a" (of_answered ∷ [])
unfolding program finish_attempt parse_rpc_response drain sort_by percentile receive
drain-Reach_example =
    drain-Reach serde clock handle le one_url default_policy 0 {w = answered} made_idle
      idle_distinct history 0
      (record {
        endpoint = new_endpoint "a";
        health = answered_health;
        auth_headers = [];
        rate_limiter = none;
        in_flight = 0;
      })
      refl
