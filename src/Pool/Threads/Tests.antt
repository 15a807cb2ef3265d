-- ===== src/Pool/Threads/Tests.antt =====
-- Two calls on one endpoint, whose operations interleave, and the theorems at them.
use mathlib.Core.List.Perm
use drm3_rpc_pool.Prelude.{ℕ, ◌+◌, ◌%◌, ◌^◌, ◌≡◌, refl, [], ◌∷◌, some, none, ok, Result, ◌↔◌, arith}
use drm3_rpc_pool.Config.{new_endpoint, supports, for_method, tag}
use drm3_rpc_pool.Health.{default_policy, new_health, is_available_at}
use drm3_rpc_pool.Wire.{Bytes, Serde, ResponseError, parse_rpc_response}
use drm3_rpc_pool.Pool.State.{read_clock, emit, modify_entry, enter, leave}
use drm3_rpc_pool.Pool.State.Frame.{loads}
use drm3_rpc_pool.Pool.Dispatch.{out_of_budget}
use drm3_rpc_pool.Pool.Threads.{World, act, open_call, move, begins, acts, sorts, Reach, here, next}
use drm3_rpc_pool.Pool.Threads.Loads.{Guarded, Reach-Guarded}
use drm3_rpc_pool.Pool.Threads.Ids.{requests, requests-Distinct}
use drm3_rpc_pool.Pool.Threads.Operations.{number}
use drm3_rpc_pool.Pool.Dispatch.Steps.{request}

abbrev serde : Serde ℕ
serde = record {
  to_vec = λ r. ok (r.id ∷ []);
  from_slice = λ bytes. ok (record { jsonrpc = none; id = none; result = some 7; error = none });
}

abbrev clock : ℕ → ℕ
clock n = n

abbrev handle : Bytes → Result ℕ ResponseError
handle = parse_rpc_response serde

abbrev idle : World ℕ
idle = record {
  sys = record {
    pool = record {
      entries =
          record {
            endpoint = new_endpoint "a";
            health = new_health default_policy;
            auth_headers = [];
            rate_limiter = none;
            in_flight = 0;
          }
          ∷ [];
      request_id = 1;
      max_retries = 0;
    };
    reads = 0;
    events = [];
  };
  threads = [];
}

program : Unit {0}
unfolding act open_call move supports is_available_at read_clock emit modify_entry enter leave
    for_method tag parse_rpc_response out_of_budget
program = tt

-- Both calls route before either sends, and the second one takes the first id.
raced : (w : World ℕ) × Reach serde clock handle idle w
unfolding program
raced = (
  _,
  next
      (next
        (next
          (next
            (next
              (next
                (next
                  (next
                    (next
                      (next
                        (next
                          (next
                            (next
                              (next (next (next here (begins "eth_call" 0)) (begins "eth_call" 0))
                                (acts 0 _ refl))
                              (acts 1 _ refl))
                            (acts 0 _ refl))
                          (acts 1 _ refl))
                        (sorts 0 _ _ _ (0 ∷ []) refl (Perm.refl _)))
                      (sorts 1 _ _ _ (0 ∷ []) refl (Perm.refl _)))
                    (acts 0 _ refl))
                  (acts 1 _ refl))
                (acts 1 _ refl))
              (acts 1 _ refl))
            (acts 1 _ refl))
          (acts 1 _ refl))
        (acts 0 _ refl))
      (acts 0 _ refl),
)

raced_loads : loads raced.0.sys ≡ 1 ∷ []
unfolding program raced
raced_loads = refl

Reach-Guarded_example : Guarded serde clock handle raced.0
Reach-Guarded_example = Reach-Guarded serde clock handle raced.1 (λ j n at. ground arith)

raced_requests :
    requests serde clock handle raced.1 ≡ ("eth_call", 0, 1 ∷ []) ∷ ("eth_call", 0, 2 ∷ []) ∷ []
unfolding program raced number
raced_requests = refl

requests-Distinct_example :
    (i j : ℕ) × (serde.to_vec (request "eth_call" 0 i) ≡ ok (2 ∷ []))
    × (serde.to_vec (request "eth_call" 0 j) ≡ ok (1 ∷ []))
    × (i ≡ (1 + 1) % 2 ^ 64)
    × ((i ≡ j) ↔ (◌≡◌ {A = ℕ} 1 0))
unfolding program raced number
requests-Distinct_example =
    requests-Distinct serde clock handle (λ m p id. (id ∷ [], refl)) raced.1 (omega arith)
      (omega arith) 1 0 ("eth_call", 0, 2 ∷ []) ("eth_call", 0, 1 ∷ []) refl refl
