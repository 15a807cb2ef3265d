-- ===== src/Pool/Dispatch/Limits.antt =====
-- How many requests `call` and `forward` of src/pool/mod.rs send, and to which endpoints.
use drm3_rpc_pool.Prelude.{
  ℕ, ◌+◌, ◌≤◌, ◌≡◌, ◌⊎◌, inr, String, List, [], ◌∷◌, ◌++◌, some, get_elem?, Result, ok, length,
  map_ok, arith,
}
use drm3_rpc_pool.Config.{for_method, tag}
use drm3_rpc_pool.Wire.{Bytes, Serde, ResponseError, parse_rpc_response, classify_response}
use drm3_rpc_pool.Metrics.{
  Event, on_request, on_success, on_failure, on_skipped_incapable, on_skipped_cooldown,
}
use drm3_rpc_pool.Pool.State.{PoolEntry, Sys}
use drm3_rpc_pool.Pool.Candidates.{Scan}
use drm3_rpc_pool.Pool.Candidates.Laws.{IsRouting}
use drm3_rpc_pool.Pool.Dispatch.{Loop, Outcome, Transport, run_method, call, forward, relay}
use drm3_rpc_pool.Pool.Dispatch.Steps.{request}
use drm3_rpc_pool.Pool.Dispatch.Courses.{Course, all_tried, spent, throttled, answered, failed}
use drm3_rpc_pool.Pool.Dispatch.Methods.{run_method-Routed, Routed-Told}

-- The tags of the requests that are announced to the metrics sink.
abbrev pub requested : List Event → List String
requested [] = []
requested (on_request tag method ∷ log) = tag ∷ requested log
requested (on_success tag method latency ∷ log) = requested log
requested (on_failure tag method latency message ∷ log) = requested log
requested (on_skipped_incapable tag method ∷ log) = requested log
requested (on_skipped_cooldown tag method ∷ log) = requested log

-- Some of the indices of a list, in its order, and the tags of their endpoints.
pub data Picks (entries : List PoolEntry) : List ℕ → List String → Type 0 where
  none_left : (is : List ℕ) → Picks entries is []
  passes :
      {is : List ℕ} {tags : List String} (i : ℕ)
      → Picks entries is tags
      → Picks entries (i ∷ is) tags
  picks :
      {is : List ℕ} {tags : List String} (i : ℕ) (entry : PoolEntry)
      → get_elem? entries i ≡ some entry
      → Picks entries is tags
      → Picks entries (i ∷ is) (tag entry.endpoint ∷ tags)

module _ {Value A : Type 0} (serde : Serde Value) (clock : ℕ → ℕ) (post : Transport)
    (handle : Bytes → Result A ResponseError) (method : String) (params : Value) (found : Scan)
    (sys : Sys) where
  Course-Picks :
      {is : List ℕ} {loop : Loop} {n : ℕ} {log : List Event} {o : Outcome A}
      → Course serde clock post handle method params found sys is loop n log o
      → (sys.pool.max_retries ≡ 0) ⊎ (loop.tried ≤ sys.pool.max_retries)
      → Picks sys.pool.entries is (requested log)
        × ((sys.pool.max_retries ≡ 0)
            ⊎ (loop.tried + length (requested log) ≤ sys.pool.max_retries))
  Course-Picks (all_tried loop n) within = (none_left [], ground (arith, within))
  Course-Picks (spent i rest loop n some_budget reached) within =
      (none_left (i ∷ rest), ground (arith, within))
  Course-Picks (throttled {i = i} refusal later) within =
      let (picked, few) = Course-Picks later within in (passes i picked, few)
  Course-Picks (answered {i = i} {rest = rest} {entry = entry} latency asked read) within =
      (picks i entry asked.at (none_left rest), ground (arith, asked.in_budget))
  Course-Picks (failed {i = i} {entry = entry} message latency asked fails on later) within =
      let (picked, few) = Course-Picks later (ground (arith, asked.in_budget)) in
      (picks i entry asked.at picked, ground (arith, few))

-- The events of a method: the skips of its routing, and then a log whose requests go to some of the
-- candidates, in their order and at most one to each, and are no more than the retry budget.
pub record Limited (method : String) (now : ℕ) (s t : Sys) : Type 0 where
  pub found : Scan
  pub routing : IsRouting s.pool.entries (for_method method) method now found
  pub log : List Event
  pub events : t.events ≡ s.events ++ (found.skips ++ log)
  pub one_each : Picks s.pool.entries found.candidates (requested log)
  pub in_budget : (s.pool.max_retries ≡ 0) ⊎ (length (requested log) ≤ s.pool.max_retries)

module _ {Value : Type 0} (serde : Serde Value) (clock : ℕ → ℕ) (post : Transport) (method : String)
    (params : Value) (sys : Sys)
    (writes : (id : ℕ) → (body : Bytes) × (serde.to_vec (request method params id) ≡ ok body)) where
  run_method-Limited :
      {A : Type 0} (handle : Bytes → Result A ResponseError)
      → Limited method
          (clock sys.reads)
          sys
          (run_method serde clock post handle method params sys).0
  run_method-Limited handle =
      let t =
        Routed-Told serde clock post handle method params writes
          (run_method-Routed serde clock post handle method params sys) in
      let (picked, few) =
        Course-Picks serde clock post handle method params t.found sys t.course
          (inr (omega arith)) in
      record {
        found = t.found;
        routing = t.routing;
        log = t.log;
        events = t.events;
        one_each = picked;
        in_budget = ground (arith, few);
      }

  -- With a serializer that never fails, `call` and `forward` each report the endpoints that the
  -- routing skips, all and in the order of the entries, and then send requests only to candidates of
  -- the routing, in their order, at most one to each, and at most as many as the configured retries
  -- where these are not 0.
  pub methods-Limited :
      Limited method (clock sys.reads) sys (call serde clock post method params sys).0
      × Limited method (clock sys.reads) sys (forward serde clock post method params sys).0
  unfolding call forward
  methods-Limited = (
    run_method-Limited (parse_rpc_response serde),
    run_method-Limited (λ bytes. map_ok relay (classify_response serde bytes)),
  )
