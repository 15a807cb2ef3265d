-- ===== src/Pool/Dispatch/Methods.antt =====
-- The methods `call` and `forward` of src/pool/mod.rs as a whole: routing, then the loop.
use mathlib.Core.List.{append_assoc}
use mathlib.Core.Option
use drm3_rpc_pool.Prelude.{
  ℕ, suc, ◌≡◌, refl, ap, ◌∙◌, String, true, false, List, ◌++◌, some, map, get_elem?, Result, ok,
  All-imp,
}
use drm3_rpc_pool.Config.{for_method, supports}
use drm3_rpc_pool.Health.{is_available_at}
use drm3_rpc_pool.Wire.{Bytes, Serde, ResponseError}
use drm3_rpc_pool.Pool.State.{PoolEntry, PoolInner, Sys, read_clock}
use drm3_rpc_pool.Pool.State.Frame.{fixed, is_limited, loads, limiters, Frame, get_elem?-map}
use drm3_rpc_pool.Pool.Candidates.{Scan, ordered_candidates}
use drm3_rpc_pool.Pool.Candidates.Laws.{IsRouting, ordered_candidates-IsRouting}
use drm3_rpc_pool.Pool.Dispatch.{fresh_loop, Outcome, returned, Transport, run_method}
use drm3_rpc_pool.Pool.Dispatch.Steps.{request}
use drm3_rpc_pool.Pool.Dispatch.Runs.{Runs, dispatch-Runs}
use drm3_rpc_pool.Pool.Dispatch.Safety.{AllInRange, SmallLoads, Safe, Runs-Safe, Safe-after}
use drm3_rpc_pool.Metrics.{Event}
use drm3_rpc_pool.Pool.Dispatch.Courses.{Course, Nodup-Spread, Runs-Course}
use drm3_rpc_pool.Pool.Dispatch.Answers.{
  Authentic, IsReliable, Serves-Frame, is_answer, Runs-Authentic, Runs-answers,
}

module _ {Value A : Type 0} (serde : Serde Value) (clock : ℕ → ℕ) (post : Transport)
    (handle : Bytes → Result A ResponseError) (method : String) (params : Value) where
  -- The routing of a method, and what it leaves of the pool.
  pub record Routed (sys : Sys) (t : Sys) (o : Outcome A) : Type 0 where
    pub found : Scan
    pub start : Sys
    pub routing : IsRouting sys.pool.entries (for_method method) method (clock sys.reads) found
    pub same_pool : start.pool ≡ sys.pool
    pub read_once : start.reads ≡ suc sys.reads
    pub announced : start.events ≡ sys.events ++ found.skips
    pub run : Runs serde clock post handle method params found found.candidates fresh_loop start t o

  pub run_method-Routed :
      (sys : Sys)
      → Routed sys
          (run_method serde clock post handle method params sys).0
          (run_method serde clock post handle method params sys).1
  unfolding run_method read_clock ordered_candidates
  run_method-Routed sys =
      let s1 = (read_clock clock sys).0 in
      let routed = ordered_candidates s1 (for_method method) (clock sys.reads) method in
      record {
        found = routed.1;
        start = routed.0;
        routing = ordered_candidates-IsRouting s1 (for_method method) (clock sys.reads) method;
        same_pool = refl;
        read_once = refl;
        announced = refl;
        run =
            dispatch-Runs serde clock post handle method params routed.1 routed.1.candidates
              fresh_loop routed.0;
      }

  -- A method as a whole: the metrics sink is told what the routing skips, and then the course of the
  -- call over the candidates, from its second reading of the clock on.
  pub record Told (sys t : Sys) (o : Outcome A) : Type 0 where
    pub found : Scan
    pub routing : IsRouting sys.pool.entries (for_method method) method (clock sys.reads) found
    pub log : List Event
    pub events : t.events ≡ sys.events ++ (found.skips ++ log)
    pub course :
        Course serde clock post handle method params found sys found.candidates fresh_loop
          (suc sys.reads)
          log
          o

  candidates-InRange :
      {sys t : Sys} {o : Outcome A} (r : Routed sys t o) → AllInRange r.found.candidates r.start
  candidates-InRange {sys} r =
      All-imp
        (λ i e. (
          fixed e.0,
          ap (λ (p : PoolInner). get_elem? (map fixed p.entries) i) r.same_pool
              ∙ get_elem?-map fixed sys.pool.entries i
              ∙ ap (Option.map fixed) e.1,
        ))
        r.found.candidates r.routing.eligible

  start-Frame : {sys t : Sys} {o : Outcome A} (r : Routed sys t o) → Frame sys r.start
  start-Frame r = record {
    same_layout = ap (λ (p : PoolInner). map fixed p.entries) r.same_pool;
    same_budget = ap (λ (p : PoolInner). p.max_retries) r.same_pool;
  }

  pub Routed-Safe :
      {sys t : Sys} {o : Outcome A} → Routed sys t o → SmallLoads (loads sys) → Safe sys t o
  Routed-Safe {sys} r small =
      let same : loads r.start ≡ loads sys =
        ap (λ (p : PoolInner). map (λ e. e.in_flight) p.entries) r.same_pool in
      Safe-after (start-Frame r) same (
        Runs-Safe serde clock post handle method params r.found r.run (candidates-InRange r)
          (rw same small))

  pub Routed-Told :
      {sys t : Sys} {o : Outcome A}
      → ((id : ℕ) → (body : Bytes) × (serde.to_vec (request method params id) ≡ ok body))
      → Routed sys t o
      → Told sys t o
  Routed-Told {sys} writes r =
      let same : limiters r.start ≡ limiters sys =
        ap (λ (p : PoolInner). map (λ e. e.rate_limiter) p.entries) r.same_pool in
      let (log, e, course) =
        Runs-Course serde clock post handle method params r.found sys writes r.run (start-Frame r)
          (All-imp (λ i e. ((e.0, e.1), ap (λ l. get_elem? l i) same)) r.found.candidates
            r.routing.eligible)
          (Nodup-Spread r.found.candidates r.routing.distinct) in
      record {
        found = r.found;
        routing = r.routing;
        log = log;
        events = e ∙ ap (λ l. l ++ log) r.announced ∙ append_assoc sys.events r.found.skips log;
        course = rw r.read_once at course;
      }

  pub Routed-Authentic :
      {sys t : Sys} {o : Outcome A} {a : A} (r : Routed sys t o)
      → o ≡ returned (ok a)
      → Authentic serde post handle method params r.found.candidates sys a
  Routed-Authentic r e =
      let x = Runs-Authentic serde post handle method params clock r.found r.run e in
      record {
        index = x.index;
        entry = x.entry;
        candidate = x.candidate;
        at = rw r.same_pool at x.at;
        replied = x.replied;
      }

  pub Routed-answers :
      {sys t : Sys} {o : Outcome A} (i : ℕ) (entry : PoolEntry)
      → Routed sys t o
      → sys.pool.max_retries ≡ 0
      → ((id : ℕ) → (body : Bytes) × (serde.to_vec (request method params id) ≡ ok body))
      → get_elem? sys.pool.entries i ≡ some entry
      → supports entry.endpoint (for_method method) ≡ true
      → is_available_at entry.health (clock sys.reads) ≡ true
      → is_limited entry.rate_limiter ≡ false
      → IsReliable serde post handle method params (fixed entry)
      → is_answer o ≡ true
  Routed-answers i entry r unbounded writes at served available free reliable =
      Runs-answers serde post handle method params clock r.found i r.run (candidates-InRange r)
        ((start-Frame r).same_budget ∙ unbounded) writes
        (Serves-Frame serde post handle method params (start-Frame r) (record {
          part = fixed entry;
          at = get_elem?-map fixed _ i ∙ ap (Option.map fixed) at;
          unlimited = free;
          reliable = reliable;
        }))
        (r.routing.complete i (entry, at, served, available))
