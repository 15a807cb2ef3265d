-- ===== src/Pool/Threads.antt =====
-- Many calls of one of the methods `call` and `forward` of src/pool/mod.rs on one pool, on any number of
-- threads: which one is the argument `handle`, the same for all. A
-- step is at most one operation on what the threads share: a reading of the clock, a call of the
-- metrics sink, an atomic counter's update, or what is done under one lock.
pub mod Operations
pub mod Loads
pub mod Ids
mod Tests
use mathlib.Core.List.{Perm}
use drm3_rpc_pool.Prelude.{
  ℕ, suc, ◌+◌, ◌-◌, ◌%◌, ◌^◌, ◌≡◌, String, Bool, true, false, not, List, [], ◌∷◌, ◌++◌, none, some,
  Result, ok, err, if◌then◌else◌, get_elem?, set,
}
use drm3_rpc_pool.Config.{for_method, supports, tag}
use drm3_rpc_pool.Health.{is_available_at, record_success, record_failure}
use drm3_rpc_pool.Wire.{Bytes, Serde, ResponseError, response_error_text}
use drm3_rpc_pool.Metrics.{
  on_request, on_success, on_failure, on_skipped_incapable, on_skipped_cooldown,
}
use drm3_rpc_pool.Pool.RateLimit.{try_acquire_at}
use drm3_rpc_pool.Pool.State.{PoolEntry, Sys, enter, leave, modify_entry, emit, read_clock}
use drm3_rpc_pool.Pool.Dispatch.{Loop, fresh_loop, Waiting, out_of_budget}
use drm3_rpc_pool.Pool.Threads.Operations.{
  Phase, scanning, noting, sorting, ready, throttling, granted, announced, numbered, timed,
  awaiting, replied, measured, recorded, reported, over, look, note, approach, acquire, announce,
  number, set_off, verdict_of, keep_record, report, after,
}

pub record World (Value : Type 0) : Type 0 where
  pub sys : Sys
  pub threads : List (Phase Value)

module _ {Value A : Type 0} (serde : Serde Value) (clock : ℕ → ℕ)
    (handle : Bytes → Result A ResponseError) where
  -- The next operation of a thread. A call that sorts or awaits is moved on by a step of its own.
  unfoldable pub act : Phase Value → Sys → Sys × Phase Value
  unfolding look note approach acquire announce number set_off keep_record report
  act (scanning method params now i found) sys = look method params now i found sys
  act (noting method params now i found) sys = note method params now i found sys
  act (sorting method params found) sys = (sys, sorting method params found)
  act (ready method params [] loop) sys = (sys, over)
  act (ready method params (i ∷ rest) loop) sys = approach clock method params i rest loop sys
  act (throttling method params i rest loop now) sys = acquire method params i rest loop now sys
  act (granted method params i rest loop) sys = announce method params i rest loop sys
  act (announced method params i rest loop) sys = number serde method params i rest loop sys
  act (numbered method params i rest loop body) sys =
      set_off clock method params i rest loop body sys
  act (timed method params w rest) sys =
      (modify_entry sys w.index enter, awaiting method params w rest)
  act (awaiting method params w rest) sys = (sys, awaiting method params w rest)
  act (replied method params w rest reply) sys =
      let (sys', now) = read_clock clock sys in
      (sys', measured method params w rest (now - w.started_at) (verdict_of handle reply))
  act (measured method params w rest latency verdict) sys =
      (keep_record clock w latency verdict sys, recorded method params w rest latency verdict)
  act (recorded method params w rest latency verdict) sys =
      (report method w latency verdict sys, reported method params w rest verdict)
  act (reported method params w rest verdict) sys =
      (modify_entry sys w.index leave, after method params w rest verdict)
  act over sys = (sys, over)

  pub open_call : String → Value → World Value → World Value
  open_call method params world =
      let (sys, now) = read_clock clock world.sys in
      record { sys = sys; threads = world.threads ++ scanning method params now 0 [] ∷ [] }

  pub move : ℕ → Phase Value → World Value → World Value
  unfolding act
  move k phase world =
      let (sys, phase') = act phase world.sys in
      record { sys = sys; threads = set world.threads k phase' }

  -- A future that is dropped at its await drops its guard, and nothing else.
  pub drop_call : ℕ → Waiting → World Value → World Value
  drop_call k w world = record {
    sys = modify_entry world.sys w.index leave;
    threads = set world.threads k over;
  }

  -- The sort reads the loads again at every comparison, while other threads change them: it may
  -- leave the candidates in any order.
  pub data Step (world : World Value) : World Value → Type 0 where
    begins : (method : String) (params : Value) → Step world (open_call method params world)
    acts :
        (k : ℕ) (phase : Phase Value)
        → get_elem? world.threads k ≡ some phase
        → Step world (move k phase world)
    sorts :
        (k : ℕ) (method : String) (params : Value) (found candidates : List ℕ)
        → get_elem? world.threads k ≡ some (sorting method params found)
        → Perm found candidates
        → Step world (record world {
          threads = set world.threads k (ready method params candidates fresh_loop);
        })
    delivers :
        (k : ℕ) (method : String) (params : Value) (w : Waiting) (rest : List ℕ)
        (reply : Result Bytes String)
        → get_elem? world.threads k ≡ some (awaiting method params w rest)
        → Step world
            (record world { threads = set world.threads k (replied method params w rest reply) })
    cancels :
        (k : ℕ) (method : String) (params : Value) (w : Waiting) (rest : List ℕ)
        → get_elem? world.threads k ≡ some (awaiting method params w rest)
        → Step world (drop_call k w world)

  pub data Reach (world : World Value) : World Value → Type 0 where
    here : Reach world world
    next : {v w : World Value} → Reach world v → Step v w → Reach world w
