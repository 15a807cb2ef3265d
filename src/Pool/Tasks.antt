-- ===== src/Pool/Tasks.antt =====
-- Many calls of one of the methods `call` and `forward` of src/pool/mod.rs on one pool, at once: which
-- one is the argument `handle`, the same for all. A task is one call; a
-- step runs one task up to its next await, delivers the reply that a task awaits, or drops a task.
-- What a task does between two awaits is one step; Pool/Threads has its single operations, as they
-- interleave with those of other threads.
pub mod Loads
pub mod Lifetime
pub mod Healths
pub mod Tags
pub mod Rollups
mod Tests
use drm3_rpc_pool.Prelude.{ℕ, ◌≡◌, String, List, [], ◌∷◌, ◌++◌, some, Result, get_elem?, set}
use drm3_rpc_pool.Config.{for_method}
use drm3_rpc_pool.Wire.{Bytes, Serde, ResponseError}
use drm3_rpc_pool.Pool.State.{Sys, leave, modify_entry, read_clock}
use drm3_rpc_pool.Pool.Candidates.{ordered_candidates}
use drm3_rpc_pool.Pool.Dispatch.{
  Loop, fresh_loop, Waiting, Started, skipped, stopped, refused, sent, out_of_range, Finished,
  succeeded, failed_over, start_attempt, finish_attempt,
}

-- A call at the head of a round, with the candidates that are left; or at its await; or over.
pub data Task (Value : Type 0) : Type 0 where
  ready : String → Value → List ℕ → Loop → Task Value
  awaiting : String → Value → Waiting → List ℕ → Task Value
  over : Task Value

pub record World (Value : Type 0) : Type 0 where
  pub sys : Sys
  pub tasks : List (Task Value)

module _ {Value A : Type 0} (serde : Serde Value) (clock : ℕ → ℕ)
    (handle : Bytes → Result A ResponseError) where
  abbrev pub after_start : String → Value → List ℕ → Started → Task Value
  after_start method params rest (skipped loop) = ready method params rest loop
  after_start method params rest stopped = over
  after_start method params rest (refused e) = over
  after_start method params rest (sent w) = awaiting method params w rest
  after_start method params rest out_of_range = over

  abbrev pub after_reply : String → Value → List ℕ → Finished A → Task Value
  after_reply method params rest (succeeded a) = over
  after_reply method params rest (failed_over loop) = ready method params rest loop

  -- The first round's candidates, and the pool after the routing.
  unfoldable pub begin : String → Value → World Value → World Value
  begin method params world =
      let (sys, now) = read_clock clock world.sys in
      let (sys', found) = ordered_candidates sys (for_method method) now method in
      record {
        sys = sys';
        tasks = world.tasks ++ ready method params found.candidates fresh_loop ∷ [];
      }

  unfoldable pub start : ℕ → String → Value → ℕ → List ℕ → Loop → World Value → World Value
  start k method params i rest loop world =
      let (sys', step) = start_attempt clock serde method params i loop world.sys in
      record { sys = sys'; tasks = set world.tasks k (after_start method params rest step) }

  unfoldable pub deliver :
      ℕ → String → Value → Result Bytes String → Waiting → List ℕ → World Value → World Value
  deliver k method params reply w rest world =
      let (sys', step) = finish_attempt clock handle method reply w world.sys in
      record { sys = sys'; tasks = set world.tasks k (after_reply method params rest step) }

  -- A future that is dropped at its await drops its guard, and nothing else.
  unfoldable pub cancel : ℕ → Waiting → World Value → World Value
  cancel k w world = record {
    sys = modify_entry world.sys w.index leave;
    tasks = set world.tasks k over;
  }

  pub data Step (world : World Value) : World Value → Type 0 where
    begins : (method : String) (params : Value) → Step world (begin method params world)
    starts :
        (k : ℕ) (method : String) (params : Value) (i : ℕ) (rest : List ℕ) (loop : Loop)
        → get_elem? world.tasks k ≡ some (ready method params (i ∷ rest) loop)
        → Step world (start k method params i rest loop world)
    delivers :
        (k : ℕ) (method : String) (params : Value) (reply : Result Bytes String) (w : Waiting)
        (rest : List ℕ)
        → get_elem? world.tasks k ≡ some (awaiting method params w rest)
        → Step world (deliver k method params reply w rest world)
    cancels :
        (k : ℕ) (method : String) (params : Value) (w : Waiting) (rest : List ℕ)
        → get_elem? world.tasks k ≡ some (awaiting method params w rest)
        → Step world (cancel k w world)
    ends :
        (k : ℕ) (method : String) (params : Value) (loop : Loop)
        → get_elem? world.tasks k ≡ some (ready method params [] loop)
        → Step world (record world { tasks = set world.tasks k over })

  pub data Reach (world : World Value) : World Value → Type 0 where
    here : Reach world world
    next : {v w : World Value} → Reach world v → Step v w → Reach world w
