-- ===== src/Pool/Tasks/Loads.antt =====
-- The load counters of src/pool/mod.rs under any interleaving of tasks.
use drm3_rpc_pool.Prelude.{
  ℕ, ◌≡◌, refl, ap, String, List, [], ◌∷◌, some, Result, get_elem?, set, ◌==◌, if◌then◌else◌, arith,
}
use drm3_rpc_pool.Wire.{Bytes, Serde, ResponseError}
use drm3_rpc_pool.Pool.State.{Sys, modify, leave, modify_entry, read_clock}
use drm3_rpc_pool.Pool.State.Frame.{loads, map-modify}
use drm3_rpc_pool.Pool.Candidates.{ordered_candidates}
use drm3_rpc_pool.Pool.Dispatch.{
  Loop, Waiting, Started, skipped, stopped, refused, sent, out_of_range, Finished, succeeded,
  failed_over,
}
use drm3_rpc_pool.Pool.Dispatch.Steps.{down, StartFacts, start_attempt-facts}
use drm3_rpc_pool.Pool.Dispatch.Steps.Replies.{FinishFacts, finish_attempt-facts}
use drm3_rpc_pool.Prelude.Sums.{total, total-append, total-set}
use drm3_rpc_pool.Pool.Counters.{Agrees, Agrees-keep, Agrees-up, Agrees-down}
use drm3_rpc_pool.Pool.Tasks.{
  Task, ready, awaiting, over, World, after_start, after_reply, begin, start, deliver, cancel, Step,
  begins, starts, delivers, cancels, ends, Reach, here, next,
}

module _ {Value : Type 0} where
  -- Whether a task awaits the entry at an index, as a number.
  abbrev pub awaits : ℕ → Task Value → ℕ
  awaits j (ready method params rest loop) = 0
  awaits j (awaiting method params w rest) = if w.index == j then 1 else 0
  awaits j over = 0

  abbrev pub pending : ℕ → List (Task Value) → ℕ
  pending j = total (awaits j)

-- The counter of every entry is the number of tasks that await it, modulo 2^64.
abbrev pub Exact : {Value : Type 0} → List ℕ → List (Task Value) → Type 0
Exact counters tasks = Agrees counters (λ j. pending j tasks)

module _ {Value A : Type 0} (serde : Serde Value) (clock : ℕ → ℕ)
    (handle : Bytes → Result A ResponseError) where
  loads-begin :
      (method : String) (params : Value) (v : World Value)
      → loads (begin serde clock handle method params v).sys ≡ loads v.sys
  unfolding begin read_clock ordered_candidates
  loads-begin method params v = refl

  loads-leave : (i : ℕ) (s : Sys) → loads (modify_entry s i leave) ≡ modify (loads s) i down
  unfolding modify_entry leave
  loads-leave i s = map-modify (λ e. e.in_flight) _ down s.pool.entries i (λ x. refl)

  after_start-Exact :
      (tasks : List (Task Value)) (k i : ℕ) (method : String) (params : Value) (rest : List ℕ)
      (loop : Loop) (s t : Sys) (step : Started)
      → get_elem? tasks k ≡ some (ready method params (i ∷ rest) loop)
      → StartFacts clock serde method params i loop s t step
      → Exact (loads s) tasks
      → Exact (loads t) (set tasks k (after_start serde clock handle method params rest step))
  after_start-Exact tasks k i method params rest loop s t (skipped loop') at facts exact =
      Agrees-keep (loads s) (loads t) (λ j. pending j tasks) _ facts.0.same_loads
        (λ j. omega (arith, total-set (awaits j) k tasks _ (ready method params rest loop') at))
        exact
  after_start-Exact tasks k i method params rest loop s t stopped at facts exact =
      Agrees-keep (loads s) (loads t) (λ j. pending j tasks) _ facts.0.same_loads
        (λ j. omega (arith, total-set (awaits j) k tasks _ over at)) exact
  after_start-Exact tasks k i method params rest loop s t (refused e) at facts exact =
      Agrees-keep (loads s) (loads t) (λ j. pending j tasks) _ facts.1
        (λ j. omega (arith, total-set (awaits j) k tasks _ over at)) exact
  after_start-Exact tasks k i method params rest loop s t out_of_range at facts exact =
      Agrees-keep (loads s) (loads t) (λ j. pending j tasks) _ (ap loads facts.1)
        (λ j. omega (arith, total-set (awaits j) k tasks _ over at)) exact
  after_start-Exact tasks k i method params rest loop s t (sent w) at facts exact =
      Agrees-up (loads s) (loads t) (λ j. pending j tasks) _ i facts.loads_up
        (λ j. ground (
          arith,
          total-set (awaits j) k tasks _ (awaiting method params w rest) at,
          facts.index_is,
        ))
        exact

  after_reply-Exact :
      (tasks : List (Task Value)) (k : ℕ) (method : String) (params : Value)
      (reply : Result Bytes String) (w : Waiting) (rest : List ℕ) (s t : Sys) (step : Finished A)
      → get_elem? tasks k ≡ some (awaiting method params w rest)
      → FinishFacts clock handle method reply w s t step
      → Exact (loads s) tasks
      → Exact (loads t) (set tasks k (after_reply serde clock handle method params rest step))
  after_reply-Exact tasks k method params reply w rest s t (succeeded a) at facts exact =
      Agrees-down (loads s) (loads t) (λ j. pending j tasks) _ w.index facts.0.loads_down
        (λ j. omega (arith, total-set (awaits j) k tasks _ over at)) exact
  after_reply-Exact tasks k method params reply w rest s t (failed_over loop) at facts exact =
      Agrees-down (loads s) (loads t) (λ j. pending j tasks) _ w.index facts.0.loads_down
        (λ j. omega (arith, total-set (awaits j) k tasks _ (ready method params rest loop) at))
        exact

  Step-Exact :
      {v w : World Value}
      → Step serde clock handle v w
      → Exact (loads v.sys) v.tasks
      → Exact (loads w.sys) w.tasks
  unfolding begin start deliver cancel
  Step-Exact {v} (begins method params) exact =
      Agrees-keep (loads v.sys) _ (λ j. pending j v.tasks) _ (loads-begin method params v)
        (λ j. omega (arith, total-append (awaits j) v.tasks (_ ∷ []))) exact
  Step-Exact {v} (starts k method params i rest loop at) exact =
      after_start-Exact v.tasks k i method params rest loop v.sys _ _ at
        (start_attempt-facts clock serde method params i loop v.sys) exact
  Step-Exact {v} (delivers k method params reply w rest at) exact =
      after_reply-Exact v.tasks k method params reply w rest v.sys _ _ at
        (finish_attempt-facts clock handle method reply w v.sys) exact
  Step-Exact {v} (cancels k method params w rest at) exact =
      Agrees-down (loads v.sys) _ (λ j. pending j v.tasks) _ w.index (loads-leave w.index v.sys)
        (λ j. omega (arith, total-set (awaits j) k v.tasks _ over at)) exact
  Step-Exact {v} (ends k method params loop at) exact =
      Agrees-keep (loads v.sys) _ (λ j. pending j v.tasks) _ refl
        (λ j. omega (arith, total-set (awaits j) k v.tasks _ over at)) exact

  -- Whatever calls are begun, however their rounds interleave, whichever replies arrive and
  -- whichever calls are dropped at their await: where the load counter of every entry was the number
  -- of calls awaiting that entry, modulo 2^64, it still is.
  pub Reach-Exact :
      {v w : World Value}
      → Reach serde clock handle v w
      → Exact (loads v.sys) v.tasks
      → Exact (loads w.sys) w.tasks
  Reach-Exact here exact = exact
  Reach-Exact (next r step) exact = Step-Exact step (Reach-Exact r exact)
