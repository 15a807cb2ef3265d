-- ===== src/Pool/Dispatch/Timeout.antt =====
-- `RpcPool::call_with_timeout` of src/pool/mod.rs: `call` under a timer. Which of the awaits the
-- deadline interrupts is a parameter, by the reading of the clock at which the await begins. A call
-- that is dropped at an await drops its in-flight guard.
pub mod Deadlines
use drm3_rpc_pool.Prelude.{
  ℕ, String, Bool, true, false, List, [], ◌∷◌, Option, none, some, Result, ok, err, concat,
}
use drm3_rpc_pool.Error.{transport}
use drm3_rpc_pool.Config.{for_method}
use drm3_rpc_pool.Wire.{Bytes, Serde, ResponseError, parse_rpc_response}
use drm3_rpc_pool.Pool.State.{Sys, leave, modify_entry, read_clock}
use drm3_rpc_pool.Pool.Candidates.{Scan, ordered_candidates}
use drm3_rpc_pool.Pool.Dispatch.{
  Loop, fresh_loop, skipped, stopped, refused, sent, out_of_range, succeeded, failed_over, Outcome,
  returned, panicked, exhausted, start_attempt, finish_attempt, Transport, ask,
}

module _ {Value : Type 0} (serde : Serde Value) (clock : ℕ → ℕ) (post : Transport) (late : ℕ → Bool)
    (method : String) (params : Value) where
  -- The loop of `call` up to the deadline; nothing where that comes first.
  pub timed_dispatch : Scan → List ℕ → Loop → Sys → Sys × Option (Outcome Value)
  unfolding start_attempt finish_attempt exhausted leave modify_entry
  timed_dispatch found [] loop sys = (sys, some (returned (err (exhausted method found loop))))
  timed_dispatch found (i ∷ rest) loop sys =
      let (sys', step) = start_attempt clock serde method params i loop sys in
      elim step [
        | skipped loop' ↦ timed_dispatch found rest loop' sys'
        | stopped ↦ (sys', some (returned (err (exhausted method found loop))))
        | refused e ↦ (sys', some (returned (err e)))
        | out_of_range ↦ (sys', some panicked)
        | sent w ↦ elim (late sys'.reads) [
          | true ↦ (modify_entry sys' w.index leave, none)
          | false ↦
              let (sys'', reply) =
                finish_attempt clock (parse_rpc_response serde) method (ask post sys' w) w sys' in
              elim reply [
                | succeeded a ↦ (sys'', some (returned (ok a)))
                | failed_over loop' ↦ timed_dispatch found rest loop' sys''
              ]
        ]
      ]

  -- `deadline` is the `{:?}` form of the duration.
  pub timed_outcome : String → Option (Outcome Value) → Outcome Value
  timed_outcome deadline none =
      returned (err (transport "<pool>" (concat ("pool-wide timeout after " ∷ deadline ∷ []))))
  timed_outcome deadline (some o) = o

  unfoldable pub call_with_timeout : String → Sys → Sys × Outcome Value
  unfolding timed_dispatch timed_outcome ordered_candidates
  call_with_timeout deadline sys =
      let (sys', now) = read_clock clock sys in
      let (sys'', found) = ordered_candidates sys' (for_method method) now method in
      let (done, o) = timed_dispatch found found.candidates fresh_loop sys'' in
      (done, timed_outcome deadline o)
