-- ===== src/Pool/Dispatch/Runs.antt =====
-- The loop of src/pool/mod.rs as a relation: the rounds that a run of it may be made of, each with
-- what it does to the pool. The loop refines it, and what holds of every run is proved on it.
use drm3_rpc_pool.Prelude.{ℕ, ◌≡◌, refl, String, List, [], ◌∷◌, none, get_elem?, Result, ok, err}
use drm3_rpc_pool.Error.{RpcError}
use drm3_rpc_pool.Wire.{Bytes, Serde, ResponseError}
use drm3_rpc_pool.Pool.State.{Sys}
use drm3_rpc_pool.Pool.Candidates.{Scan}
use drm3_rpc_pool.Pool.Dispatch.{
  Loop, Waiting, Started, skipped, stopped, refused, sent, out_of_range, Finished, succeeded,
  failed_over, Outcome, returned, panicked, exhausted, start_attempt, finish_attempt, Transport,
  ask, dispatch,
}
use drm3_rpc_pool.Pool.Dispatch.Steps.{StartFacts, start_attempt-facts}
use drm3_rpc_pool.Pool.Dispatch.Steps.Replies.{FinishFacts, finish_attempt-facts}

module _ {Value A : Type 0} (serde : Serde Value) (clock : ℕ → ℕ) (post : Transport)
    (handle : Bytes → Result A ResponseError) (method : String) (params : Value)
    (found : Scan) where
  pub data Runs : List ℕ → Loop → Sys → Sys → Outcome A → Type 0 where
    ends : (loop : Loop) (s : Sys) → Runs [] loop s s (returned (err (exhausted method found loop)))
    skips :
        {i : ℕ} {rest : List ℕ} {loop loop' : Loop} {s t u : Sys} {o : Outcome A}
        → StartFacts clock serde method params i loop s t (skipped loop')
        → Runs rest loop' t u o
        → Runs (i ∷ rest) loop s u o
    stops :
        {i : ℕ} {rest : List ℕ} {loop : Loop} {s t : Sys}
        → StartFacts clock serde method params i loop s t stopped
        → Runs (i ∷ rest) loop s t (returned (err (exhausted method found loop)))
    refuses :
        {i : ℕ} {rest : List ℕ} {loop : Loop} {s t : Sys} {e : RpcError}
        → StartFacts clock serde method params i loop s t (refused e)
        → Runs (i ∷ rest) loop s t (returned (err e))
    panics :
        {i : ℕ} {rest : List ℕ} {loop : Loop} {s t : Sys}
        → get_elem? s.pool.entries i ≡ none
        → t ≡ s
        → Runs (i ∷ rest) loop s t panicked
    answers :
        {i : ℕ} {rest : List ℕ} {loop : Loop} {s t u : Sys} {w : Waiting} {a : A}
        → StartFacts clock serde method params i loop s t (sent w)
        → FinishFacts clock handle method (ask post t w) w t u (succeeded a)
        → Runs (i ∷ rest) loop s u (returned (ok a))
    fails :
        {i : ℕ} {rest : List ℕ} {loop loop' : Loop} {s t u v : Sys} {w : Waiting} {o : Outcome A}
        → StartFacts clock serde method params i loop s t (sent w)
        → FinishFacts clock handle method (ask post t w) w t u (failed_over loop')
        → Runs rest loop' u v o
        → Runs (i ∷ rest) loop s v o

  abbrev Made : List ℕ → Type 0
  Made is =
      (loop : Loop) (s : Sys)
      → Runs is loop s (dispatch serde clock post handle method params found is loop s).0
          (dispatch serde clock post handle method params found is loop s).1

  after_reply :
      (i : ℕ) (rest : List ℕ) (loop : Loop) (s : Sys) (w : Waiting) (reply : Finished A)
      → Made rest
      → (let begun = start_attempt clock serde method params i loop s in
          let ended = finish_attempt clock handle method (ask post begun.0 w) w begun.0 in
          begun.1 ≡ sent w
          → ended.1 ≡ reply
          → StartFacts clock serde method params i loop s begun.0 (sent w)
          → FinishFacts clock handle method (ask post begun.0 w) w begun.0 ended.0 reply
          → Runs
              (i ∷ rest)
              loop
              s
              (dispatch serde clock post handle method params found (i ∷ rest) loop s).0
              (dispatch serde clock post handle method params found (i ∷ rest) loop s).1)
  unfolding dispatch
  after_reply i rest loop s w (succeeded a) later e e' facts facts' =
      rw (e, dispatch, e') (answers facts facts')
  after_reply i rest loop s w (failed_over loop') later e e' facts facts' =
      rw (e, dispatch, e') (fails facts facts' (later loop' _))

  after_start :
      (i : ℕ) (rest : List ℕ) (loop : Loop) (s : Sys) (step : Started)
      → Made rest
      → (let begun = start_attempt clock serde method params i loop s in
          begun.1 ≡ step
          → StartFacts clock serde method params i loop s begun.0 step
          → Runs
              (i ∷ rest)
              loop
              s
              (dispatch serde clock post handle method params found (i ∷ rest) loop s).0
              (dispatch serde clock post handle method params found (i ∷ rest) loop s).1)
  unfolding dispatch
  after_start i rest loop s (skipped loop') later e facts =
      rw (e, dispatch) (skips facts (later loop' _))
  after_start i rest loop s stopped later e facts = rw (e, dispatch) (stops facts)
  after_start i rest loop s (refused m) later e facts = rw (e, dispatch) (refuses facts)
  after_start i rest loop s out_of_range later e facts = rw (e, dispatch) (panics facts.0 facts.1)
  after_start i rest loop s (sent w) later e facts =
      let t = (start_attempt clock serde method params i loop s).0 in
      after_reply i rest loop s w _ later e refl facts
        (finish_attempt-facts clock handle method (ask post t w) w t)

  -- The loop makes such a run, for every list of candidates.
  pub dispatch-Runs :
      (is : List ℕ) (loop : Loop) (s : Sys)
      → Runs is loop s
          (dispatch serde clock post handle method params found is loop s).0
          (dispatch serde clock post handle method params found is loop s).1
  unfolding dispatch
  dispatch-Runs [] loop s = ends loop s
  dispatch-Runs (i ∷ rest) loop s =
      after_start i rest loop s _ (dispatch-Runs rest) refl
        (start_attempt-facts clock serde method params i loop s)
