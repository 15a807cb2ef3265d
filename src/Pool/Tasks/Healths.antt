-- ===== src/Pool/Tasks/Healths.antt =====
-- The endpoints' health in src/pool/mod.rs under any interleaving of tasks. The specification is a
-- ledger: a list of reports, each on the endpoint at an index. An endpoint's health is the replay of
-- the reports that are filed on it.
use drm3_rpc_pool.Prelude.{
  ℕ, ◌≡◌, refl, ap, ◌∙◌, String, List, [], ◌∷◌, some, Result, get_elem?, ◌==◌, if◌then◌else◌,
  Bool-cases, inl, inr,
}
use drm3_rpc_pool.Health.{BackoffPolicy, EndpointHealth}
use drm3_rpc_pool.Health.History.{Report, apply_report, replay}
use drm3_rpc_pool.Wire.{Bytes, Serde, ResponseError}
use drm3_rpc_pool.Pool.State.{Sys, leave, modify, modify_entry, read_clock}
use drm3_rpc_pool.Pool.State.Frame.{map-modify_unseen}
use drm3_rpc_pool.Pool.Candidates.{ordered_candidates}
use drm3_rpc_pool.Pool.Dispatch.Steps.Healths.{
  healths, start_attempt-healths, report_of, finish_attempt-healths,
}
use drm3_rpc_pool.Pool.Tasks.{
  World, begin, start, deliver, cancel, Step, begins, starts, delivers, cancels, ends, Reach, here,
  next,
}
use drm3_rpc_pool.Pool.Counters.{get_elem?-modify}

abbrev pub Ledger : Type 0
Ledger = List (ℕ × Report)

abbrev pub filed : ℕ → Ledger → List Report
filed j [] = []
filed j ((i, report) ∷ ledger) =
    let older = filed j ledger in if i == j then report ∷ older else older

module _ {Value A : Type 0} (serde : Serde Value) (clock : ℕ → ℕ)
    (handle : Bytes → Result A ResponseError) where
  -- Only a delivered reply is filed, on the endpoint it came from.
  abbrev pub ledger_of : {v w : World Value} → Reach serde clock handle v w → Ledger
  ledger_of here = []
  ledger_of (next r (begins method params)) = ledger_of r
  ledger_of (next r (starts k method params i rest loop at)) = ledger_of r
  ledger_of (next {v} r (delivers k method params reply w rest at)) =
      (w.index, report_of clock handle reply w v.sys) ∷ ledger_of r
  ledger_of (next r (cancels k method params w rest at)) = ledger_of r
  ledger_of (next r (ends k method params loop at)) = ledger_of r

  -- Every health is that of its reports.
  abbrev pub Replays : BackoffPolicy → Ledger → List EndpointHealth → Type 0
  Replays policy ledger hs =
      (j : ℕ) (h : EndpointHealth) → get_elem? hs j ≡ some h → h ≡ replay policy (filed j ledger)

  Replays-report :
      (policy : BackoffPolicy) (ledger : Ledger) (hs : List EndpointHealth) (i : ℕ)
      (report : Report)
      → Replays policy ledger hs
      → Replays policy ((i, report) ∷ ledger) (modify hs i (λ h. apply_report h report))
  unfolding replay
  Replays-report policy ledger hs i report all j h at =
      let (m, at', e) = get_elem?-modify hs i j h _ at in
      elim (Bool-cases (i == j)) [
        | inl same ↦ rw same (rw same at e ∙ ap (λ k. apply_report k report) (all j m at'))
        | inr other ↦ rw other (rw other at e ∙ all j m at')
      ]

  pub begin-healths :
      (method : String) (params : Value) (v : World Value)
      → healths (begin serde clock handle method params v).sys ≡ healths v.sys
  unfolding begin read_clock ordered_candidates
  begin-healths method params v = refl

  pub leave-healths : (i : ℕ) (s : Sys) → healths (modify_entry s i leave) ≡ healths s
  unfolding modify_entry leave
  leave-healths i s = map-modify_unseen (λ e. e.health) _ s.pool.entries i (λ x. refl)

  Step-Replays :
      (policy : BackoffPolicy) {u v w : World Value} (r : Reach serde clock handle u v)
      (step : Step serde clock handle v w)
      → Replays policy (ledger_of r) (healths v.sys)
      → Replays policy (ledger_of (next r step)) (healths w.sys)
  unfolding begin start deliver cancel
  Step-Replays policy {v = v} r (begins method params) all = rw (begin-healths method params v) all
  Step-Replays policy {v = v} r (starts k method params i rest loop at) all =
      rw (start_attempt-healths clock serde method params i loop v.sys) all
  Step-Replays policy {v = v} r (delivers k method params reply w rest at) all =
      rw (finish_attempt-healths clock handle method reply w v.sys)
        (Replays-report policy (ledger_of r) _ w.index _ all)
  Step-Replays policy {v = v} r (cancels k method params w rest at) all =
      rw (leave-healths w.index v.sys) all
  Step-Replays policy r (ends k method params loop at) all = all

  -- Where every endpoint starts with a fresh health: after any calls, however their rounds
  -- interleave, and with any replies and cancellations, the health of each endpoint is the replay of
  -- the reports of the replies that were delivered from it, in their order, and of nothing else.
  pub Reach-Replays :
      (policy : BackoffPolicy) {v w : World Value} (r : Reach serde clock handle v w)
      → Replays policy [] (healths v.sys)
      → Replays policy (ledger_of r) (healths w.sys)
  Reach-Replays policy here fresh = fresh
  Reach-Replays policy (next r step) fresh =
      Step-Replays policy r step (Reach-Replays policy r fresh)
