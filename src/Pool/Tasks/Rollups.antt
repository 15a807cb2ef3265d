-- ===== src/Pool/Tasks/Rollups.antt =====
-- A rollup of src/rollup.rs as the metrics sink of the pool of src/pool/mod.rs, under any interleaving
-- of tasks: what it is drained of, and what the endpoints' health counts.
use mathlib.Core.Option
use text.Mathlib.TextEquality.{eq_iff}
use text.Mathlib.TextPositions.{eq_refl}
use drm3_rpc_pool.Prelude.{
  ℕ, ◌%◌, ◌^◌, ◌≡◌, refl, ap, sym, ◌∙◌, String, Bool, List, [], ◌∷◌, some, some-eq-some, Result, ok,
  get_elem?, str_eq, ◌==◌, All, arith, Bool-cases, Result-cases, inl, inr,
}
use drm3_rpc_pool.Prelude.Sums.{total}
use drm3_rpc_pool.Config.{RpcPoolConfig, tag}
use drm3_rpc_pool.Config.Validate.{validate}
use drm3_rpc_pool.Health.{BackoffPolicy, EndpointHealth}
use drm3_rpc_pool.Health.History.{
  Report, succeeded, failed, successes, failures, replay, replay-Tracks,
}
use drm3_rpc_pool.Wire.{Bytes, Serde, ResponseError}
use drm3_rpc_pool.Metrics.{Event}
use drm3_rpc_pool.Metrics.Sinks.{rollup_metrics, fire_all}
use drm3_rpc_pool.Rollup.{EndpointRollup, drain}
use drm3_rpc_pool.Rollup.Totals.{for_endpoint, drain-Totals}
use drm3_rpc_pool.Rollup.Windows.{received, successes_of, failures_of}
use drm3_rpc_pool.Pool.State.{PoolEntry, Sys, new, modify_entry, read_clock}
use drm3_rpc_pool.Pool.State.Fresh.{new-IsFresh}
use drm3_rpc_pool.Pool.State.Frame.{get_elem?-map}
use drm3_rpc_pool.Pool.Dispatch.Steps.Healths.{report_of}
use drm3_rpc_pool.Pool.Dispatch.Steps.Sinks.{
  hook, windows, ordered_candidates-windows, start_attempt-windows, finish_attempt-windows,
}
use drm3_rpc_pool.Pool.Tasks.{
  World, begin, start, deliver, cancel, begins, starts, delivers, cancels, ends, Reach, here, next,
}
use drm3_rpc_pool.Pool.Tasks.Tags.{tags, Signed, All-get_elem?, Reach-Tagged}
use drm3_rpc_pool.Pool.Tasks.Healths.{Ledger, filed, ledger_of, Reach-Replays}
use drm3_rpc_pool.Pool.Tasks.Lifetime.{fresh-Replays}

-- The outcomes that a rollup counts for a tag are those of the reports on the endpoint at an index.
record SameCounts (t : String) (j : ℕ) (log : List Event) (ledger : Ledger) : Type 0 where
  succeeded : successes_of t log ≡ successes (filed j ledger)
  failed : failures_of t log ≡ failures (filed j ledger)

SameCounts-cons :
    (t : String) (j : ℕ) (log : List Event) (ledger : Ledger) (u method : String) (i : ℕ)
    (report : Report)
    → str_eq u t ≡ (i == j)
    → SameCounts t j log ledger
    → SameCounts t j (hook u method report ∷ log) ((i, report) ∷ ledger)
SameCounts-cons t j log ledger u method i (succeeded latency now) same agrees =
    elim (Bool-cases (i == j)) [
      | inl h ↦ ground (arith, same, agrees, h)
      | inr h ↦ ground (arith, same, agrees, h)
    ]
SameCounts-cons t j log ledger u method i (failed error latency now) same agrees =
    elim (Bool-cases (i == j)) [
      | inl h ↦ ground (arith, same, agrees, h)
      | inr h ↦ ground (arith, same, agrees, h)
    ]

-- No two endpoints have the same tag.
abbrev pub DistinctTags : Sys → Type 0
DistinctTags sys =
    (i j : ℕ) (t : String)
    → get_elem? (tags sys) i ≡ some t
    → get_elem? (tags sys) j ≡ some t
    → i ≡ j

same_endpoint :
    (tagged : List String) (i j : ℕ) (u t : String)
    → ((i j : ℕ) (t : String) → get_elem? tagged i ≡ some t → get_elem? tagged j ≡ some t → i ≡ j)
    → get_elem? tagged i ≡ some u
    → get_elem? tagged j ≡ some t
    → str_eq u t ≡ (i == j)
same_endpoint tagged i j u t distinct at at' = elim (Bool-cases (str_eq u t)) [
  | inl same ↦
      let u_is = (eq_iff u t).0 same in
      let i_is = distinct i j t (at ∙ ap some u_is) at' in ground (arith, same, i_is)
  | inr other ↦ elim (Bool-cases (i == j)) [
    | inr apart ↦ rw (other, apart) refl
    | inl same ↦
        let i_is : i ≡ j = ground (arith, same) in
        let u_is : u ≡ t = some-eq-some (sym at ∙ ap (get_elem? tagged) i_is ∙ at') in
        absurd (ground (arith, other, u_is, eq_refl t))
  ]
]

module _ {Value A : Type 0} (serde : Serde Value) (clock : ℕ → ℕ)
    (handle : Bytes → Result A ResponseError) where
  -- The hooks of the replies that were delivered, newest first.
  abbrev outcomes : {v w : World Value} → Reach serde clock handle v w → List Event
  outcomes here = []
  outcomes (next r (begins method params)) = outcomes r
  outcomes (next r (starts k method params i rest loop at)) = outcomes r
  outcomes (next {v} r (delivers k method params reply w rest at)) =
      hook w.endpoint_tag method (report_of clock handle reply w v.sys) ∷ outcomes r
  outcomes (next r (cancels k method params w rest at)) = outcomes r
  outcomes (next r (ends k method params loop at)) = outcomes r

  Reach-windows :
      {v w : World Value} (r : Reach serde clock handle v w)
      → v.sys.events ≡ []
      → windows w.sys ≡ received (outcomes r)
  unfolding received begin start deliver cancel read_clock modify_entry
  Reach-windows here silent = rw silent refl
  Reach-windows (next {v} r (begins method params)) silent =
      ordered_candidates-windows _ _ _ method ∙ Reach-windows r silent
  Reach-windows (next {v} r (starts k method params i rest loop at)) silent =
      start_attempt-windows clock serde method params i loop v.sys ∙ Reach-windows r silent
  Reach-windows (next {v} r (delivers k method params reply w rest at)) silent =
      rw (finish_attempt-windows clock handle method reply w v.sys, Reach-windows r silent) refl
  Reach-windows (next r (cancels k method params w rest at)) silent = Reach-windows r silent
  Reach-windows (next r (ends k method params loop at)) silent = Reach-windows r silent

  Reach-SameCounts :
      {v w : World Value} (r : Reach serde clock handle v w) (j : ℕ) (t : String)
      → DistinctTags v.sys
      → All (Signed (tags v.sys)) v.tasks
      → get_elem? (tags v.sys) j ≡ some t
      → SameCounts t j (outcomes r) (ledger_of serde clock handle r)
  Reach-SameCounts here j t distinct signed at' = record { succeeded = refl; failed = refl }
  Reach-SameCounts (next r (begins method params)) j t distinct signed at' =
      Reach-SameCounts r j t distinct signed at'
  Reach-SameCounts (next r (starts k method params i rest loop at)) j t distinct signed at' =
      Reach-SameCounts r j t distinct signed at'
  Reach-SameCounts {v} (next {v = u} r (delivers k method params reply w rest at)) j t distinct
        signed at' =
      let known =
        All-get_elem? (Signed (tags v.sys)) u.tasks k _ at
          (Reach-Tagged serde clock handle r signed).signed in
      SameCounts-cons t j _ _ w.endpoint_tag method w.index _
        (same_endpoint (tags v.sys) w.index j w.endpoint_tag t distinct known at')
        (Reach-SameCounts r j t distinct signed at')
  Reach-SameCounts (next r (cancels k method params w rest at)) j t distinct signed at' =
      Reach-SameCounts r j t distinct signed at'
  Reach-SameCounts (next r (ends k method params loop at)) j t distinct signed at' =
      Reach-SameCounts r j t distinct signed at'

-- The totals of an endpoint's health are what all the rollups of its tag count, modulo 2^64.
pub record Bills (health : EndpointHealth) (tag : String) (rollups : List EndpointRollup)
    : Type 0 where
  pub requests :
      health.inner.total_requests ≡ total (for_endpoint (λ r. r.requests) tag) rollups % 2 ^ 64
  pub succeeded :
      health.inner.total_successes ≡ total (for_endpoint (λ r. r.successes) tag) rollups % 2 ^ 64
  pub failed :
      health.inner.total_failures ≡ total (for_endpoint (λ r. r.failures) tag) rollups % 2 ^ 64

SameCounts-Bills :
    (policy : BackoffPolicy) (le : String → String → Bool) (t : String) (j : ℕ) (log : List Event)
    (ledger : Ledger)
    → SameCounts t j log ledger
    → Bills (replay policy (filed j ledger)) t (drain le (received log)).1
SameCounts-Bills policy le t j log ledger same =
    let kept = replay-Tracks policy (filed j ledger) in
    let counted = drain-Totals le log t in
    record {
      requests = ground (arith, kept, counted, same);
      succeeded = ground (arith, kept, counted, same);
      failed = ground (arith, kept, counted, same);
    }

new-silent :
    (clock : ℕ → ℕ) (config : RpcPoolConfig) (backoff : BackoffPolicy) (reads : ℕ) {sys : Sys}
    → new clock config backoff reads ≡ ok sys
    → sys.events ≡ []
unfolding new
new-silent clock config backoff reads e = elim (Result-cases (validate config)) [
  | inl (u, valid) ↦ let made = rw (valid, new) at e in ground (arith, made)
  | inr (m, invalid) ↦ let failed = rw (invalid, new) at e in cc
]

module _ {Value A : Type 0} (serde : Serde Value) (clock : ℕ → ℕ)
    (handle : Bytes → Result A ResponseError) where
  -- From a pool that `new` makes, of whose endpoints no two have the same tag, with a rollup as its
  -- sink, after any interleaving of calls, replies and cancellations: the rollups that are drained
  -- count, for each endpoint, the requests, the successes and the failures of its health, modulo
  -- 2^64.
  pub drain-Reach :
      (le : String → String → Bool) (config : RpcPoolConfig) (backoff : BackoffPolicy) (reads : ℕ)
      {sys : Sys} {w : World Value}
      → new clock config backoff reads ≡ ok sys
      → DistinctTags sys
      → Reach serde clock handle (record { sys = sys; tasks = [] }) w
      → (j : ℕ) (entry : PoolEntry) → get_elem? w.sys.pool.entries j ≡ some entry
      → Bills entry.health
          (tag entry.endpoint)
          (drain le (fire_all rollup_metrics [] w.sys.events)).1
  drain-Reach le config backoff reads {sys} {w} made distinct r j entry at =
      let (valid, same, sorted, fresh, budget) = new-IsFresh clock backoff config reads made in
      let health_is =
        Reach-Replays serde clock handle backoff r (fresh-Replays backoff sys.pool.entries fresh) j
          entry.health
          (get_elem?-map (λ e. e.health) w.sys.pool.entries j
            ∙ ap (Option.map (λ e. e.health)) at) in
      let tagged : get_elem? (tags sys) j ≡ some (tag entry.endpoint) =
        ap (λ l. get_elem? l j) (sym (Reach-Tagged serde clock handle r tt).same_tags)
        ∙ get_elem?-map (λ e. tag e.endpoint) w.sys.pool.entries j
        ∙ ap (Option.map (λ e. tag e.endpoint)) at in
      rw
        (health_is, Reach-windows serde clock handle r (new-silent clock config backoff reads made))
        (SameCounts-Bills backoff le (tag entry.endpoint) j _ _
          (Reach-SameCounts serde clock handle r j _ distinct tt tagged))
