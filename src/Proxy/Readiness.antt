-- ===== src/Proxy/Readiness.antt =====
-- What the health endpoint of src/proxy.rs says of a pool after any calls on it.
use drm3_rpc_pool.Prelude.{
  ℕ, zero, suc, ◌+◌, ◌≡◌, refl, ap, ◌∙◌, sym, List, [], ◌∷◌, some, Result, ok, map, get_elem?,
  length, ◌==◌, if◌then◌else◌, arith,
}
use drm3_rpc_pool.Prelude.Int.{pos}
use drm3_rpc_pool.Config.{RpcPoolConfig}
use drm3_rpc_pool.Health.{BackoffPolicy, EndpointHealth, snapshot}
use drm3_rpc_pool.Health.History.{Report, streak, replay, replay-Tracks}
use drm3_rpc_pool.Wire.{Bytes, Serde, ResponseError}
use drm3_rpc_pool.Pool.State.{PoolEntry, Sys, modify, new}
use drm3_rpc_pool.Pool.State.Fresh.{new-IsFresh}
use drm3_rpc_pool.Pool.Status.{statuses, status}
use drm3_rpc_pool.Pool.Dispatch.Steps.Healths.{
  healths, start_attempt-healths, finish_attempt-healths,
}
use drm3_rpc_pool.Pool.Tasks.{
  World, start, deliver, cancel, Step, begins, starts, delivers, cancels, ends, Reach, here, next,
}
use drm3_rpc_pool.Pool.Tasks.Healths.{
  Ledger, filed, ledger_of, begin-healths, leave-healths, Reach-Replays,
}
use drm3_rpc_pool.Pool.Tasks.Lifetime.{fresh-Replays}
use drm3_rpc_pool.Proxy.{Json, healthy, health_handler}
use drm3_rpc_pool.Proxy.Liveness.{new-nonempty}

length-modify {ℓ} :
    {A : Type ℓ} (xs : List A) (i : ℕ) (f : A → A) → length (modify xs i f) ≡ length xs
length-modify [] i f = refl
length-modify (x ∷ xs) zero f = refl
length-modify (x ∷ xs) (suc i) f = ap suc (length-modify xs i f)

length-map {ℓ κ} :
    {A : Type ℓ} {B : Type κ} (f : A → B) (xs : List A) → length (map f xs) ≡ length xs
length-map f [] = refl
length-map f (x ∷ xs) = ap suc (length-map f xs)

-- The number of the indices, from one on, whose last report is no failure.
abbrev pub calm : Ledger → ℕ → ℕ → ℕ
calm ledger j zero = 0
calm ledger j (suc n) =
    let more = calm ledger (suc j) n in if streak (filed j ledger) == 0 then suc more else more

-- Every health counts as healthy as the reports on its index say.
abbrev AsFiled : Ledger → ℕ → List EndpointHealth → Type 0
AsFiled ledger j hs =
    (k : ℕ) (h : EndpointHealth)
    → get_elem? hs k ≡ some h
    → (h.inner.consecutive_failures == 0) ≡ (streak (filed (j + k) ledger) == 0)

AsFiled-next :
    (ledger : Ledger) (j : ℕ) (h : EndpointHealth) (hs : List EndpointHealth)
    → AsFiled ledger j (h ∷ hs)
    → AsFiled ledger (suc j) hs
AsFiled-next ledger j h hs filed_so k h' at =
    let moved : suc j + k ≡ j + suc k = omega arith in rw moved (filed_so (suc k) h' at)

AsFiled-head :
    (ledger : Ledger) (j : ℕ) (h : EndpointHealth) (hs : List EndpointHealth)
    → AsFiled ledger j (h ∷ hs)
    → (h.inner.consecutive_failures == 0) ≡ (streak (filed j ledger) == 0)
AsFiled-head ledger j h hs filed_so =
    let same : j + 0 ≡ j = omega arith in rw same at (filed_so 0 h refl)

-- A replayed health counts as healthy as its last report says.
replay-calm :
    (policy : BackoffPolicy) (reports : List Report)
    → ((replay policy reports).inner.consecutive_failures == 0) ≡ (streak reports == 0)
replay-calm policy reports = ground (arith, (replay-Tracks policy reports).consecutive)

Replays-AsFiled :
    (policy : BackoffPolicy) (ledger : Ledger) (hs : List EndpointHealth)
    → ((j : ℕ) (h : EndpointHealth) → get_elem? hs j ≡ some h → h ≡ replay policy (filed j ledger))
    → AsFiled ledger 0 hs
Replays-AsFiled policy ledger hs replays k h at =
    let same : 0 + k ≡ k = omega arith in
    rw (same, replays k h at) (replay-calm policy (filed k ledger))

statuses-calm :
    {Value : Type 0} (json : Json Value) (clock : ℕ → ℕ) (ledger : Ledger) (j : ℕ)
    (entries : List PoolEntry) (reads : ℕ)
    → AsFiled ledger j (map (λ e. e.health) entries)
    → (length (statuses clock entries reads).1 ≡ length entries)
      × (healthy json (statuses clock entries reads).1 ≡ calm ledger j (length entries))
unfolding statuses snapshot healthy
statuses-calm json clock ledger j [] reads filed_so = (refl, refl)
statuses-calm json clock ledger j (e ∷ es) reads filed_so =
    let (total, count) =
      statuses-calm json clock ledger (suc j) es _
        (AsFiled-next ledger j e.health (map (λ e. e.health) es) filed_so) in
    let head = AsFiled-head ledger j e.health (map (λ e. e.health) es) filed_so in
    (ap suc total, rw (head, count) refl)

module _ {Value A : Type 0} (serde : Serde Value) (clock : ℕ → ℕ)
    (handle : Bytes → Result A ResponseError) where
  Step-length :
      {v w : World Value}
      → Step serde clock handle v w
      → length (healths w.sys) ≡ length (healths v.sys)
  unfolding start deliver cancel
  Step-length {v} (begins method params) =
      ap (length {A = EndpointHealth}) (begin-healths serde clock handle method params v)
  Step-length {v} (starts k method params i rest loop at) =
      ap (length {A = EndpointHealth})
        (start_attempt-healths clock serde method params i loop v.sys)
  Step-length {v} (delivers k method params reply w rest at) =
      ap (length {A = EndpointHealth}) (finish_attempt-healths clock handle method reply w v.sys)
      ∙ length-modify (healths v.sys) w.index _
  Step-length {v} (cancels k method params w rest at) =
      ap (length {A = EndpointHealth}) (leave-healths serde clock handle w.index v.sys)
  Step-length (ends k method params loop at) = refl

  Reach-length :
      {v w : World Value}
      → Reach serde clock handle v w
      → length (healths w.sys) ≡ length (healths v.sys)
  Reach-length here = refl
  Reach-length (next r step) = Step-length step ∙ Reach-length r

  -- From a pool that `new` makes, after any calls, however their rounds interleave, and with any
  -- replies and cancellations: the health endpoint answers 200 and leaves the pool as it is; it
  -- counts every endpoint, and counts as healthy exactly those of which no reply was delivered or
  -- the last one was a success.
  pub health_handler-Reach :
      {Document : Type 0} (json : Json Document) (config : RpcPoolConfig) (backoff : BackoffPolicy)
      (reads : ℕ) {sys : Sys} {w : World Value}
      → new clock config backoff reads ≡ ok sys
      → (r : Reach serde clock handle (record { sys = sys; tasks = [] }) w)
      → ((health_handler json clock w.sys).0.pool ≡ w.sys.pool)
        × ((health_handler json clock w.sys).1 ≡ (
          200,
          json.object (
              ("status", json.text "ok")
              ∷ ("endpoints_total", json.number (pos (length sys.pool.entries)))
              ∷ (
                "endpoints_healthy",
                json.number
                    (pos (calm (ledger_of serde clock handle r) 0 (length sys.pool.entries))),
              )
              ∷ []),
        ))
  unfolding health_handler status
  health_handler-Reach json config backoff reads {sys} {w} made r =
      let ledger = ledger_of serde clock handle r in
      let (valid, same, sorted, fresh, budget) = new-IsFresh clock backoff config reads made in
      let replays =
        Reach-Replays serde clock handle backoff r (fresh-Replays backoff sys.pool.entries fresh) in
      let (total, count) =
        statuses-calm json clock ledger 0 w.sys.pool.entries w.sys.reads
          (Replays-AsFiled backoff ledger (healths w.sys) replays) in
      let size : length w.sys.pool.entries ≡ length sys.pool.entries =
        sym (length-map (λ e. e.health) w.sys.pool.entries)
        ∙ Reach-length r
        ∙ length-map (λ e. e.health) sys.pool.entries in
      (refl, rw (total, count, size, new-nonempty clock backoff config reads made) refl)
