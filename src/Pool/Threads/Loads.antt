-- ===== src/Pool/Threads/Loads.antt =====
-- The load counters of src/pool/mod.rs under any interleaving of the threads' operations.
use drm3_rpc_pool.Prelude.{
  ℕ, ◌+◌, ◌≡◌, refl, String, List, [], ◌∷◌, some, Result, get_elem?, ◌==◌, if◌then◌else◌, arith,
  Option-cases, inl, inr,
}
use drm3_rpc_pool.Wire.{Bytes, Serde, ResponseError}
use drm3_rpc_pool.Pool.State.{Sys, modify, enter, leave, modify_entry, emit, read_clock}
use drm3_rpc_pool.Pool.State.Frame.{loads, map-modify, map-modify_unseen}
use drm3_rpc_pool.Pool.Dispatch.{Loop, Waiting, fresh_loop}
use drm3_rpc_pool.Pool.Dispatch.Steps.{up, down}
use drm3_rpc_pool.Prelude.Sums.{total, total-append, total-set}
use drm3_rpc_pool.Pool.Counters.{Agrees, Agrees-keep, Agrees-up, Agrees-down}
use drm3_rpc_pool.Pool.Threads.Operations.{
  Verdict, answered, failed, Phase, scanning, noting, sorting, ready, throttling, granted,
  announced, numbered, timed, awaiting, replied, measured, recorded, reported, over, at_entry,
  admit, acquire, keep_record,
}
use drm3_rpc_pool.Pool.Threads.{
  World, act, open_call, move, drop_call, Step, begins, acts, sorts, delivers, cancels, Reach, here,
  next,
}

module _ {Value : Type 0} where
  -- Whether a call holds the guard of the entry at an index, as a number.
  abbrev pub holds : ℕ → Phase Value → ℕ
  holds j (awaiting method params w rest) = if w.index == j then 1 else 0
  holds j (replied method params w rest reply) = if w.index == j then 1 else 0
  holds j (measured method params w rest latency verdict) = if w.index == j then 1 else 0
  holds j (recorded method params w rest latency verdict) = if w.index == j then 1 else 0
  holds j (reported method params w rest verdict) = if w.index == j then 1 else 0
  holds j phase = 0

  abbrev pub held : ℕ → List (Phase Value) → ℕ
  held j = total (holds j)

  -- What a call's next operation does to the load counters.
  abbrev shift : Phase Value → List ℕ → List ℕ
  shift (timed method params w rest) counters = modify counters w.index up
  shift (reported method params w rest verdict) counters = modify counters w.index down
  shift phase counters = counters

  -- Whether a call's next operation takes the guard of the entry at an index, or drops it.
  abbrev takes : ℕ → Phase Value → ℕ
  takes j (timed method params w rest) = if w.index == j then 1 else 0
  takes j phase = 0

  abbrev drops : ℕ → Phase Value → ℕ
  drops j (reported method params w rest verdict) = if w.index == j then 1 else 0
  drops j phase = 0

  admit-holds :
      (j : ℕ) (method : String) (params : Value) (i : ℕ) (rest : List ℕ) (loop : Loop) (s : Sys)
      → holds j (admit method params i rest loop s) ≡ 0
  unfolding admit
  admit-holds j method params i rest loop s = ground arith

keep_record-loads :
    (clock : ℕ → ℕ) (w : Waiting) (latency : ℕ) (verdict : Verdict) (s : Sys)
    → loads (keep_record clock w latency verdict s) ≡ loads s
unfolding keep_record modify_entry read_clock
keep_record-loads clock w latency answered s =
    map-modify_unseen (λ e. e.in_flight) _ s.pool.entries w.index (λ x. refl)
keep_record-loads clock w latency (failed message) s =
    map-modify_unseen (λ e. e.in_flight) _ s.pool.entries w.index (λ x. refl)

acquire-loads :
    {Value : Type 0} (method : String) (params : Value) (i : ℕ) (rest : List ℕ) (loop : Loop)
    (now : ℕ) (s : Sys)
    → loads (acquire method params i rest loop now s).0 ≡ loads s
unfolding acquire modify_entry
acquire-loads method params i rest loop now s = elim (Option-cases (get_elem? s.pool.entries i)) [
  | inl out ↦ rw (out, acquire, at_entry) refl
  | inr (entry, at) ↦ elim (Option-cases entry.rate_limiter) [
    | inl free ↦ rw (at, free, acquire, at_entry) refl
    | inr (limiter, bound) ↦
        rw (at, bound, acquire, at_entry)
          (map-modify_unseen (λ e. e.in_flight) _ s.pool.entries i (λ x. refl))
  ]
]

module _ {Value A : Type 0} (serde : Serde Value) (clock : ℕ → ℕ)
    (handle : Bytes → Result A ResponseError) where
  act-loads :
      (phase : Phase Value) (s : Sys)
      → loads (act serde clock handle phase s).0 ≡ shift phase (loads s)
  unfolding act modify_entry emit read_clock enter leave
  act-loads (scanning method params now i found) s = ground arith
  act-loads (noting method params now i found) s = ground arith
  act-loads (sorting method params found) s = refl
  act-loads (ready method params [] loop) s = refl
  act-loads (ready method params (i ∷ rest) loop) s = ground arith
  act-loads (throttling method params i rest loop now) s =
      acquire-loads method params i rest loop now s
  act-loads (granted method params i rest loop) s = ground arith
  act-loads (announced method params i rest loop) s = ground arith
  act-loads (numbered method params i rest loop body) s = ground arith
  act-loads (timed method params w rest) s =
      map-modify (λ e. e.in_flight) _ up s.pool.entries w.index (λ x. refl)
  act-loads (awaiting method params w rest) s = refl
  act-loads (replied method params w rest reply) s = refl
  act-loads (measured method params w rest latency verdict) s =
      keep_record-loads clock w latency verdict s
  act-loads (recorded method params w rest latency answered) s = refl
  act-loads (recorded method params w rest latency (failed message)) s = refl
  act-loads (reported method params w rest verdict) s =
      map-modify (λ e. e.in_flight) _ down s.pool.entries w.index (λ x. refl)
  act-loads over s = refl

  act-holds :
      (j : ℕ) (phase : Phase Value) (s : Sys)
      → holds j (act serde clock handle phase s).1 + drops j phase ≡ holds j phase + takes j phase
  unfolding act emit read_clock
  act-holds j (scanning method params now i found) s = ground arith
  act-holds j (noting method params now i found) s = ground arith
  act-holds j (sorting method params found) s = refl
  act-holds j (ready method params [] loop) s = refl
  act-holds j (ready method params (i ∷ rest) loop) s =
      ground (arith, admit-holds j method params i rest loop s)
  act-holds j (throttling method params i rest loop now) s =
      ground (arith, admit-holds j method params i rest loop s)
  act-holds j (granted method params i rest loop) s = ground arith
  act-holds j (announced method params i rest loop) s = ground arith
  act-holds j (numbered method params i rest loop body) s = ground arith
  act-holds j (timed method params w rest) s = omega arith
  act-holds j (awaiting method params w rest) s = omega arith
  act-holds j (replied method params w rest reply) s = omega arith
  act-holds j (measured method params w rest latency verdict) s = omega arith
  act-holds j (recorded method params w rest latency verdict) s = omega arith
  act-holds j (reported method params w rest answered) s = omega arith
  act-holds j (reported method params w rest (failed message)) s = omega arith
  act-holds j over s = refl

  -- What a move does to the guards that are held.
  move-held :
      (j k : ℕ) (phase : Phase Value) (v : World Value)
      → get_elem? v.threads k ≡ some phase
      → held j (move serde clock handle k phase v).threads + drops j phase
        ≡ held j v.threads + takes j phase
  unfolding move
  move-held j k phase v at = omega (
    arith,
    total-set (holds j) k v.threads phase (act serde clock handle phase v.sys).1 at,
    act-holds j phase v.sys,
  )

  move-loads :
      (k : ℕ) (phase : Phase Value) (v : World Value)
      → loads (move serde clock handle k phase v).sys ≡ shift phase (loads v.sys)
  unfolding move
  move-loads k phase v = act-loads phase v.sys

  -- The counter of every entry is the number of calls that hold its guard, modulo 2^64.
  abbrev pub Guarded : World Value → Type 0
  Guarded v = Agrees (loads v.sys) (λ j. held j v.threads)

  move-Guarded :
      (k : ℕ) (phase : Phase Value) (v : World Value)
      → get_elem? v.threads k ≡ some phase
      → Guarded v
      → Guarded (move serde clock handle k phase v)
  move-Guarded k (timed method params w rest) v at guarded =
      Agrees-up (loads v.sys) _ (λ j. held j v.threads) _ w.index
        (move-loads k (timed method params w rest) v)
        (λ j. omega (arith, move-held j k (timed method params w rest) v at)) guarded
  move-Guarded k (reported method params w rest verdict) v at guarded =
      Agrees-down (loads v.sys) _ (λ j. held j v.threads) _ w.index
        (move-loads k (reported method params w rest verdict) v)
        (λ j. omega (arith, move-held j k (reported method params w rest verdict) v at)) guarded
  move-Guarded k phase v at guarded =
      Agrees-keep (loads v.sys) _ (λ j. held j v.threads) _ (move-loads k phase v)
        (λ j. omega (arith, move-held j k phase v at)) guarded

  Step-Guarded : {v w : World Value} → Step serde clock handle v w → Guarded v → Guarded w
  unfolding open_call drop_call read_clock modify_entry leave
  Step-Guarded {v} (begins method params) guarded =
      Agrees-keep (loads v.sys) _ (λ j. held j v.threads) _ refl
        (λ j. omega (arith, total-append (holds j) v.threads (_ ∷ []))) guarded
  Step-Guarded {v} (acts k phase at) guarded = move-Guarded k phase v at guarded
  Step-Guarded {v} (sorts k method params found candidates at d) guarded =
      Agrees-keep (loads v.sys) _ (λ j. held j v.threads) _ refl
        (λ j.
          omega (
            arith,
            total-set (holds j) k v.threads _ (ready method params candidates fresh_loop) at,
          ))
        guarded
  Step-Guarded {v} (delivers k method params w rest reply at) guarded =
      Agrees-keep (loads v.sys) _ (λ j. held j v.threads) _ refl
        (λ j.
          omega (arith, total-set (holds j) k v.threads _ (replied method params w rest reply) at))
        guarded
  Step-Guarded {v} (cancels k method params w rest at) guarded =
      Agrees-down (loads v.sys) _ (λ j. held j v.threads) _ w.index
        (map-modify (λ e. e.in_flight) _ down v.sys.pool.entries w.index (λ x. refl))
        (λ j. omega (arith, total-set (holds j) k v.threads _ over at)) guarded

  -- However the operations of the threads interleave, whichever replies arrive and whichever calls
  -- are dropped at their await: where the load counter of every entry was the number of calls that
  -- hold that entry's guard, modulo 2^64, it still is.
  pub Reach-Guarded : {v w : World Value} → Reach serde clock handle v w → Guarded v → Guarded w
  Reach-Guarded here guarded = guarded
  Reach-Guarded (next r step) guarded = Step-Guarded step (Reach-Guarded r guarded)
