-- ===== src/Pool/Dispatch/Safety.antt =====
-- What every run of the loop of src/pool/mod.rs keeps: no panic, the configured layout, the loads.
use mathlib.Core.Option
use drm3_rpc_pool.Prelude.{
  ℕ, zero, suc, ◌^◌, ◌<◌, ◌≡◌, ◌≢◌, refl, ap, sym, ◌∙◌, subst, String, List, [], ◌∷◌, none, some,
  get_elem?, Result, All,
}
use drm3_rpc_pool.Wire.{Bytes, Serde, ResponseError}
use drm3_rpc_pool.Pool.State.{Sys, modify}
use drm3_rpc_pool.Pool.State.Frame.{
  Fixed, fixed, layout, loads, Frame, Frame-refl, Frame-trans, get_elem?-map, leave-enter_load,
}
use drm3_rpc_pool.Pool.Candidates.{Scan}
use drm3_rpc_pool.Pool.Dispatch.{Loop, Waiting, Outcome, panicked, Transport}
use drm3_rpc_pool.Pool.Dispatch.Steps.{up, down, Sent, Landed}
use drm3_rpc_pool.Pool.Dispatch.Runs.{Runs, ends, skips, stops, refuses, panics, answers, fails}

abbrev pub InRange : Sys → ℕ → Type 0
InRange s i = (x : Fixed) × (get_elem? (layout s) i ≡ some x)

abbrev pub AllInRange : List ℕ → Sys → Type 0
AllInRange is s = All (InRange s) is

-- A frame keeps the indices in range.
pub keeps_range : {s t : Sys} (is : List ℕ) → Frame s t → AllInRange is s → AllInRange is t
keeps_range {s} {t} is f all =
    subst (λ l. All (λ i. (x : Fixed) × (get_elem? l i ≡ some x)) is) (sym f.same_layout) all

pub InRange-ne-none : (s : Sys) (i : ℕ) → InRange s i → get_elem? s.pool.entries i ≢ none
InRange-ne-none s i (x, at) missing =
    cc (sym (get_elem?-map fixed s.pool.entries i ∙ ap (Option.map fixed) missing) ∙ at)

abbrev pub SmallLoads : List ℕ → Type 0
SmallLoads = All (λ n. n < 2 ^ 64)

down-up : (l : List ℕ) (i : ℕ) → SmallLoads l → modify (modify l i up) i down ≡ l
down-up [] i all = refl
down-up (n ∷ l) zero all = ap (λ m. m ∷ l) (leave-enter_load n all.0)
down-up (n ∷ l) (suc i) all = ap (◌∷◌ n) (down-up l i all.1)

-- Candidates in range never panic, and leave the configured layout and the loads as they were.
pub record Safe {A : Type 0} (s t : Sys) (o : Outcome A) : Type 0 where
  pub no_panic : o ≢ panicked
  pub frame : Frame s t
  pub same_loads : loads t ≡ loads s

pub Safe-after :
    {A : Type 0} {s t u : Sys} {o : Outcome A}
    → Frame s t
    → loads t ≡ loads s
    → Safe t u o
    → Safe s u o
Safe-after f l safe = record {
  no_panic = safe.no_panic;
  frame = Frame-trans f safe.frame;
  same_loads = safe.same_loads ∙ l;
}

module _ {Value A : Type 0} (serde : Serde Value) (clock : ℕ → ℕ) (post : Transport)
    (handle : Bytes → Result A ResponseError) (method : String) (params : Value)
    (found : Scan) where
  -- One whole round leaves the loads as they were.
  pub round_loads :
      {i : ℕ} {loop : Loop} {s t u : Sys} {w : Waiting}
      → Sent clock serde method params i loop s t w
      → Landed w t u
      → SmallLoads (loads s)
      → loads u ≡ loads s
  round_loads {i} {loop} {s} {t} {u} {w} sent landed small =
      landed.loads_down
      ∙ ap (λ k. modify (loads t) k down) sent.index_is
      ∙ ap (λ l. modify l i down) sent.loads_up
      ∙ down-up (loads s) i small

  pub Runs-Safe :
      {is : List ℕ} {loop : Loop} {s t : Sys} {o : Outcome A}
      → Runs serde clock post handle method params found is loop s t o
      → AllInRange is s
      → SmallLoads (loads s)
      → Safe s t o
  Runs-Safe (ends loop s) all small = record {
    no_panic = λ e. cc;
    frame = Frame-refl s;
    same_loads = refl;
  }
  Runs-Safe (skips {rest = rest} facts later) all small =
      let quiet = facts.0 in
      Safe-after quiet.frame quiet.same_loads
        (Runs-Safe later (keeps_range rest quiet.frame all.1) (rw quiet.same_loads small))
  Runs-Safe (stops facts) all small = record {
    no_panic = λ e. cc;
    frame = facts.0.frame;
    same_loads = facts.0.same_loads;
  }
  Runs-Safe (refuses facts) all small = record {
    no_panic = λ e. cc;
    frame = facts.0;
    same_loads = facts.1;
  }
  Runs-Safe (panics {i = i} {s = s} missing same) all small =
      absurd (InRange-ne-none s i all.0 missing)
  Runs-Safe (answers sent landed) all small = record {
    no_panic = λ e. cc;
    frame = Frame-trans sent.frame landed.0.frame;
    same_loads = round_loads sent landed.0 small;
  }
  Runs-Safe (fails {rest = rest} sent landed later) all small =
      let f = Frame-trans sent.frame landed.0.frame in
      let l = round_loads sent landed.0 small in
      Safe-after f l (Runs-Safe later (keeps_range rest f all.1) (rw l small))
