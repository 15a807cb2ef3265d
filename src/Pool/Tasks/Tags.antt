-- ===== src/Pool/Tasks/Tags.antt =====
-- The tags of the endpoints in src/pool/mod.rs under any interleaving of tasks: none changes, and a
-- request that is awaited has the tag of the endpoint at its index.
use mathlib.Core.Option
use drm3_rpc_pool.Prelude.{
  ℕ, zero, suc, ◌≡◌, refl, ap, sym, ◌∙◌, String, List, [], ◌∷◌, ◌++◌, some, some-eq-some, Result,
  map, get_elem?, set, subst, All,
}
use drm3_rpc_pool.Config.{tag}
use drm3_rpc_pool.Wire.{Bytes, Serde, ResponseError}
use drm3_rpc_pool.Pool.State.{PoolEntry, Sys, leave, modify_entry, read_clock}
use drm3_rpc_pool.Pool.State.Frame.{Fixed, fixed, Frame, map-modify_unseen, get_elem?-map}
use drm3_rpc_pool.Pool.Candidates.{ordered_candidates}
use drm3_rpc_pool.Pool.Dispatch.{
  Loop, Waiting, Started, skipped, stopped, refused, sent, out_of_range, Finished, succeeded,
  failed_over,
}
use drm3_rpc_pool.Pool.Dispatch.Steps.{StartFacts, start_attempt-facts}
use drm3_rpc_pool.Pool.Dispatch.Steps.Replies.{FinishFacts, finish_attempt-facts}
use drm3_rpc_pool.Pool.Tasks.{
  Task, ready, awaiting, over, World, begin, start, deliver, cancel, Step, begins, starts, delivers,
  cancels, ends, Reach, here, next, after_start, after_reply,
}

module _ {ℓ κ} {A : Type ℓ} (P : A → Type κ) where
  All-append : (xs ys : List A) → All P xs → All P ys → All P (xs ++ ys)
  All-append [] ys all more = more
  All-append (x ∷ xs) ys all more = (all.0, All-append xs ys all.1 more)

  All-set : (xs : List A) (k : ℕ) (x : A) → P x → All P xs → All P (set xs k x)
  All-set [] k x p all = tt
  All-set (y ∷ xs) zero x p all = (p, all.1)
  All-set (y ∷ xs) (suc k) x p all = (all.0, All-set xs k x p all.1)

  pub All-get_elem? : (xs : List A) (k : ℕ) (x : A) → get_elem? xs k ≡ some x → All P xs → P x
  All-get_elem? [] k x at all = cc
  All-get_elem? (y ∷ xs) zero x at all = let same : y ≡ x = some-eq-some at in rw (sym same) all.0
  All-get_elem? (y ∷ xs) (suc k) x at all = All-get_elem? xs k x at all.1

abbrev pub tags : Sys → List String
tags sys = map (λ e. tag e.endpoint) sys.pool.entries

tags-fixed :
    (entries : List PoolEntry)
    → map (λ e. tag e.endpoint) entries ≡ map (λ (f : Fixed). tag f.endpoint) (map fixed entries)
tags-fixed [] = refl
tags-fixed (e ∷ entries) = ap (◌∷◌ (tag e.endpoint)) (tags-fixed entries)

Frame-tags : {s t : Sys} → Frame s t → tags t ≡ tags s
Frame-tags {s} {t} f =
    tags-fixed t.pool.entries
    ∙ ap (map (λ (f : Fixed). tag f.endpoint)) f.same_layout
    ∙ sym (tags-fixed s.pool.entries)

-- An awaited request has the tag of the endpoint at its index.
abbrev pub Signed : {Value : Type 0} → List String → Task Value → Type 0
Signed tagged (awaiting method params w rest) = get_elem? tagged w.index ≡ some w.endpoint_tag
Signed tagged (ready method params is loop) = Unit
Signed tagged over = Unit

module _ {Value A : Type 0} (serde : Serde Value) (clock : ℕ → ℕ)
    (handle : Bytes → Result A ResponseError) where
  pub record Tagged (v w : World Value) : Type 0 where
    pub same_tags : tags w.sys ≡ tags v.sys
    pub signed : All (Signed (tags v.sys)) w.tasks

  start-Tagged :
      (method : String) (params : Value) (i : ℕ) (rest : List ℕ) (loop : Loop) (s t : Sys)
      (step : Started)
      → StartFacts clock serde method params i loop s t step
      → (tags t ≡ tags s) × Signed (tags s) (after_start serde clock handle method params rest step)
  start-Tagged method params i rest loop s t (skipped loop') facts = (Frame-tags facts.0.frame, tt)
  start-Tagged method params i rest loop s t stopped facts = (Frame-tags facts.0.frame, tt)
  start-Tagged method params i rest loop s t (refused e) facts = (Frame-tags facts.0, tt)
  start-Tagged method params i rest loop s t (sent w) facts = (
    Frame-tags facts.frame,
    rw (facts.index_is, facts.tag_is)
        (get_elem?-map (λ e. tag e.endpoint) s.pool.entries i
          ∙ ap (Option.map (λ e. tag e.endpoint)) facts.at),
  )
  start-Tagged method params i rest loop s t out_of_range facts = (rw facts.1 refl, tt)

  finish-Tagged :
      (method : String) (params : Value) (rest : List ℕ) (reply : Result Bytes String) (w : Waiting)
      (s t : Sys) (step : Finished A)
      → FinishFacts clock handle method reply w s t step
      → (tags t ≡ tags s) × Signed (tags s) (after_reply serde clock handle method params rest step)
  finish-Tagged method params rest reply w s t (succeeded a) facts = (Frame-tags facts.0.frame, tt)
  finish-Tagged method params rest reply w s t (failed_over loop) facts =
      (Frame-tags facts.0.frame, tt)

  cancel-tags : (i : ℕ) (s : Sys) → tags (modify_entry s i leave) ≡ tags s
  unfolding modify_entry leave
  cancel-tags i s = map-modify_unseen (λ e. tag e.endpoint) _ s.pool.entries i (λ x. refl)

  -- A step of one task.
  Tagged-set :
      (u v : World Value) (t : Sys) (k : ℕ) (task : Task Value)
      → Tagged u v
      → tags t ≡ tags v.sys
      → Signed (tags v.sys) task
      → Tagged u (record { sys = t; tasks = set v.tasks k task })
  Tagged-set u v t k task g same mine = record {
    same_tags = same ∙ g.same_tags;
    signed =
        All-set (Signed (tags u.sys)) v.tasks k task (subst (λ l. Signed l task) g.same_tags mine)
          g.signed;
  }

  Step-Tagged : {u v w : World Value} → Tagged u v → Step serde clock handle v w → Tagged u w
  unfolding begin start deliver cancel read_clock ordered_candidates
  Step-Tagged {v = v} g (begins method params) = record {
    same_tags = g.same_tags;
    signed = All-append _ v.tasks _ g.signed (tt, tt);
  }
  Step-Tagged {u} {v} g (starts k method params i rest loop at) =
      let (same, mine) =
        start-Tagged method params i rest loop v.sys _ _
          (start_attempt-facts clock serde method params i loop v.sys) in
      Tagged-set u v _ k _ g same mine
  Step-Tagged {u} {v} g (delivers k method params reply w rest at) =
      let (same, mine) =
        finish-Tagged method params rest reply w v.sys _ _
          (finish_attempt-facts clock handle method reply w v.sys) in
      Tagged-set u v _ k _ g same mine
  Step-Tagged {u} {v} g (cancels k method params w rest at) =
      Tagged-set u v _ k over g (cancel-tags w.index v.sys) tt
  Step-Tagged {u} {v} g (ends k method params loop at) = Tagged-set u v v.sys k over g refl tt

  pub Reach-Tagged :
      {v w : World Value}
      → Reach serde clock handle v w
      → All (Signed (tags v.sys)) v.tasks
      → Tagged v w
  Reach-Tagged here signed = record { same_tags = refl; signed = signed }
  Reach-Tagged (next r step) signed = Step-Tagged (Reach-Tagged r signed) step
