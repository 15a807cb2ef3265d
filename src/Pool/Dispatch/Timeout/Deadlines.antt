-- ===== src/Pool/Dispatch/Timeout/Deadlines.antt =====
-- What a deadline does to a call of src/pool/mod.rs.
use mathlib.Core.Option
use drm3_rpc_pool.Prelude.{
  ℕ, ◌≡◌, ◌≢◌, refl, ap, ◌∙◌, String, Bool, false, List, [], ◌∷◌, Option, none, some, Bool-cases,
  inl, inr, arith, All-imp,
}
use drm3_rpc_pool.Config.{RpcCapability, for_method}
use drm3_rpc_pool.Wire.{Serde, parse_rpc_response}
use drm3_rpc_pool.Pool.State.{Sys, leave, modify_entry, read_clock}
use drm3_rpc_pool.Pool.State.Frame.{
  fixed, loads, Frame, Frame-refl, Frame-trans, get_elem?-map, map-modify, map-modify_unseen,
}
use drm3_rpc_pool.Pool.Candidates.{Scan, ordered_candidates}
use drm3_rpc_pool.Pool.Candidates.Laws.{IsRouting, ordered_candidates-IsRouting}
use drm3_rpc_pool.Pool.Dispatch.{
  Loop, fresh_loop, Waiting, Started, skipped, stopped, refused, sent, out_of_range, Finished,
  succeeded, failed_over, Outcome, panicked, start_attempt, finish_attempt, Transport, ask,
  dispatch, run_method, call,
}
use drm3_rpc_pool.Pool.Dispatch.Steps.{down, Landed, StartFacts, start_attempt-facts}
use drm3_rpc_pool.Pool.Dispatch.Steps.Replies.{FinishFacts, finish_attempt-facts}
use drm3_rpc_pool.Pool.Dispatch.Safety.{
  AllInRange, keeps_range, InRange-ne-none, SmallLoads, Safe, round_loads,
}
use drm3_rpc_pool.Pool.Dispatch.Timeout.{timed_dispatch, timed_outcome, call_with_timeout}

-- The drop of a call at its await.
leave-Landed : (w : Waiting) (s : Sys) → Landed w s (modify_entry s w.index leave)
unfolding modify_entry leave
leave-Landed w s = record {
  frame = record {
    same_layout = map-modify_unseen fixed _ s.pool.entries w.index (λ x. refl);
    same_budget = refl;
  };
  loads_down = map-modify (λ e. e.in_flight) _ down s.pool.entries w.index (λ x. refl);
  same_id = refl;
  same_limiters = map-modify_unseen (λ e. e.rate_limiter) _ s.pool.entries w.index (λ x. refl);
  later = omega arith;
}

-- Nothing in flight is left behind, whether or not the deadline came first.
record TimedSafe {A : Type 0} (s t : Sys) (o : Option A) (panic : A) : Type 0 where
  no_panic : o ≢ some panic
  frame : Frame s t
  same_loads : loads t ≡ loads s

TimedSafe-after :
    {A : Type 0} {s t u : Sys} {o : Option A} {panic : A}
    → Frame s t
    → loads t ≡ loads s
    → TimedSafe t u o panic
    → TimedSafe s u o panic
TimedSafe-after f l safe = record {
  no_panic = safe.no_panic;
  frame = Frame-trans f safe.frame;
  same_loads = safe.same_loads ∙ l;
}

module _ {Value : Type 0} (serde : Serde Value) (clock : ℕ → ℕ) (post : Transport) (late : ℕ → Bool)
    (method : String) (params : Value) (found : Scan) where
  -- The loop of `call`, and the one under the timer.
  abbrev Plain : List ℕ → Loop → Sys → Sys × Outcome Value
  Plain = dispatch serde clock post (parse_rpc_response serde) method params found

  abbrev Hurried : List ℕ → Loop → Sys → Sys × Option (Outcome Value)
  Hurried = timed_dispatch serde clock post late method params found

  record Timed (is : List ℕ) (loop : Loop) (s : Sys) : Type 0 where
    unhurried :
        ((n : ℕ) → late n ≡ false)
        → Hurried is loop s ≡ ((Plain is loop s).0, some (Plain is loop s).1)
    safe :
        AllInRange is s
        → SmallLoads (loads s)
        → TimedSafe s (Hurried is loop s).0 (Hurried is loop s).1 panicked

  after_reply :
      (i : ℕ) (rest : List ℕ) (loop : Loop) (s : Sys) (w : Waiting) (reply : Finished Value)
      → ((loop : Loop) (s : Sys) → Timed rest loop s)
      → (let t = (start_attempt clock serde method params i loop s).0 in
          let ended = finish_attempt clock (parse_rpc_response serde) method (ask post t w) w t in
          (start_attempt clock serde method params i loop s).1 ≡ sent w
          → late t.reads ≡ false
          → ended.1 ≡ reply
          → StartFacts clock serde method params i loop s t (sent w)
          → FinishFacts clock (parse_rpc_response serde) method (ask post t w) w t ended.0 reply
          → Timed (i ∷ rest) loop s)
  unfolding timed_dispatch dispatch
  after_reply i rest loop s w (succeeded a) later e on_time e' facts facts' = record {
    unhurried = λ never. rw (e, timed_dispatch, dispatch, on_time, e') refl;
    safe = λ all small.
        rw (e, timed_dispatch, on_time, e')
          (record {
            no_panic = λ h. cc;
            frame = Frame-trans facts.frame facts'.0.frame;
            same_loads =
                round_loads serde clock post (parse_rpc_response serde) method params found facts
                  facts'.0 small;
          });
  }
  after_reply i rest loop s w (failed_over loop') later e on_time e' facts facts' =
      let f = Frame-trans facts.frame facts'.0.frame in
      record {
        unhurried = λ never.
            rw (e, timed_dispatch, dispatch, on_time, e') ((later loop' _).unhurried never);
        safe = λ all small.
            let l =
              round_loads serde clock post (parse_rpc_response serde) method params found facts
                facts'.0 small in
            rw (e, timed_dispatch, on_time, e')
              (TimedSafe-after f l ((later loop' _).safe (keeps_range rest f all.1) (rw l small)));
      }

  after_start :
      (i : ℕ) (rest : List ℕ) (loop : Loop) (s : Sys) (step : Started)
      → ((loop : Loop) (s : Sys) → Timed rest loop s)
      → (let begun = start_attempt clock serde method params i loop s in
          begun.1 ≡ step
          → StartFacts clock serde method params i loop s begun.0 step
          → Timed (i ∷ rest) loop s)
  unfolding timed_dispatch dispatch
  after_start i rest loop s (skipped loop') later e facts =
      let quiet = facts.0 in
      record {
        unhurried = λ never. rw (e, timed_dispatch, dispatch) ((later loop' _).unhurried never);
        safe = λ all small.
            rw (e, timed_dispatch)
              (TimedSafe-after quiet.frame quiet.same_loads (
                (later loop' _).safe (keeps_range rest quiet.frame all.1)
                  (rw quiet.same_loads small)));
      }
  after_start i rest loop s stopped later e facts = record {
    unhurried = λ never. rw (e, timed_dispatch, dispatch) refl;
    safe = λ all small.
        rw (e, timed_dispatch)
          (record { no_panic = λ h. cc; frame = facts.0.frame; same_loads = facts.0.same_loads });
  }
  after_start i rest loop s (refused m) later e facts = record {
    unhurried = λ never. rw (e, timed_dispatch, dispatch) refl;
    safe = λ all small.
        rw (e, timed_dispatch)
          (record { no_panic = λ h. cc; frame = facts.0; same_loads = facts.1 });
  }
  after_start i rest loop s out_of_range later e facts = record {
    unhurried = λ never. rw (e, timed_dispatch, dispatch) refl;
    safe = λ all small. absurd (InRange-ne-none s i all.0 facts.0);
  }
  after_start i rest loop s (sent w) later e facts =
      let t = (start_attempt clock serde method params i loop s).0 in
      elim (Bool-cases (late t.reads)) [
        | inr on_time ↦
            after_reply i rest loop s w _ later e on_time refl facts
              (finish_attempt-facts clock (parse_rpc_response serde) method (ask post t w) w t)
        | inl hurried ↦ record {
          unhurried = λ never. absurd (ground (arith, never t.reads, hurried));
          safe = λ all small.
              rw (e, timed_dispatch, hurried)
                (record {
                  no_panic = λ h. cc;
                  frame = Frame-trans facts.frame (leave-Landed w t).frame;
                  same_loads =
                      round_loads serde clock post (parse_rpc_response serde) method params found
                        facts (leave-Landed w t) small;
                });
        }
      ]

  timed_dispatch-Timed : (is : List ℕ) (loop : Loop) (s : Sys) → Timed is loop s
  unfolding timed_dispatch dispatch
  timed_dispatch-Timed [] loop s = record {
    unhurried = λ never. refl;
    safe = λ all small. record { no_panic = λ h. cc; frame = Frame-refl s; same_loads = refl };
  }
  timed_dispatch-Timed (i ∷ rest) loop s =
      after_start i rest loop s _ (timed_dispatch-Timed rest) refl
        (start_attempt-facts clock serde method params i loop s)

routing-InRange :
    (sys : Sys) (c : RpcCapability) (method : String) (now : ℕ) (found : Scan)
    → IsRouting sys.pool.entries c method now found
    → AllInRange found.candidates sys
routing-InRange sys c method now found routing =
    All-imp (λ i e. (fixed e.0, get_elem?-map fixed sys.pool.entries i ∙ ap (Option.map fixed) e.1))
      found.candidates routing.eligible

timed_outcome-ne-panicked :
    {Value : Type 0} (serde : Serde Value) (clock : ℕ → ℕ) (post : Transport) (late : ℕ → Bool)
    (method : String) (params : Value) (deadline : String) (o : Option (Outcome Value))
    → o ≢ some panicked
    → timed_outcome serde clock post late method params deadline o ≢ panicked
unfolding timed_outcome
timed_outcome-ne-panicked serde clock post late method params deadline none h e = cc
timed_outcome-ne-panicked serde clock post late method params deadline (some o) h e = h (ap some e)

module _ {Value : Type 0} (serde : Serde Value) (clock : ℕ → ℕ) (post : Transport) (late : ℕ → Bool)
    (method : String) (params : Value) where
  -- Where every load counter is below 2^64: whichever awaits the deadline interrupts, a call under a
  -- timer does not panic, and it leaves the configured part of every entry, the retry budget and
  -- every load counter as they were; and where it interrupts none, it is `call`.
  pub call_with_timeout-Safe :
      (deadline : String) (sys : Sys)
      → SmallLoads (loads sys)
      → (let timed = call_with_timeout serde clock post late method params deadline sys in
          Safe sys timed.0 timed.1
          × (((n : ℕ) → late n ≡ false) → timed ≡ call serde clock post method params sys))
  unfolding call_with_timeout call run_method read_clock ordered_candidates timed_outcome
  call_with_timeout-Safe deadline sys small =
      let now = clock sys.reads in
      let s1 = (read_clock clock sys).0 in
      let routed = ordered_candidates s1 (for_method method) now method in
      let timed =
        timed_dispatch-Timed serde clock post late method params routed.1 routed.1.candidates
          fresh_loop routed.0 in
      let in_range =
        routing-InRange sys (for_method method) method now routed.1
          (ordered_candidates-IsRouting s1 (for_method method) now method) in
      let safe = timed.safe in_range small in
      (
        record {
          no_panic =
              timed_outcome-ne-panicked serde clock post late method params deadline _
                safe.no_panic;
          frame = record {
            same_layout = safe.frame.same_layout;
            same_budget = safe.frame.same_budget;
          };
          same_loads = safe.same_loads;
        },
        λ never.
            ap (λ r. (r.0, timed_outcome serde clock post late method params deadline r.1))
              (timed.unhurried never),
      )
