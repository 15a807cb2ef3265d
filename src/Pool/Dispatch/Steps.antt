-- ===== src/Pool/Dispatch/Steps.antt =====
-- What a round of the loop in src/pool/mod.rs does to the pool, up to the await.
pub mod Replies
pub mod Healths
pub mod Sinks
use drm3_rpc_pool.Prelude.{
  ℕ, suc, ◌+◌, ◌-◌, ◌%◌, ◌^◌, ◌≤◌, ◌<◌, ◌≡◌, ◌≢◌, ◌⊎◌, refl, ap, ◌∙◌, String, true, false, [], ◌∷◌,
  ◌++◌, none, some, arith, get_elem?, Result, ok, err, inl, inr, Bool-cases, Option-cases,
  Result-cases,
}
use drm3_rpc_pool.Config.{tag}
use drm3_rpc_pool.Wire.{Bytes, Serde, JsonRpcRequest, ResponseError, response_error_text}
use drm3_rpc_pool.Metrics.{on_request, on_success, on_failure}
use drm3_rpc_pool.Pool.State.{PoolEntry, Sys, enter, leave, modify, modify_entry, emit, read_clock}
use drm3_rpc_pool.Pool.State.Frame.{
  fixed, loads, limiters, Apart, get_elem?-modify_other, is_limited, Frame, Quiet, Quiet-refl,
  map-modify, map-modify_unseen, map-modify_unseen_at,
}
use drm3_rpc_pool.Pool.RateLimit.{RateLimiter, try_acquire_at}
use drm3_rpc_pool.Pool.Dispatch.{
  Loop, Waiting, Started, skipped, stopped, refused, sent, out_of_range, Finished, succeeded,
  failed_over, throttle, out_of_budget, send, start_attempt, record_answer, record_error, fail_over,
  finish_attempt,
}

-- The load counters move by one, modulo 2^64.
abbrev pub up : ℕ → ℕ
up n = (n + 1) % 2 ^ 64

abbrev pub down : ℕ → ℕ
down n = (n + 2 ^ 64 - 1) % 2 ^ 64

-- The request that is serialized under an id.
abbrev pub request : {Value : Type 0} → String → Value → ℕ → JsonRpcRequest Value
request method params id = record { jsonrpc = "2.0"; id = id; method = method; params = params }

-- The guard is dropped, and what is configured stays.
pub record Landed (w : Waiting) (s t : Sys) : Type 0 where
  pub frame : Frame s t
  pub loads_down : loads t ≡ modify (loads s) w.index down
  pub same_id : t.pool.request_id ≡ s.pool.request_id
  pub same_limiters : limiters t ≡ limiters s
  pub later : s.reads ≤ t.reads

over_budget :
    (s t : Sys) (loop : Loop)
    → Frame s t
    → out_of_budget t loop ≡ true
    → (s.pool.max_retries ≢ 0) × (s.pool.max_retries ≤ loop.tried)
unfolding out_of_budget
over_budget s t loop f h = ground (arith, f.same_budget)

within_budget :
    (s t : Sys) (loop : Loop)
    → Frame s t
    → out_of_budget t loop ≡ false
    → (s.pool.max_retries ≡ 0) ⊎ (loop.tried < s.pool.max_retries)
unfolding out_of_budget
within_budget s t loop f h = ground (arith, f.same_budget)

module _ (clock : ℕ → ℕ) where
  pub throttle-Quiet :
      (i : ℕ) (entry : PoolEntry) (sys : Sys)
      → get_elem? sys.pool.entries i ≡ some entry
      → Quiet sys (throttle clock i entry sys).0
  unfolding throttle modify_entry read_clock
  throttle-Quiet i entry sys at = elim (Option-cases entry.rate_limiter) [
    | inl free ↦ rw (free, throttle) (Quiet-refl sys)
    | inr (limiter, bound) ↦
        rw (bound, throttle)
          (record {
            frame = record {
              same_layout = map-modify_unseen_at fixed _ sys.pool.entries i entry at (ground arith);
              same_budget = refl;
            };
            same_loads = map-modify_unseen (λ e. e.in_flight) _ sys.pool.entries i (λ x. refl);
            same_id = refl;
            same_events = refl;
          })
  ]

  -- The limiter of the endpoint refuses, at the next reading of the clock.
  pub record Denied (i : ℕ) (s t : Sys) : Type 0 where
    pub entry : PoolEntry
    pub at : get_elem? s.pool.entries i ≡ some entry
    pub limiter : RateLimiter
    pub limit_is : entry.rate_limiter ≡ some limiter
    pub refuses : (try_acquire_at limiter (clock s.reads)).1 ≡ false
    pub reads_is : t.reads ≡ suc s.reads

  throttle-Apart :
      (i : ℕ) (entry : PoolEntry) (sys : Sys) → Apart i sys (throttle clock i entry sys).0
  unfolding throttle modify_entry read_clock
  throttle-Apart i entry sys j other = elim (Option-cases entry.rate_limiter) [
    | inl free ↦ rw (free, throttle) refl
    | inr (limiter, bound) ↦
        rw (bound, throttle)
          (ap (λ l. get_elem? l j)
              (map-modify (λ e. e.rate_limiter) _
                (λ r. some (try_acquire_at limiter (clock sys.reads)).0) sys.pool.entries i
                (λ x. refl))
            ∙ get_elem?-modify_other (limiters sys) i j _ other)
  ]

  throttle-Denied :
      (i : ℕ) (entry : PoolEntry) (sys : Sys)
      → get_elem? sys.pool.entries i ≡ some entry
      → (throttle clock i entry sys).1 ≡ false
      → Denied i sys (throttle clock i entry sys).0
  unfolding throttle modify_entry read_clock
  throttle-Denied i entry sys at denied = elim (Option-cases entry.rate_limiter) [
    | inl free ↦ absurd (ground (arith, denied, free))
    | inr (limiter, bound) ↦ record {
      entry = entry;
      at = at;
      limiter = limiter;
      limit_is = bound;
      refuses = rw (bound, throttle) at denied;
      reads_is = rw (bound, throttle) refl;
    }
  ]

  throttle-later :
      (i : ℕ) (entry : PoolEntry) (sys : Sys) → sys.reads ≤ (throttle clock i entry sys).0.reads
  unfolding throttle modify_entry read_clock
  throttle-later i entry sys = elim (Option-cases entry.rate_limiter) [
    | inl free ↦ rw (free, throttle) (omega arith)
    | inr (limiter, bound) ↦ rw (bound, throttle) (omega arith)
  ]

  pub throttle-free :
      (i : ℕ) (entry : PoolEntry) (sys : Sys)
      → is_limited entry.rate_limiter ≡ false
      → (throttle clock i entry sys).1 ≡ true
  unfolding throttle
  throttle-free i entry sys free = ground arith

  module _ {Value : Type 0} (serde : Serde Value) (method : String) (params : Value) where
    -- What is known of a request that was sent.
    pub record Sent (i : ℕ) (loop : Loop) (s t : Sys) (w : Waiting) : Type 0 where
      pub entry : PoolEntry
      pub at : get_elem? s.pool.entries i ≡ some entry
      pub frame : Frame s t
      pub in_budget : (s.pool.max_retries ≡ 0) ⊎ (loop.tried < s.pool.max_retries)
      pub loads_up : loads t ≡ modify (loads s) i up
      pub apart : Apart i s t
      pub later : s.reads < t.reads
      pub next_id : t.pool.request_id ≡ up s.pool.request_id
      pub announced : t.events ≡ s.events ++ on_request w.endpoint_tag method ∷ []
      pub index_is : w.index ≡ i
      pub url_is : w.url ≡ entry.endpoint.url
      pub tag_is : w.endpoint_tag ≡ tag entry.endpoint
      pub auth_is : w.auth_headers ≡ entry.auth_headers
      pub body_is : serde.to_vec (request method params s.pool.request_id) ≡ ok w.body
      pub progress_is : w.progress ≡ record loop { tried = loop.tried + 1 }

    abbrev pub StartFacts : ℕ → Loop → Sys → Sys → Started → Type 0
    StartFacts i loop s t (skipped loop') =
        Quiet s t
        × (loop' ≡ record loop { rate_limited = loop.rate_limited + 1 })
        × ((entry : PoolEntry) × (get_elem? s.pool.entries i ≡ some entry)
            × (is_limited entry.rate_limiter ≡ true)
            × Denied i s t
            × Apart i s t)
    StartFacts i loop s t stopped =
        Quiet s t × (s.pool.max_retries ≢ 0) × (s.pool.max_retries ≤ loop.tried)
    StartFacts i loop s t (refused e) =
        Frame s t
        × (loads t ≡ loads s)
        × ((m : String) × (serde.to_vec (request method params s.pool.request_id) ≡ err m))
    StartFacts i loop s t (sent w) = Sent i loop s t w
    StartFacts i loop s t out_of_range = (get_elem? s.pool.entries i ≡ none) × (t ≡ s)

    send-facts :
        (i : ℕ) (entry : PoolEntry) (loop : Loop) (s t : Sys)
        → get_elem? s.pool.entries i ≡ some entry
        → Quiet s t
        → Apart i s t
        → s.reads ≤ t.reads
        → (s.pool.max_retries ≡ 0) ⊎ (loop.tried < s.pool.max_retries)
        → StartFacts i loop s
            (send clock serde method params i entry loop t).0
            (send clock serde method params i entry loop t).1
    unfolding send emit modify_entry read_clock enter
    send-facts i entry loop s t at q apart no_earlier budget =
        let id_is = q.same_id in
        elim (Result-cases (serde.to_vec (request method params t.pool.request_id))) [
          | inr (m, e) ↦
              rw (e, send)
                (
                  record { same_layout = q.frame.same_layout; same_budget = q.frame.same_budget },
                  q.same_loads,
                  (m, rw id_is at e),
                )
          | inl (body, e) ↦
              rw (e, send)
                (record {
                  entry = entry;
                  at = at;
                  frame = record {
                    same_layout =
                        map-modify_unseen fixed _ t.pool.entries i (λ x. refl)
                        ∙ q.frame.same_layout;
                    same_budget = q.frame.same_budget;
                  };
                  in_budget = budget;
                  loads_up =
                      map-modify (λ e. e.in_flight) _ up t.pool.entries i (λ x. refl)
                      ∙ ap (λ l. modify l i up) q.same_loads;
                  apart = λ j other.
                      ap (λ l. get_elem? l j)
                        (map-modify_unseen (λ e. e.rate_limiter) _ t.pool.entries i (λ x. refl))
                      ∙ apart j other;
                  later = omega arith;
                  next_id = ap up id_is;
                  announced =
                      ap (λ l. l ++ on_request (tag entry.endpoint) method ∷ []) q.same_events;
                  index_is = refl;
                  url_is = refl;
                  tag_is = refl;
                  auth_is = refl;
                  body_is = rw id_is at e;
                  progress_is = refl;
                })
        ]

    pub start_attempt-facts :
        (i : ℕ) (loop : Loop) (sys : Sys)
        → StartFacts i loop sys
            (start_attempt clock serde method params i loop sys).0
            (start_attempt clock serde method params i loop sys).1
    unfolding start_attempt
    start_attempt-facts i loop sys = elim (Option-cases (get_elem? sys.pool.entries i)) [
      | inl nothing ↦ rw (nothing, start_attempt) (nothing, refl)
      | inr (entry, at) ↦
          let q = throttle-Quiet i entry sys at in
          elim (Bool-cases (throttle clock i entry sys).1) [
            | inr denied ↦
                rw (at, start_attempt, denied)
                  (
                    q,
                    refl,
                    (
                      entry,
                      at,
                      ground (arith, throttle-free i entry sys),
                      throttle-Denied i entry sys at denied,
                      throttle-Apart i entry sys,
                    ),
                  )
            | inl granted ↦ elim (Bool-cases (out_of_budget (throttle clock i entry sys).0 loop)) [
              | inl over ↦
                  rw (at, start_attempt, granted, over)
                    (let (ne, le) = over_budget sys _ loop q.frame over in (q, ne, le))
              | inr within ↦
                  rw (at, start_attempt, granted, within)
                    (send-facts i entry loop sys _ at q (throttle-Apart i entry sys)
                      (throttle-later i entry sys) (within_budget sys _ loop q.frame within))
            ]
          ]
    ]
