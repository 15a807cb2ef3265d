-- ===== src/Pool/Dispatch/Promises.antt =====
-- What `call` and `forward` of src/pool/mod.rs promise their callers.
use mathlib.Core.List.{Mem, not-mem-nil}
use drm3_rpc_pool.Prelude.{
  ℕ, suc, All, ◌≡◌, ◌⊎◌, inl, inr, refl, sym, ◌∙◌, String, true, false, List, [], ◌∷◌, some,
  get_elem?, Result, ok, err, map_ok, arith, length,
}
use drm3_rpc_pool.Error.{RpcError, no_candidates}
use drm3_rpc_pool.Config.{for_method, supports}
use drm3_rpc_pool.Health.{is_available_at}
use drm3_rpc_pool.Wire.{Bytes, Serde, ResponseError, parse_rpc_response, classify_response}
use drm3_rpc_pool.Pool.State.{PoolEntry, Sys}
use drm3_rpc_pool.Pool.State.Frame.{fixed, is_limited, loads}
use drm3_rpc_pool.Pool.Candidates.{Scan}
use drm3_rpc_pool.Pool.Candidates.Laws.{Eligible-mem, IsRouting, incapable_of, cooling_of}
use drm3_rpc_pool.Pool.Dispatch.{
  fresh_loop, returned, no_candidates_reason, exhausted, Transport, call, forward, ForwardResult,
  relay,
}
use drm3_rpc_pool.Pool.Dispatch.Steps.{request}
use drm3_rpc_pool.Pool.Dispatch.Safety.{SmallLoads, Safe}
use drm3_rpc_pool.Pool.Dispatch.Accounts.{Account, Refused, Course-Account}
use drm3_rpc_pool.Pool.Dispatch.Answers.{Replied, IsReliable, is_answer}
use drm3_rpc_pool.Pool.Dispatch.Methods.{
  Routed, run_method-Routed, Routed-Safe, Told, Routed-Told, Routed-Authentic, Routed-answers,
}

List-cases {ℓ} : {A : Type ℓ} (l : List A) → (l ≡ []) ⊎ ((x : A) × (xs : List A) × (l ≡ x ∷ xs))
List-cases [] = inl refl
List-cases (x ∷ xs) = inr (x, xs, refl)

Refused_only :
    {A : Type 0} (Refusal : ℕ → Type 0) (Other : ℕ → A → Type 0) (is : List ℕ)
    → All (λ i. Refusal i ⊎ ((a : A) × Mem a [] × Other i a)) is
    → All Refusal is
Refused_only Refusal Other [] all = tt
Refused_only Refusal Other (i ∷ is) all = (
  elim all.0 [ inl refused ↦ refused | inr (a, m, other) ↦ absurd (not-mem-nil m) ],
  Refused_only Refusal Other is all.1,
)

module _ {Value : Type 0} (serde : Serde Value) (clock : ℕ → ℕ) (post : Transport) (method : String)
    (params : Value) (sys : Sys) where
  -- How `forward` reads a body.
  abbrev pub relay_body : Bytes → Result (ForwardResult Value) ResponseError
  relay_body bytes = map_ok relay (classify_response serde bytes)

  call-Routed :
      Routed serde clock post
        (parse_rpc_response serde)
        method
        params
        sys
        (call serde clock post method params sys).0
        (call serde clock post method params sys).1
  unfolding call
  call-Routed = run_method-Routed serde clock post (parse_rpc_response serde) method params sys

  forward-Routed :
      Routed serde clock post relay_body method params sys
        (forward serde clock post method params sys).0
        (forward serde clock post method params sys).1
  unfolding forward
  forward-Routed = run_method-Routed serde clock post relay_body method params sys

  -- Where every load is below 2^64, neither method panics, and both leave the order of the entries,
  -- their endpoints, headers and kind of limit, the retry budget and every load as they were.
  pub methods-Safe :
      SmallLoads (loads sys)
      → Safe sys
          (call serde clock post method params sys).0
          (call serde clock post method params sys).1
        × Safe sys
            (forward serde clock post method params sys).0
            (forward serde clock post method params sys).1
  methods-Safe small = (
    Routed-Safe serde clock post (parse_rpc_response serde) method params call-Routed small,
    Routed-Safe serde clock post relay_body method params forward-Routed small,
  )

  -- Failover: with no retry budget and a serializer that never fails, `call` answers as soon as one
  -- entry serves the method, is not in cooldown, has no rate limit, and replies to every request
  -- with a body that parses to a result, whatever all the other entries do.
  pub call-answers :
      (i : ℕ) (entry : PoolEntry)
      → sys.pool.max_retries ≡ 0
      → ((id : ℕ) → (body : Bytes) × (serde.to_vec (request method params id) ≡ ok body))
      → get_elem? sys.pool.entries i ≡ some entry
      → supports entry.endpoint (for_method method) ≡ true
      → is_available_at entry.health (clock sys.reads) ≡ true
      → is_limited entry.rate_limiter ≡ false
      → IsReliable serde post (parse_rpc_response serde) method params (fixed entry)
      → is_answer (call serde clock post method params sys).1 ≡ true
  call-answers i entry =
      Routed-answers serde clock post (parse_rpc_response serde) method params i entry call-Routed

  -- An answer of `call` is what the parser reads in the reply to this method and these parameters,
  -- posted to the URL of an entry of the pool with that entry's headers; and the entry serves the
  -- method and was not in cooldown when the call began.
  pub call-Replied :
      {v : Value}
      → (call serde clock post method params sys).1 ≡ returned (ok v)
      → (i : ℕ) × (entry : PoolEntry) × (get_elem? sys.pool.entries i ≡ some entry)
        × (supports entry.endpoint (for_method method) ≡ true)
        × (is_available_at entry.health (clock sys.reads) ≡ true)
        × Replied serde post (parse_rpc_response serde) method params entry v
  call-Replied e =
      let x =
        Routed-Authentic serde clock post (parse_rpc_response serde) method params call-Routed e in
      let (served, available) =
        Eligible-mem sys.pool.entries (for_method method) (clock sys.reads) x.index x.entry x.at
          call-Routed.found.candidates call-Routed.routing.eligible x.candidate in
      (x.index, x.entry, x.at, served, available, x.replied)

  pub call-error :
      {e : RpcError}
      → ((id : ℕ) → (body : Bytes) × (serde.to_vec (request method params id) ≡ ok body))
      → (call serde clock post method params sys).1 ≡ returned (err e)
      → (found : Scan) × IsRouting sys.pool.entries
          (for_method method)
          method
          (clock sys.reads)
          found
        × Account serde clock post
            (parse_rpc_response serde)
            method
            params
            found
            sys
            (suc sys.reads)
            found.candidates
            fresh_loop
            e
  call-error writes e =
      let t =
        Routed-Told serde clock post (parse_rpc_response serde) method params writes call-Routed in
      (
        t.found,
        t.routing,
        Course-Account serde clock post (parse_rpc_response serde) method params t.found sys
            (suc sys.reads) (rw e at t.course) (inr (omega arith)) (omega arith),
      )

  -- `NoCandidates` is the error of `call` only where every candidate was throttled (the limiter it had
  -- refuses, at a later reading of the clock), and its reason counts all of them as considered and as
  -- throttled, beside the entries that do not serve the method and those that do and are in cooldown.
  pub call-no_candidates :
      (m reason : String)
      → ((id : ℕ) → (body : Bytes) × (serde.to_vec (request method params id) ≡ ok body))
      → (call serde clock post method params sys).1 ≡ returned (err (no_candidates m reason))
      → (m ≡ method)
        × ((found : Scan) × IsRouting sys.pool.entries
              (for_method method)
              method
              (clock sys.reads)
              found
            × All
                (Refused serde clock post
                  (parse_rpc_response serde)
                  method
                  params
                  found
                  sys
                  (suc sys.reads))
                found.candidates
            × (reason
                ≡ no_candidates_reason
                    (length found.candidates)
                    (incapable_of (for_method method) sys.pool.entries)
                    (cooling_of (for_method method) (clock sys.reads) sys.pool.entries)
                    (length found.candidates)))
  unfolding exhausted
  call-no_candidates m reason writes e =
      let (found, routing, account) = call-error writes e in
      elim (List-cases account.last.attempts) [
        | inr (x, xs, some_failed) ↦ absurd (ground (arith, account.error_is, some_failed))
        | inl nothing ↦
            let none_made : account.attempts ≡ [] = sym account.attempts_are ∙ nothing in
            let is = rw (nothing, exhausted) at account.error_is in
            elim account.accounted [
              | inr (some_budget, reached) ↦
                  absurd (ground (arith, none_made, some_budget, reached))
              | inl (fates, count) ↦
                  let all : account.last.rate_limited ≡ length found.candidates =
                    ground (arith, none_made, count) in
                  (
                    ground (arith, is),
                    (
                      found,
                      routing,
                      Refused_only _ _ found.candidates (rw none_made at fates),
                      ground (arith, is, all, routing.incapable_is, routing.cooling_is),
                    ),
                  )
            ]
      ]

  -- Failover of `forward`: with no retry budget and a serializer that never fails, it answers as soon
  -- as one entry serves the method, is not in cooldown, has no rate limit, and replies to every
  -- request with a result or an error envelope, whatever all the other entries do.
  pub forward-answers :
      (i : ℕ) (entry : PoolEntry)
      → sys.pool.max_retries ≡ 0
      → ((id : ℕ) → (body : Bytes) × (serde.to_vec (request method params id) ≡ ok body))
      → get_elem? sys.pool.entries i ≡ some entry
      → supports entry.endpoint (for_method method) ≡ true
      → is_available_at entry.health (clock sys.reads) ≡ true
      → is_limited entry.rate_limiter ≡ false
      → IsReliable serde post relay_body method params (fixed entry)
      → is_answer (forward serde clock post method params sys).1 ≡ true
  forward-answers i entry =
      Routed-answers serde clock post relay_body method params i entry forward-Routed

  -- An answer of `forward` is what the classifier relays of the reply to this method and these
  -- parameters, posted to the URL of an entry of the pool with that entry's headers; and the entry
  -- serves the method and was not in cooldown when the request began.
  pub forward-Replied :
      {a : ForwardResult Value}
      → (forward serde clock post method params sys).1 ≡ returned (ok a)
      → (i : ℕ) × (entry : PoolEntry) × (get_elem? sys.pool.entries i ≡ some entry)
        × (supports entry.endpoint (for_method method) ≡ true)
        × (is_available_at entry.health (clock sys.reads) ≡ true)
        × Replied serde post relay_body method params entry a
  forward-Replied e =
      let x = Routed-Authentic serde clock post relay_body method params forward-Routed e in
      let (served, available) =
        Eligible-mem sys.pool.entries (for_method method) (clock sys.reads) x.index x.entry x.at
          forward-Routed.found.candidates forward-Routed.routing.eligible x.candidate in
      (x.index, x.entry, x.at, served, available, x.replied)

  -- With a serializer that never fails, `call` and `forward` each tell the metrics sink of the
  -- endpoints that the routing skips, and then take their course over its candidates, in their order:
  -- each one is throttled, or fails after its request's hook with its failure's hook, or ends the course
  -- with its request's and its success's hook and its answer; a course without an answer ends with the
  -- error of its attempts, after the last candidate or when the retry budget is used up.
  pub methods-Told :
      ((id : ℕ) → (body : Bytes) × (serde.to_vec (request method params id) ≡ ok body))
      → Told serde clock post
          (parse_rpc_response serde)
          method
          params
          sys
          (call serde clock post method params sys).0
          (call serde clock post method params sys).1
        × Told serde clock post relay_body method params sys
            (forward serde clock post method params sys).0
            (forward serde clock post method params sys).1
  methods-Told writes = (
    Routed-Told serde clock post (parse_rpc_response serde) method params writes call-Routed,
    Routed-Told serde clock post relay_body method params writes forward-Routed,
  )
