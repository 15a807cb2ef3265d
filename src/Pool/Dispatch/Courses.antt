-- ===== src/Pool/Dispatch/Courses.antt =====
-- The course of a call of src/pool/mod.rs over its candidates, told by what the pool was when the call
-- began: each candidate in its turn was throttled, failed or answered, until the list or the retry
-- budget was used up or one answered.
use mathlib.Core.List.{
  Mem, Nodup, Nodup-cons, mem-cons_self, mem-cons_of_mem, append-nil, append_assoc,
}
use mathlib.Core.Option
use drm3_rpc_pool.Prelude.{
  ℕ, suc, ◌+◌, ◌≤◌, ◌<◌, ◌≡◌, ◌≢◌, ◌⊎◌, refl, sym, ap, ◌∙◌, String, false, List, [], ◌∷◌, ◌++◌,
  some, Result, ok, err, get_elem?, ◌==◌, some-eq-some, subst, Bool-cases, inl, inr, All, arith,
}
use drm3_rpc_pool.Config.{tag}
use drm3_rpc_pool.Wire.{Bytes, Serde, ResponseError}
use drm3_rpc_pool.Metrics.{Event, on_request, on_success, on_failure}
use drm3_rpc_pool.Pool.RateLimit.{RateLimiter, try_acquire_at}
use drm3_rpc_pool.Pool.State.{PoolEntry, Sys}
use drm3_rpc_pool.Pool.State.Frame.{
  Fixed, fixed, Frame, Frame-trans, Frame-get, limiters, Apart, get_elem?-map,
}
use drm3_rpc_pool.Pool.Candidates.{Scan}
use drm3_rpc_pool.Pool.Dispatch.{Loop, Waiting, Outcome, returned, exhausted, Transport, ask}
use drm3_rpc_pool.Pool.Dispatch.Steps.{request, Sent, Denied}
use drm3_rpc_pool.Pool.Dispatch.Steps.Replies.{FailsWith}
use drm3_rpc_pool.Pool.Dispatch.Runs.{Runs, ends, skips, stops, refuses, panics, answers, fails}

-- No index stands twice.
abbrev pub Spread : List ℕ → Type 0
Spread [] = Unit
Spread (i ∷ rest) = All (λ j. (i == j) ≡ false) rest × Spread rest

all_apart : (i : ℕ) (is : List ℕ) → ¬ Mem i is → All (λ j. (i == j) ≡ false) is
all_apart i [] fresh = tt
all_apart i (j ∷ is) fresh = (
  elim (Bool-cases (i == j)) [
    | inr other ↦ other
    | inl same ↦
        let same' : i ≡ j = ground (arith, same) in
        absurd (fresh (subst (λ k. Mem i (k ∷ is)) same' mem-cons_self))
  ],
  all_apart i is (λ m. fresh (mem-cons_of_mem j m)),
)

pub Nodup-Spread : (is : List ℕ) → Nodup is → Spread is
Nodup-Spread [] n = tt
Nodup-Spread (i ∷ is) n =
    let (fresh, rest) = Nodup-cons.0 n in (all_apart i is fresh, Nodup-Spread is rest)

-- A round that sent a request and reported on it.
after_round :
    (first : List Event) {mid done last : List Event} (sending report : Event) (log : List Event)
    → mid ≡ first ++ sending ∷ []
    → done ≡ mid ++ report ∷ []
    → last ≡ done ++ log
    → last ≡ first ++ sending ∷ report ∷ log
after_round first sending report log e f g =
    g
    ∙ ap (λ l. l ++ log) f
    ∙ ap (λ l. (l ++ report ∷ []) ++ log) e
    ∙ append_assoc (first ++ sending ∷ []) (report ∷ []) log
    ∙ append_assoc first (sending ∷ []) (report ∷ log)

module _ {Value A : Type 0} (serde : Serde Value) (clock : ℕ → ℕ) (post : Transport)
    (handle : Bytes → Result A ResponseError) (method : String) (params : Value) (found : Scan)
    (sys : Sys) where
  -- The limiter that the endpoint at an index had when the call began refuses, at a reading of the clock.
  pub record Throttled (i n : ℕ) : Type 0 where
    pub entry : PoolEntry
    pub at : get_elem? sys.pool.entries i ≡ some entry
    pub limiter : RateLimiter
    pub limit_is : entry.rate_limiter ≡ some limiter
    pub refuses : (try_acquire_at limiter (clock n)).1 ≡ false

  -- A request of this method and these parameters to the endpoint at an index, within the budget,
  -- after the clock's reading `n`, and the reply.
  pub record Asked (i n tried : ℕ) (entry : PoolEntry) (reply : Result Bytes String) : Type 0 where
    pub at : get_elem? sys.pool.entries i ≡ some entry
    pub in_budget : (sys.pool.max_retries ≡ 0) ⊎ (tried < sys.pool.max_retries)
    pub id : ℕ
    pub body : Bytes
    pub body_is : serde.to_vec (request method params id) ≡ ok body
    pub reading : ℕ
    pub later : n < reading
    pub reply_is : post reading entry.endpoint.url entry.auth_headers body ≡ reply

  -- The candidates that are left, the loop's variables, the readings of the clock so far, and then
  -- the calls of the metrics sink and the outcome.
  pub data Course : List ℕ → Loop → ℕ → List Event → Outcome A → Type 0 where
    all_tried :
        (loop : Loop) (n : ℕ) → Course [] loop n [] (returned (err (exhausted method found loop)))
    spent :
        (i : ℕ) (rest : List ℕ) (loop : Loop) (n : ℕ)
        → sys.pool.max_retries ≢ 0
        → sys.pool.max_retries ≤ loop.tried
        → Course (i ∷ rest) loop n [] (returned (err (exhausted method found loop)))
    throttled :
        {i : ℕ} {rest : List ℕ} {loop : Loop} {n : ℕ} {log : List Event} {o : Outcome A}
        → Throttled i n
        → Course rest (record loop { rate_limited = loop.rate_limited + 1 }) (suc n) log o
        → Course (i ∷ rest) loop n log o
    answered :
        {i : ℕ} {rest : List ℕ} {loop : Loop} {n : ℕ} {entry : PoolEntry} {bytes : Bytes} {a : A}
        (latency : ℕ)
        → Asked i n loop.tried entry (ok bytes)
        → handle bytes ≡ ok a
        → Course
            (i ∷ rest)
            loop
            n
            (on_request (tag entry.endpoint) method
              ∷ on_success (tag entry.endpoint) method latency
              ∷ [])
            (returned (ok a))
    failed :
        {i : ℕ} {rest : List ℕ} {loop : Loop} {n m : ℕ} {entry : PoolEntry}
        {reply : Result Bytes String} {log : List Event} {o : Outcome A} (message : String)
        (latency : ℕ)
        → Asked i n loop.tried entry reply
        → FailsWith clock handle method reply message
        → n < m
        → Course rest
            (record loop {
              attempts = loop.attempts ++ (entry.endpoint.url, message) ∷ [];
              tried = loop.tried + 1;
            })
            m
            log
            o
        → Course
            (i ∷ rest)
            loop
            n
            (on_request (tag entry.endpoint) method
              ∷ on_failure (tag entry.endpoint) method latency message
              ∷ log)
            o

  -- What is still known of the candidates that are left: each is there, with its limiter as it was.
  abbrev pub Kept : Sys → List ℕ → Type 0
  Kept s = All (λ j.
      ((e : PoolEntry) × (get_elem? sys.pool.entries j ≡ some e))
      × (get_elem? (limiters s) j ≡ get_elem? (limiters sys) j))

  Kept-Apart :
      (i : ℕ) (s t : Sys) (is : List ℕ)
      → Apart i s t
      → All (λ j. (i == j) ≡ false) is
      → Kept s is
      → Kept t is
  Kept-Apart i s t [] apart other kept = tt
  Kept-Apart i s t (j ∷ is) apart other kept =
      ((kept.0.0, apart j other.0 ∙ kept.0.1), Kept-Apart i s t is apart other.1 kept.1)

  limiter_of :
      (s : Sys) (i : ℕ) (e : PoolEntry)
      → get_elem? s.pool.entries i ≡ some e
      → get_elem? (limiters s) i ≡ some e.rate_limiter
  limiter_of s i e at =
      get_elem?-map (λ e. e.rate_limiter) s.pool.entries i
      ∙ ap (Option.map (λ e. e.rate_limiter)) at

  same_fixed :
      (s : Sys) (i : ℕ) (e e' : PoolEntry)
      → Frame sys s
      → get_elem? sys.pool.entries i ≡ some e
      → get_elem? s.pool.entries i ≡ some e'
      → fixed e' ≡ fixed e
  same_fixed s i e e' frame at at' =
      let (e'', at'', same) = Frame-get frame i e at in
      ap fixed (some-eq-some (sym at' ∙ at'')) ∙ same

  Denied-Throttled :
      (i : ℕ) (s t : Sys) (e : PoolEntry)
      → get_elem? sys.pool.entries i ≡ some e
      → get_elem? (limiters s) i ≡ get_elem? (limiters sys) i
      → Denied clock i s t
      → Throttled i s.reads
  Denied-Throttled i s t e at kept d = record {
    entry = e;
    at = at;
    limiter = d.limiter;
    limit_is =
        some-eq-some (sym (limiter_of sys i e at) ∙ sym kept ∙ limiter_of s i d.entry d.at)
        ∙ d.limit_is;
    refuses = d.refuses;
  }

  after_throttle :
      (i : ℕ) (rest : List ℕ) (loop loop' : Loop) (n m : ℕ) (log : List Event) {o : Outcome A}
      → loop' ≡ record loop { rate_limited = loop.rate_limited + 1 }
      → m ≡ suc n
      → Throttled i n
      → Course rest loop' m log o
      → Course (i ∷ rest) loop n log o
  after_throttle i rest loop loop' n m log loop_is m_is refusal later =
      throttled refusal (rw (loop_is, m_is) at later)

  Sent-Asked :
      (i : ℕ) (loop : Loop) (s t : Sys) (w : Waiting) (e : PoolEntry) (reply : Result Bytes String)
      → Frame sys s
      → get_elem? sys.pool.entries i ≡ some e
      → Sent clock serde method params i loop s t w
      → ask post t w ≡ reply
      → Asked i s.reads loop.tried e reply
  Sent-Asked i loop s t w e reply frame at sent got =
      let same = same_fixed s i e sent.entry frame at sent.at in
      let url_is : w.url ≡ e.endpoint.url = sent.url_is ∙ ap (λ (f : Fixed). f.endpoint.url) same in
      let auth_is : w.auth_headers ≡ e.auth_headers =
        sent.auth_is ∙ ap (λ (f : Fixed). f.auth_headers) same in
      record {
        at = at;
        in_budget = rw frame.same_budget at sent.in_budget;
        id = s.pool.request_id;
        body = w.body;
        body_is = sent.body_is;
        reading = t.reads;
        later = sent.later;
        reply_is = rw (← url_is, ← auth_is) got;
      }

  Sent-tag :
      (i : ℕ) (loop : Loop) (s t : Sys) (w : Waiting) (e : PoolEntry)
      → Frame sys s
      → get_elem? sys.pool.entries i ≡ some e
      → Sent clock serde method params i loop s t w
      → w.endpoint_tag ≡ tag e.endpoint
  Sent-tag i loop s t w e frame at sent =
      sent.tag_is
      ∙ ap (λ (f : Fixed). tag f.endpoint) (same_fixed s i e sent.entry frame at sent.at)

  module _
      (writes : (id : ℕ)
        → (body : Bytes) × (serde.to_vec (request method params id) ≡ ok body)) where
    pub Runs-Course :
        {is : List ℕ} {loop : Loop} {s t : Sys} {o : Outcome A}
        → Runs serde clock post handle method params found is loop s t o
        → Frame sys s
        → Kept s is
        → Spread is
        → (log : List Event) × (t.events ≡ s.events ++ log) × Course is loop s.reads log o
    Runs-Course (ends loop s) frame kept spread =
        ([], sym (append-nil s.events), all_tried loop s.reads)
    Runs-Course (skips {i} {rest} {loop} {loop'} {s} {t} facts run) frame kept spread =
        let (q, loop_is, (entry, at, limited, denied, apart)) = facts in
        let (e, at_e) = kept.0.0 in
        let run' =
          Runs-Course run (Frame-trans frame q.frame) (Kept-Apart i s t rest apart spread.0 kept.1)
            spread.1 in
        (
          run'.0,
          run'.1 ∙ ap (λ l. l ++ run'.0) q.same_events,
          after_throttle i rest loop loop' s.reads t.reads run'.0 loop_is denied.reads_is
              (Denied-Throttled i s t e at_e kept.0.1 denied) run'.2,
        )
    Runs-Course (stops {i} {rest} {loop} {s} (q, some_budget, reached)) frame kept spread = (
      [],
      q.same_events ∙ sym (append-nil s.events),
      spent i rest loop s.reads (rw frame.same_budget at some_budget)
          (rw frame.same_budget at reached),
    )
    Runs-Course (refuses {s = s} facts) frame kept spread =
        let (body, written) = writes s.pool.request_id in
        let (m, bad) = facts.2 in cc (sym written ∙ bad)
    Runs-Course (panics {i = i} missing same) frame kept spread =
        let (e, at) = kept.0.0 in
        let (e', at', fixed_is) = Frame-get frame i e at in cc (sym missing ∙ at')
    Runs-Course
          (answers {i} {rest} {loop} {s} {t} {u} {w} sent
            (landed, (bytes, reply, read), (latency, e)))
          frame kept spread =
        let (e0, at) = kept.0.0 in
        let tag_is = Sent-tag i loop s t w e0 frame at sent in
        (
          _,
          after_round _ _ _ [] (rw tag_is at sent.announced) (rw tag_is at e) (sym (append-nil _)),
          answered latency (Sent-Asked i loop s t w e0 _ frame at sent reply) read,
        )
    Runs-Course
          (fails {i} {rest} {loop} {loop'} {s} {t} {u} {w = w} sent
            (landed, (message, how, is, (latency, e)))
            run)
          frame kept spread =
        let (e0, at) = kept.0.0 in
        let tag_is = Sent-tag i loop s t w e0 frame at sent in
        let url_is : w.url ≡ e0.endpoint.url =
          sent.url_is
          ∙ ap (λ (f : Fixed). f.endpoint.url) (same_fixed s i e0 sent.entry frame at sent.at) in
        let unlimited : Apart i s u =
          λ j other. ap (λ l. get_elem? l j) landed.same_limiters ∙ sent.apart j other in
        let (log, g, later) =
          Runs-Course run (Frame-trans (Frame-trans frame sent.frame) landed.frame)
            (Kept-Apart i s u rest unlimited spread.0 kept.1) spread.1 in
        (
          _,
          after_round _ _ _ log (rw tag_is at sent.announced) (rw tag_is at e) g,
          failed message latency (Sent-Asked i loop s t w e0 _ frame at sent refl) how
              (omega (arith, sent.later, landed.later))
              (rw (is, sent.progress_is, url_is) at later),
        )
