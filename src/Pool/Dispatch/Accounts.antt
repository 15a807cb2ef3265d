-- ===== src/Pool/Dispatch/Accounts.antt =====
-- What an error of `call` in src/pool/mod.rs accounts for: the fate of each candidate.
use mathlib.Core.List.{Mem, mem-cons_self, mem-cons_of_mem, append-nil, append_assoc}
use drm3_rpc_pool.Prelude.{
  ℕ, ◌+◌, ◌≤◌, ◌≡◌, ◌≢◌, ◌⊎◌, inl, inr, refl, sym, ◌∙◌, String, List, [], ◌∷◌, ◌++◌, Result, ok,
  err, length, All, All-imp, arith,
}
use drm3_rpc_pool.Error.{RpcError}
use drm3_rpc_pool.Wire.{Bytes, Serde, ResponseError}
use drm3_rpc_pool.Metrics.{Event}
use drm3_rpc_pool.Pool.State.{PoolEntry, Sys}
use drm3_rpc_pool.Pool.Candidates.{Scan}
use drm3_rpc_pool.Pool.Dispatch.{Loop, Outcome, returned, panicked, exhausted, Transport}
use drm3_rpc_pool.Pool.Dispatch.Steps.Replies.{FailsWith}
use drm3_rpc_pool.Pool.Dispatch.Courses.{
  Throttled, Asked, Course, all_tried, spent, throttled, answered, failed,
}

module _ {Value A : Type 0} (serde : Serde Value) (clock : ℕ → ℕ) (post : Transport)
    (handle : Bytes → Result A ResponseError) (method : String) (params : Value) (found : Scan)
    (sys : Sys) (from : ℕ) where
  -- The request to the endpoint at an index failed, and is this attempt.
  pub record Failure (i : ℕ) (attempt : String × String) : Type 0 where
    pub entry : PoolEntry
    pub reading : ℕ
    pub tried : ℕ
    pub reply : Result Bytes String
    pub no_earlier : from ≤ reading
    pub asked : Asked serde clock post handle method params found sys i reading tried entry reply
    pub fails : FailsWith clock handle method reply attempt.1
    pub url_is : attempt.0 ≡ entry.endpoint.url

  -- The endpoint at an index was throttled.
  abbrev pub Refused : ℕ → Type 0
  Refused i = (n : ℕ) × (from ≤ n) × Throttled serde clock post handle method params found sys i n

  -- A candidate was throttled, or failed in one of the attempts.
  abbrev pub Fate : List (String × String) → ℕ → Type 0
  Fate attempts i =
      Refused i ⊎ ((attempt : String × String) × Mem attempt attempts × Failure i attempt)

  -- An error of the loop: its attempts are requests to candidates that failed; and every candidate
  -- was throttled or failed, each once, or as many failed as the budget allows.
  pub record Account (is : List ℕ) (loop : Loop) (e : RpcError) : Type 0 where
    pub last : Loop
    pub error_is : e ≡ exhausted method found last
    pub attempts : List (String × String)
    pub attempts_are : last.attempts ≡ loop.attempts ++ attempts
    pub made : All (λ a. (i : ℕ) × Mem i is × Failure i a) attempts
    pub accounted :
        (All (Fate attempts) is
          × (last.rate_limited + length attempts ≡ loop.rate_limited + length is))
        ⊎ ((sys.pool.max_retries ≢ 0) × (loop.tried + length attempts ≡ sys.pool.max_retries))

  abbrev AccountOf : List ℕ → Loop → Outcome A → Type 0
  AccountOf is loop (returned (ok a)) = Unit {0}
  AccountOf is loop panicked = Unit {0}
  AccountOf is loop (returned (err e)) = Account is loop e

  after_throttle :
      (i : ℕ) (rest : List ℕ) (loop : Loop) (o : Outcome A)
      → Refused i
      → AccountOf rest (record loop { rate_limited = loop.rate_limited + 1 }) o
      → AccountOf (i ∷ rest) loop o
  after_throttle i rest loop (returned (ok a)) r later = tt
  after_throttle i rest loop panicked r later = tt
  after_throttle i rest loop (returned (err e)) r later = record {
    last = later.last;
    error_is = later.error_is;
    attempts = later.attempts;
    attempts_are = later.attempts_are;
    made = All-imp (λ a (j, m, f). (j, mem-cons_of_mem i m, f)) later.attempts later.made;
    accounted = elim later.accounted [
      | inl (fates, count) ↦ inl ((inl r, fates), ground (arith, count))
      | inr budget ↦ inr budget
    ];
  }

  after_failure :
      (i : ℕ) (rest : List ℕ) (loop : Loop) (attempt : String × String) (o : Outcome A)
      → Failure i attempt
      → AccountOf rest
          (record loop { attempts = loop.attempts ++ attempt ∷ []; tried = loop.tried + 1 })
          o
      → AccountOf (i ∷ rest) loop o
  after_failure i rest loop attempt (returned (ok a)) f later = tt
  after_failure i rest loop attempt panicked f later = tt
  after_failure i rest loop attempt (returned (err e)) f later = record {
    last = later.last;
    error_is = later.error_is;
    attempts = attempt ∷ later.attempts;
    attempts_are = later.attempts_are ∙ append_assoc loop.attempts (attempt ∷ []) later.attempts;
    made = (
      (i, mem-cons_self, f),
      All-imp (λ a (j, m, g). (j, mem-cons_of_mem i m, g)) later.attempts later.made,
    );
    accounted = elim later.accounted [
      | inl (fates, count) ↦ inl (
        (
          inr (attempt, mem-cons_self, f),
          All-imp
              (λ j fate. elim fate [
                | inl r ↦ inl r
                | inr (a, m, g) ↦ inr (a, mem-cons_of_mem attempt m, g)
              ])
              rest fates,
        ),
        ground (arith, count),
      )
      | inr (some_budget, reached) ↦ inr (some_budget, omega (arith, reached))
    ];
  }

  pub Course-Account :
      {is : List ℕ} {loop : Loop} {n : ℕ} {log : List Event} {o : Outcome A}
      → Course serde clock post handle method params found sys is loop n log o
      → (sys.pool.max_retries ≡ 0) ⊎ (loop.tried ≤ sys.pool.max_retries)
      → from ≤ n
      → AccountOf is loop o
  Course-Account (all_tried loop n) within no_earlier = record {
    last = loop;
    error_is = refl;
    attempts = [];
    attempts_are = sym (append-nil loop.attempts);
    made = tt;
    accounted = inl (tt, refl);
  }
  Course-Account (spent i rest loop n some_budget reached) within no_earlier = record {
    last = loop;
    error_is = refl;
    attempts = [];
    attempts_are = sym (append-nil loop.attempts);
    made = tt;
    accounted = inr (some_budget, ground (arith, within, reached, some_budget));
  }
  Course-Account (throttled {i} {rest} {loop} {n} {o = o} refusal later) within no_earlier =
      after_throttle i rest loop o (n, no_earlier, refusal)
        (Course-Account later within (omega (arith, no_earlier)))
  Course-Account (answered latency asked read) within no_earlier = tt
  Course-Account
        (failed {i} {rest} {loop} {n} {m} {entry} {reply} {o = o} message latency asked fails on
          later)
        within no_earlier =
      after_failure i rest loop (entry.endpoint.url, message) o
        (record {
          entry = entry;
          reading = n;
          tried = loop.tried;
          reply = reply;
          no_earlier = no_earlier;
          asked = asked;
          fails = fails;
          url_is = refl;
        })
        (Course-Account later (ground (arith, asked.in_budget)) (omega (arith, no_earlier, on)))
