-- ===== src/Pool/Dispatch/Answers.antt =====
-- When a run of the loop of src/pool/mod.rs ends with an answer, and where the answer is from.
use mathlib.Core.List.{Mem, mem-cons_self, mem-cons_of_mem, eq-or-mem_of_mem-cons, not-mem-nil}
use mathlib.Core.Logic.Or
use mathlib.Core.Option
use drm3_rpc_pool.Prelude.{
  ℕ, ◌≡◌, inl, inr, refl, ap, sym, ◌∙◌, String, Bool, true, false, List, ◌∷◌, some, some-eq-some,
  get_elem?, Result, ok, err, arith,
}
use drm3_rpc_pool.Wire.{Bytes, Serde, ResponseError}
use drm3_rpc_pool.Pool.State.{PoolEntry, Sys}
use drm3_rpc_pool.Pool.State.Frame.{
  layout, get_elem?-map, Fixed, fixed, is_limited, Frame, Frame-trans, Frame-symm, Frame-get,
}
use drm3_rpc_pool.Pool.Candidates.{Scan}
use drm3_rpc_pool.Pool.Dispatch.{Loop, Waiting, Outcome, returned, panicked, Transport, ask}
use drm3_rpc_pool.Pool.Dispatch.Steps.{Sent, request}
use drm3_rpc_pool.Pool.Dispatch.Steps.Replies.{FailsWith}
use drm3_rpc_pool.Pool.Dispatch.Safety.{AllInRange, keeps_range, InRange-ne-none}
use drm3_rpc_pool.Pool.Dispatch.Runs.{Runs, ends, skips, stops, refuses, panics, answers, fails}

abbrev pub is_answer : {A : Type 0} → Outcome A → Bool
is_answer (returned (ok a)) = true
is_answer (returned (err e)) = false
is_answer panicked = false

module _ {Value A : Type 0} (serde : Serde Value) (post : Transport)
    (handle : Bytes → Result A ResponseError) (method : String) (params : Value) where
  -- An answer read from the reply to this very request, sent to an entry with its headers.
  pub record Replied (entry : PoolEntry) (a : A) : Type 0 where
    pub id : ℕ
    pub reads : ℕ
    pub body : Bytes
    pub bytes : Bytes
    pub serialized : serde.to_vec (request method params id) ≡ ok body
    pub replied : post reads entry.endpoint.url entry.auth_headers body ≡ ok bytes
    pub handled : handle bytes ≡ ok a

  Replied-fixed : {e e' : PoolEntry} {a : A} → fixed e' ≡ fixed e → Replied e' a → Replied e a
  Replied-fixed {e} {e'} {a} same r = record {
    id = r.id;
    reads = r.reads;
    body = r.body;
    bytes = r.bytes;
    serialized = r.serialized;
    replied =
        rw
          (
            ap (λ (f : Fixed). f.endpoint.url) (sym same),
            ap (λ (f : Fixed). f.auth_headers) (sym same),
          )
          r.replied;
    handled = r.handled;
  }

  -- An entry whose every reply is an answer.
  abbrev pub IsReliable : Fixed → Type 0
  IsReliable part =
      (reads : ℕ) (body : Bytes)
      → (bytes : Bytes) × (a : A) × (post reads part.endpoint.url part.auth_headers body ≡ ok bytes)
        × (handle bytes ≡ ok a)

  pub record Authentic (is : List ℕ) (s : Sys) (a : A) : Type 0 where
    pub index : ℕ
    pub entry : PoolEntry
    pub candidate : Mem index is
    pub at : get_elem? s.pool.entries index ≡ some entry
    pub replied : Replied entry a

  Authentic-later :
      {i : ℕ} {is : List ℕ} {s t : Sys} {a : A}
      → Frame s t
      → Authentic is t a
      → Authentic (i ∷ is) s a
  Authentic-later {i} f x =
      let (e, at, same) = Frame-get (Frame-symm f) x.index x.entry x.at in
      record {
        index = x.index;
        entry = e;
        candidate = mem-cons_of_mem i x.candidate;
        at = at;
        replied = Replied-fixed (sym same) x.replied;
      }

  -- The layout has, at this index, an entry with no limiter whose every reply is an answer.
  pub record Serves (s : Sys) (i : ℕ) : Type 0 where
    pub part : Fixed
    pub at : get_elem? (layout s) i ≡ some part
    pub unlimited : part.limited ≡ false
    pub reliable : IsReliable part

  pub Serves-Frame : {s t : Sys} {i : ℕ} → Frame s t → Serves s i → Serves t i
  Serves-Frame {i = i} f x = record {
    part = x.part;
    at = ap (λ l. get_elem? l i) f.same_layout ∙ x.at;
    unlimited = x.unlimited;
    reliable = x.reliable;
  }

  Serves-part :
      {s : Sys} {i : ℕ} {e : PoolEntry} (x : Serves s i)
      → get_elem? s.pool.entries i ≡ some e
      → x.part ≡ fixed e
  Serves-part {s} {i} x at =
      some-eq-some (sym x.at ∙ get_elem?-map fixed s.pool.entries i ∙ ap (Option.map fixed) at)

  Serves-unlimited :
      {s : Sys} {i : ℕ} {e : PoolEntry}
      → Serves s i
      → get_elem? s.pool.entries i ≡ some e
      → is_limited e.rate_limiter ≡ false
  Serves-unlimited x at = sym (ap (λ (p : Fixed). p.limited) (Serves-part x at)) ∙ x.unlimited

  module _ (clock : ℕ → ℕ) (found : Scan) where
    abbrev Run : List ℕ → Loop → Sys → Sys → Outcome A → Type 0
    Run = Runs serde clock post handle method params found

    Sent-Replied :
        {i : ℕ} {loop : Loop} {s t : Sys} {w : Waiting} {bytes : Bytes} {a : A}
        (sent : Sent clock serde method params i loop s t w)
        → ask post t w ≡ ok bytes
        → handle bytes ≡ ok a
        → Replied sent.entry a
    Sent-Replied {s = s} {t = t} {w = w} {bytes = bytes} sent e h = record {
      id = s.pool.request_id;
      reads = t.reads;
      body = w.body;
      bytes = bytes;
      serialized = sent.body_is;
      replied = rw (← sent.url_is, ← sent.auth_is) e;
      handled = h;
    }

    pub Runs-Authentic :
        {is : List ℕ} {loop : Loop} {s t : Sys} {o : Outcome A} {a : A}
        → Run is loop s t o
        → o ≡ returned (ok a)
        → Authentic is s a
    Runs-Authentic (ends loop s) e = cc
    Runs-Authentic (skips facts later) e = Authentic-later facts.0.frame (Runs-Authentic later e)
    Runs-Authentic (stops facts) e = cc
    Runs-Authentic (refuses facts) e = cc
    Runs-Authentic (panics missing same) e = cc
    Runs-Authentic {a = a} (answers {i = i} sent landed) e =
        let (bytes, reply, handled) = landed.1 in
        record {
          index = i;
          entry = sent.entry;
          candidate = mem-cons_self;
          at = sent.at;
          replied = Sent-Replied sent reply (handled ∙ ground arith);
        }
    Runs-Authentic (fails sent landed later) e =
        Authentic-later (Frame-trans sent.frame landed.0.frame) (Runs-Authentic later e)

    reliable-not-failing :
        {i : ℕ} {loop : Loop} {s t : Sys} {w : Waiting} {m : String}
        → Sent clock serde method params i loop s t w
        → Serves s i
        → FailsWith clock handle method (ask post t w) m
        → ⊥
    reliable-not-failing {t = t} {w = w} sent x f =
        let same = Serves-part x sent.at in
        let (bytes, a, replied, handled) = x.reliable t.reads w.body in
        let url : x.part.endpoint.url ≡ w.url =
          ap (λ (p : Fixed). p.endpoint.url) same ∙ sym sent.url_is in
        let auth : x.part.auth_headers ≡ w.auth_headers =
          ap (λ (p : Fixed). p.auth_headers) same ∙ sym sent.auth_is in
        let answered : ask post t w ≡ ok bytes = rw (url, auth) at replied in
        elim f [
          | inl failed ↦ cc (sym answered ∙ failed)
          | inr (bytes', e, replied', failed, _) ↦ cc (sym answered ∙ replied', handled, failed)
        ]

    Bool-set : IsSet Bool
    Bool-set = hlevel

    pub Runs-answers :
        {is : List ℕ} {loop : Loop} {s t : Sys} {o : Outcome A} (i : ℕ)
        → Run is loop s t o
        → AllInRange is s
        → s.pool.max_retries ≡ 0
        → ((id : ℕ) → (body : Bytes) × (serde.to_vec (request method params id) ≡ ok body))
        → Serves s i
        → Mem i is
        → is_answer o ≡ true
    Runs-answers i (ends loop s) all unbounded writes x m = absurd (not-mem-nil m)
    Runs-answers i (skips {i = j} {rest = rest} {s = s} facts later) all unbounded writes x m =
        Or.elim (Bool-set _ _) (eq-or-mem_of_mem-cons m)
          (λ same.
            let (entry, at, limited, denied, apart) = facts.2 in
            cc (sym (Serves-unlimited (rw same at x) at) ∙ limited))
          (λ m'.
            Runs-answers i later (keeps_range rest facts.0.frame all.1)
              (facts.0.frame.same_budget ∙ unbounded) writes (Serves-Frame facts.0.frame x) m')
    Runs-answers i (stops facts) all unbounded writes x m = absurd (facts.1 unbounded)
    Runs-answers i (refuses {s = s} facts) all unbounded writes x m =
        let (body, written) = writes s.pool.request_id in cc (sym written ∙ facts.2.1)
    Runs-answers i (panics {i = j} {s = s} missing same) all unbounded writes x m =
        absurd (InRange-ne-none s j all.0 missing)
    Runs-answers i (answers sent landed) all unbounded writes x m = refl
    Runs-answers i (fails {i = j} {rest = rest} {s = s} sent landed later) all unbounded writes x
          m =
        let f = Frame-trans sent.frame landed.0.frame in
        Or.elim (Bool-set _ _) (eq-or-mem_of_mem-cons m)
          (λ same. absurd (reliable-not-failing sent (rw same at x) landed.1.1))
          (λ m'.
            Runs-answers i later (keeps_range rest f all.1) (f.same_budget ∙ unbounded) writes
              (Serves-Frame f x) m')
