-- ===== src/Pool/RateLimit/Laws.antt =====
-- What a sequence of acquisitions on a limiter of src/pool/rate_limit.rs is granted.
use drm3_rpc_pool.Prelude.{
  ℕ, ◌+◌, ◌-◌, ◌*◌, ◌≤◌, ◌≡◌, refl, ap, List, [], ◌∷◌, Bool, true, false, arith, All, All-imp,
  Bool-cases, inl, inr, leb, ◌∙◌,
}
use native.Mathlib.Nat.{mul-le-mul_right, add-mul}
use drm3_rpc_pool.Pool.RateLimit.{RateLimiter, token, at_least_one, per_second, try_acquire_at}

abbrev pub units : Bool → ℕ
units true = token
units false = 0

abbrev pub one_if : Bool → ℕ
one_if true = 1
one_if false = 0

-- The limiter after acquisitions at the given instants, in order, and how many were granted.
unfoldable pub limiter_after : RateLimiter → List ℕ → RateLimiter
limiter_after limiter [] = limiter
limiter_after limiter (now ∷ later) = limiter_after (try_acquire_at limiter now).0 later

unfoldable pub grants : RateLimiter → List ℕ → ℕ
grants limiter [] = 0
grants limiter (now ∷ later) =
    one_if (try_acquire_at limiter now).1 + grants (try_acquire_at limiter now).0 later

pub record IsValid (limiter : RateLimiter) : Type 0 where
  pub positive : 1 ≤ limiter.refill_per_sec
  pub capacity_is : limiter.capacity ≡ limiter.refill_per_sec * token
  pub within : limiter.tokens ≤ limiter.capacity

per_second-IsValid : (rps now : ℕ) → IsValid (per_second rps now)
unfolding per_second
per_second-IsValid rps now = ground arith

per_second-rate : (rps now : ℕ) → (per_second rps now).refill_per_sec ≡ at_least_one rps
unfolding per_second
per_second-rate rps now = refl

-- One acquisition keeps the limiter valid and its rate, and spends one token if it is granted.
pub record Acquired (before next : RateLimiter) (granted : Bool) (now : ℕ) : Type 0 where
  pub valid : IsValid next
  pub same_rate : next.refill_per_sec ≡ before.refill_per_sec
  pub refilled_from : before.last_refill ≤ next.last_refill
  pub refilled_to : next.last_refill ≤ before.last_refill + (now - before.last_refill)
  pub spent :
      units granted + next.tokens
      ≤ before.tokens + (next.last_refill - before.last_refill) * before.refill_per_sec

pub try_acquire_at-Acquired :
    (limiter : RateLimiter) (now : ℕ)
    → IsValid limiter
    → Acquired limiter (try_acquire_at limiter now).0 (try_acquire_at limiter now).1 now
unfolding try_acquire_at
try_acquire_at-Acquired limiter now v = ground arith

pub record Allowance (first last : RateLimiter) (granted : ℕ) : Type 0 where
  pub valid : IsValid last
  pub same_rate : last.refill_per_sec ≡ first.refill_per_sec
  pub later : first.last_refill ≤ last.last_refill
  pub spent :
      granted * token + last.tokens
      ≤ first.tokens + (last.last_refill - first.last_refill) * first.refill_per_sec

split-product :
    (first middle last rate : ℕ)
    → first ≤ middle
    → middle ≤ last
    → (last - first) * rate ≡ (middle - first) * rate + (last - middle) * rate
split-product first middle last rate h k =
    let e : last - first ≡ (middle - first) + (last - middle) = omega arith in
    rw e (add-mul (middle - first) (last - middle) rate)

units-one_if : (granted : Bool) → units granted ≡ one_if granted * token
units-one_if true = refl
units-one_if false = refl

Allowance-step :
    (first middle last : RateLimiter) (granted : Bool) (more now : ℕ)
    → Acquired first middle granted now
    → Allowance middle last more
    → Allowance first last (one_if granted + more)
Allowance-step first middle last granted more now a w = record {
  valid = w.valid;
  same_rate = omega arith;
  later = omega arith;
  spent =
      let rated : (last.last_refill - middle.last_refill) * middle.refill_per_sec
          ≡ (last.last_refill - middle.last_refill) * first.refill_per_sec =
        ap (λ r. (last.last_refill - middle.last_refill) * r) a.same_rate in
      omega (
        arith,
        w.spent,
        a.spent,
        rated,
        units-one_if granted,
        split-product first.last_refill middle.last_refill last.last_refill first.refill_per_sec
            a.refilled_from w.later,
      );
}

limiter_after-Allowance :
    (limiter : RateLimiter) (times : List ℕ)
    → IsValid limiter
    → Allowance limiter (limiter_after limiter times) (grants limiter times)
unfolding limiter_after grants
limiter_after-Allowance limiter [] v = record {
  valid = v;
  same_rate = refl;
  later = omega arith;
  spent = omega arith;
}
limiter_after-Allowance limiter (now ∷ later) v =
    let a = try_acquire_at-Acquired limiter now v in
    Allowance-step limiter (try_acquire_at limiter now).0 _ _ _ now a
      (limiter_after-Allowance (try_acquire_at limiter now).0 later a.valid)

last_refill-le :
    (limiter : RateLimiter) (times : List ℕ) (end : ℕ)
    → limiter.last_refill ≤ end
    → All (λ t. t ≤ end) times
    → (limiter_after limiter times).last_refill ≤ end
unfolding limiter_after try_acquire_at
last_refill-le limiter [] end h all = h
last_refill-le limiter (now ∷ later) end h all =
    last_refill-le (try_acquire_at limiter now).0 later end (ground arith) all.1

-- After an acquisition at an instant, with its token counted, the bucket holds no more than its
-- capacity, and it is refilled up to that instant at least.
try_acquire_at-capped :
    (limiter : RateLimiter) (now : ℕ)
    → IsValid limiter
    → (units (try_acquire_at limiter now).1 + (try_acquire_at limiter now).0.tokens
        ≤ limiter.refill_per_sec * token)
      × (now ≤ (try_acquire_at limiter now).0.last_refill)
unfolding try_acquire_at
try_acquire_at-capped limiter now v = ground (arith, v)

refilled-le :
    (limiter : RateLimiter) (times : List ℕ) (from end : ℕ)
    → from ≤ limiter.last_refill
    → from ≤ end
    → All (λ t. t ≤ end) times
    → (limiter_after limiter times).last_refill - limiter.last_refill ≤ end - from
refilled-le limiter times from end h le all = elim (Bool-cases (leb limiter.last_refill end)) [
  | inl before ↦ omega (arith, last_refill-le limiter times end (ground (arith, before)) all)
  | inr after ↦ omega (
    arith,
    last_refill-le limiter times limiter.last_refill (omega arith)
        (All-imp (λ t k. ground (arith, after, k)) times all),
  )
]

-- With tokens counted exactly: whatever was acquired before, of an acquisition and any others up to
-- `end` at most a burst of the rate is granted, and the rate for each second since the first of them. A rate of zero counts as
-- one.
pub grants-bounded :
    (rps start : ℕ) (earlier : List ℕ) (from end : ℕ) (times : List ℕ)
    → from ≤ end
    → All (λ t. t ≤ end) times
    → grants (limiter_after (per_second rps start) earlier) (from ∷ times) * token
      ≤ at_least_one rps * (token + (end - from))
unfolding grants
grants-bounded rps start earlier from end times le all =
    let before =
      limiter_after-Allowance (per_second rps start) earlier (per_second-IsValid rps start) in
    let limiter = limiter_after (per_second rps start) earlier in
    let first = try_acquire_at-Acquired limiter from before.valid in
    let (capped, refilled) = try_acquire_at-capped limiter from before.valid in
    let next = (try_acquire_at limiter from).0 in
    let later = limiter_after-Allowance next times first.valid in
    let rate_is : next.refill_per_sec ≡ at_least_one rps =
      first.same_rate ∙ before.same_rate ∙ per_second-rate rps start in
    let rate_is' : limiter.refill_per_sec ≡ at_least_one rps =
      before.same_rate ∙ per_second-rate rps start in
    let spent = rw rate_is at later.spent in
    let capped' = rw rate_is' at capped in
    omega (
      arith,
      spent,
      capped',
      units-one_if (try_acquire_at limiter from).1,
      mul-le-mul_right (at_least_one rps) (refilled-le next times from end refilled le all),
    )
