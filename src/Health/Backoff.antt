-- ===== src/Health/Backoff.antt =====
-- `BackoffPolicy::delay_for` of src/health.rs: its value without the machine bounds, and its bounds.
use native.Mathlib.Nat.{pow-le-pow_right, mul-le-mul_left}
use drm3_rpc_pool.Prelude.{
  ℕ, ◌-◌, ◌*◌, ◌^◌, ◌≤◌, ◌<◌, ◌≡◌, refl, min, inl, inr, arith, ltb, Bool-cases,
}
use drm3_rpc_pool.Health.{BackoffPolicy, duration_end, backoff_factor, scaled_delay, delay_for}

pow_mono : (m n : ℕ) → m ≤ n → 2 ^ m ≤ 2 ^ n
pow_mono m n h = pow-le-pow_right (omega arith) h

product_mono : (k m n : ℕ) → m ≤ n → k * m ≤ k * n
product_mono k m n h = mul-le-mul_left k h

backoff_factor_mono : (m n : ℕ) → m ≤ n → backoff_factor m ≤ backoff_factor n
unfolding backoff_factor
backoff_factor_mono m n h = ground (arith, pow_mono m n, pow_mono m 31)

-- Where the multiplication overflows, the product exceeds the cap all the same.
scaled-min :
    (p : BackoffPolicy) (factor : ℕ)
    → p.max_delay < duration_end
    → min (scaled_delay p factor) p.max_delay ≡ min (p.base_delay * factor) p.max_delay
unfolding scaled_delay
scaled-min p factor h = ground arith

-- The factor is the power of two, or both are beyond what reaches the cap.
factor-min :
    (base over limit : ℕ)
    → limit ≤ base * (2 ^ 32 - 1)
    → min (base * backoff_factor over) limit ≡ min (base * 2 ^ over) limit
unfolding backoff_factor
factor-min base over limit h = elim (Bool-cases (ltb over 32)) [
  | inl small ↦ rw small refl
  | inr large ↦ rw large (
      omega (
        arith,
        product_mono base (2 ^ 32 - 1) (2 ^ over) (omega (arith, pow_mono 32 over (ground arith))),
      ))
]

-- The cooldown after at least one failure is the base delay, doubled once for each failure above
-- the threshold and capped: the 32-bit shift and the overflow of the product change nothing, for
-- every policy whose cap is a valid duration that the largest 32-bit factor reaches.
pub delay_for-eq-doubling :
    (p : BackoffPolicy) (n : ℕ)
    → p.max_delay < duration_end
    → p.max_delay ≤ p.base_delay * (2 ^ 32 - 1)
    → 0 < n
    → delay_for p n ≡ min (p.base_delay * 2 ^ (n - p.demotion_threshold)) p.max_delay
unfolding delay_for
delay_for-eq-doubling p n valid reach pos = ground (
  arith,
  scaled-min p (backoff_factor (n - p.demotion_threshold)) valid,
  factor-min p.base_delay (n - p.demotion_threshold) p.max_delay reach,
)

-- The cooldown never exceeds the cap.
pub delay_for-le-max : (p : BackoffPolicy) (n : ℕ) → delay_for p n ≤ p.max_delay
unfolding delay_for
delay_for-le-max p n = ground arith

-- Under a cap that is a valid duration, more failures never shorten the cooldown.
delay_for_mono :
    (p : BackoffPolicy) (m n : ℕ)
    → p.max_delay < duration_end
    → m ≤ n
    → delay_for p m ≤ delay_for p n
unfolding delay_for
delay_for_mono p m n valid h = ground (
  arith,
  scaled-min p (backoff_factor (m - p.demotion_threshold)) valid,
  scaled-min p (backoff_factor (n - p.demotion_threshold)) valid,
  product_mono p.base_delay (backoff_factor (m - p.demotion_threshold))
      (backoff_factor (n - p.demotion_threshold)),
  backoff_factor_mono (m - p.demotion_threshold) (n - p.demotion_threshold),
)
