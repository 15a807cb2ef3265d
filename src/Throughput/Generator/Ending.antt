-- ===== src/Throughput/Generator/Ending.antt =====
-- The draws by rejection of examples/throughput.rs end: within 2^64 draws the generator gives 0.
use native.Mathlib.Nat.{mod-lt}
use drm3_rpc_pool.Prelude.{
  ℕ, zero, suc, ◌+◌, ◌-◌, ◌*◌, ◌%◌, ◌^◌, ◌≤◌, ◌<◌, ◌≡◌, refl, true, false, inl, inr, List, length,
  some, ltb, Bool-cases, lt→ltb, arith,
}
use drm3_rpc_pool.Config.{RpcEndpoint}
use drm3_rpc_pool.Throughput.Generator.{next_u64, below, swap, permute_from, permute}

next_u64-state : (state : ℕ) → (next_u64 state).0 ≡ (state + 0x9E3779B97F4A7C15) % 2 ^ 64
unfolding next_u64
next_u64-state state = refl

next_u64-eq-zero : (state : ℕ) → (state + 0x9E3779B97F4A7C15) % 2 ^ 64 ≡ 0 → (next_u64 state).1 ≡ 0
unfolding next_u64
next_u64-eq-zero state h = rw h refl

-- The step is odd, so that some number of steps leads from any state to 0.
steps_to_zero :
    (state : ℕ) → (k : ℕ) × (k < 2 ^ 64) × ((state + suc k * 0x9E3779B97F4A7C15) % 2 ^ 64 ≡ 0)
steps_to_zero state =
    let k = ((2 ^ 64 - state % 2 ^ 64) * 17428512612931826493 - 1) % 2 ^ 64 in
    (k, omega arith, omega arith)

zone-positive : (n : ℕ) → 1 ≤ n → n < 2 ^ 64 → 0 < (2 ^ 64 - 1) - (2 ^ 64 - 1) % n
zone-positive n low high = omega (arith, high, mod-lt (2 ^ 64 - 1) low)

module _ (n : ℕ) (low : 1 ≤ n) (high : n < 2 ^ 64) where
  zone : ℕ
  zone = (2 ^ 64 - 1) - (2 ^ 64 - 1) % n

  below-accepted :
      (fuel state : ℕ)
      → ltb (next_u64 state).1 zone ≡ true
      → below (suc fuel) n state ≡ some ((next_u64 state).0, (next_u64 state).1 % n)
  unfolding below zone
  below-accepted fuel state h = rw (below, h) refl

  below-rejected :
      (fuel state : ℕ)
      → ltb (next_u64 state).1 zone ≡ false
      → below (suc fuel) n state ≡ below fuel n (next_u64 state).0
  unfolding below zone
  below-rejected fuel state h = rw (below, h) refl

  below-draws :
      (k fuel state : ℕ)
      → (state + suc k * 0x9E3779B97F4A7C15) % 2 ^ 64 ≡ 0
      → k < fuel
      → (drawn : ℕ × ℕ) × (below fuel n state ≡ some drawn)
  unfolding zone
  below-draws k zero state reaches room = absurd (omega (arith, room))
  below-draws zero (suc fuel) state reaches room =
      let zero_drawn = next_u64-eq-zero state (omega (arith, reaches)) in
      (_, below-accepted fuel state (rw zero_drawn (lt→ltb 0 zone (zone-positive n low high))))
  below-draws (suc k) (suc fuel) state reaches room =
      elim (Bool-cases (ltb (next_u64 state).1 zone)) [
        | inl accepted ↦ (_, below-accepted fuel state accepted)
        | inr rejected ↦ rw (below-rejected fuel state rejected) (
            below-draws k fuel (next_u64 state).0
              (rw (next_u64-state state) (omega (arith, reaches))) (omega (arith, room)))
      ]

below-ends :
    (n : ℕ)
    → 1 ≤ n
    → n < 2 ^ 64
    → (fuel state : ℕ) → 2 ^ 64 ≤ fuel
    → (drawn : ℕ × ℕ) × (below fuel n state ≡ some drawn)
below-ends n low high fuel state enough =
    let (k, bounded, reaches) = steps_to_zero state in
    below-draws n low high k fuel state reaches (omega (arith, bounded, enough))

permute_from-ends :
    (fuel i : ℕ) (eps : List RpcEndpoint) (state : ℕ)
    → 2 ^ 64 ≤ fuel
    → suc i < 2 ^ 64
    → (drawn : List RpcEndpoint × ℕ) × (permute_from fuel i eps state ≡ some drawn)
unfolding permute_from
permute_from-ends fuel zero eps state enough high = ((eps, state), refl)
permute_from-ends fuel (suc i) eps state enough high =
    let ((state', j), is) =
      below-ends (i + 2) (omega arith) (omega (arith, high)) fuel state enough in
    let (drawn, rest) =
      permute_from-ends fuel i (swap eps (suc i) j) state' enough (omega (arith, high)) in
    (drawn, rw (permute_from, is) rest)

-- With fuel for 2^64 draws the shuffle ends.
pub permute-ends :
    (fuel : ℕ) (eps : List RpcEndpoint) (state : ℕ)
    → 2 ^ 64 ≤ fuel
    → length eps < 2 ^ 64
    → (drawn : List RpcEndpoint × ℕ) × (permute fuel eps state ≡ some drawn)
unfolding permute
permute-ends fuel eps state enough fits =
    permute_from-ends fuel (length eps - 1) eps state enough (omega (arith, fits))
