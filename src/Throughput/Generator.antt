-- ===== src/Throughput/Generator.antt =====
-- The generator of examples/throughput.rs, and the permutation it draws.
pub mod Ending
pub mod Shuffled
use Prim.Native.Nat.{bit_xor}
use drm3_rpc_pool.Prelude.{
  ℕ, zero, suc, ◌+◌, ◌-◌, ◌*◌, ◌/◌, ◌%◌, ◌^◌, List, Option, none, some, ltb, if◌then◌else◌,
  get_elem?, set, length,
}
use drm3_rpc_pool.Config.{RpcEndpoint}

-- `SplitMix64` on its state: the next state, and the number drawn.
unfoldable pub next_u64 : ℕ → ℕ × ℕ
next_u64 state =
    let s = (state + 0x9E3779B97F4A7C15) % 2 ^ 64 in
    let z = (bit_xor s (s / 2 ^ 30) * 0xBF58476D1CE4E5B9) % 2 ^ 64 in
    let z' = (bit_xor z (z / 2 ^ 27) * 0x94D049BB133111EB) % 2 ^ 64 in (s, bit_xor z' (z' / 2 ^ 31))

-- A number below `n` by rejection; nothing where the fuel runs out before a draw is accepted.
unfoldable pub below : ℕ → ℕ → ℕ → Option (ℕ × ℕ)
unfolding next_u64
below zero n state = none
below (suc fuel) n state =
    let zone = (2 ^ 64 - 1) - (2 ^ 64 - 1) % n in
    let (state', r) = next_u64 state in
    let again = below fuel n state' in if ltb r zone then some (state', r % n) else again

-- `slice::swap`; both indices are in range where `permute` calls it.
pub swap {ℓ} : {A : Type ℓ} → List A → ℕ → ℕ → List A
swap xs i j = elim (get_elem? xs i) [
  | none ↦ xs
  | some a ↦ elim (get_elem? xs j) [ none ↦ xs | some b ↦ set (set xs i b) j a ]
]

-- The rounds for the indices from the given one down to 1.
pub permute_from : ℕ → ℕ → List RpcEndpoint → ℕ → Option (List RpcEndpoint × ℕ)
unfolding below swap
permute_from fuel zero eps state = some (eps, state)
permute_from fuel (suc i) eps state = elim (below fuel (i + 2) state) [
  | none ↦ none
  | some (state', j) ↦ permute_from fuel i (swap eps (suc i) j) state'
]

unfoldable pub permute : ℕ → List RpcEndpoint → ℕ → Option (List RpcEndpoint × ℕ)
unfolding permute_from
permute fuel eps state = permute_from fuel (length eps - 1) eps state
