-- ===== src/Throughput/Generator/Shuffled.antt =====
-- What the shuffle of examples/throughput.rs makes of a list: the same elements in another order.
use mathlib.Core.List.{Permᴰ}
use mathlib.Core.List.Permᴰ
use drm3_rpc_pool.Prelude.{
  ℕ, zero, suc, ◌+◌, ◌-◌, some-eq-some, ◌≡◌, refl, sym, subst, Option-cases, inl, inr, List, [],
  ◌∷◌, some, get_elem?, set, length, arith,
}
use drm3_rpc_pool.Config.{RpcEndpoint}
use drm3_rpc_pool.Throughput.Generator.{below, swap, permute_from, permute}

module _ {ℓ} {A : Type ℓ} where
  -- What is written at an index takes the place of what stood there.
  set-perm :
      (a b : A) (xs : List A) (j : ℕ) → get_elem? xs j ≡ some b → Permᴰ (a ∷ xs) (b ∷ set xs j a)
  set-perm a b [] j h = cc
  set-perm a b (x ∷ xs) zero h = Permᴰ.swap refl (ground (arith, h))
  set-perm a b (x ∷ xs) (suc j) h =
      Permᴰ.trans (Permᴰ.swap refl refl)
        (Permᴰ.trans (Permᴰ.cons refl (set-perm a b xs j h)) (Permᴰ.swap refl refl))

  set-set-perm :
      (a b : A) (xs : List A) (i j : ℕ)
      → get_elem? xs i ≡ some a
      → get_elem? xs j ≡ some b
      → Permᴰ xs (set (set xs i b) j a)
  set-set-perm a b [] i j at_i at_j = cc
  set-set-perm a b (x ∷ xs) zero zero at_i at_j = Permᴰ.cons (ground (arith, at_j)) (Permᴰ.refl xs)
  set-set-perm a b (x ∷ xs) zero (suc j) at_i at_j =
      let first : x ≡ a = ground (arith, at_i) in
      subst (λ y. Permᴰ (y ∷ xs) (b ∷ set xs j a)) (sym first) (set-perm a b xs j at_j)
  set-set-perm a b (x ∷ xs) (suc i) zero at_i at_j =
      let first : x ≡ b = ground (arith, at_j) in
      subst (λ y. Permᴰ (y ∷ xs) (a ∷ set xs i b)) (sym first) (set-perm b a xs i at_i)
  set-set-perm a b (x ∷ xs) (suc i) (suc j) at_i at_j =
      Permᴰ.cons refl (set-set-perm a b xs i j at_i at_j)

  swap-perm : (xs : List A) (i j : ℕ) → Permᴰ xs (swap xs i j)
  unfolding swap
  swap-perm xs i j = elim (Option-cases (get_elem? xs i)) [
    | inl missing ↦ rw (missing, swap) (Permᴰ.refl xs)
    | inr (a, at_i) ↦ elim (Option-cases (get_elem? xs j)) [
      | inl missing ↦ rw (at_i, missing, swap) (Permᴰ.refl xs)
      | inr (b, at_j) ↦ rw (at_i, at_j, swap) (set-set-perm a b xs i j at_i at_j)
    ]
  ]

permute_from-perm :
    (fuel i : ℕ) (eps : List RpcEndpoint) (state : ℕ) (drawn : List RpcEndpoint × ℕ)
    → permute_from fuel i eps state ≡ some drawn
    → Permᴰ eps drawn.0
unfolding permute_from
permute_from-perm fuel zero eps state drawn h =
    subst (λ d. Permᴰ eps d.0) (some-eq-some h) (Permᴰ.refl eps)
permute_from-perm fuel (suc i) eps state drawn h = elim (Option-cases (below fuel (i + 2) state)) [
  | inl spent ↦ absurd (ground (arith, h, spent))
  | inr (found, is) ↦
      let (state', j) = found in
      Permᴰ.trans (swap-perm eps (suc i) j)
        (permute_from-perm fuel i (swap eps (suc i) j) state' drawn (rw (is, permute_from) at h))
]

-- The draws of a shuffle that ends have only reordered the list.
pub permute-perm :
    (fuel : ℕ) (eps : List RpcEndpoint) (state : ℕ) (drawn : List RpcEndpoint × ℕ)
    → permute fuel eps state ≡ some drawn
    → Permᴰ eps drawn.0
unfolding permute
permute-perm fuel eps state drawn h = permute_from-perm fuel (length eps - 1) eps state drawn h
