-- ===== src/Prelude/Sums.antt =====
-- Sums of a count over lists.
use drm3_rpc_pool.Prelude.{
  ℕ, zero, suc, ◌+◌, ◌≡◌, refl, Bool, List, [], ◌∷◌, ◌++◌, some, some-eq-some, get_elem?, set,
  arith, Bool-cases, inl, inr,
}
use drm3_rpc_pool.Prelude.Sorting.{insert_by, sort_by}

module _ {ℓ} {A : Type ℓ} (weight : A → ℕ) where
  abbrev pub total : List A → ℕ
  total [] = 0
  total (x ∷ xs) = weight x + total xs

  pub total-append : (xs ys : List A) → total (xs ++ ys) ≡ total xs + total ys
  total-append [] ys = omega arith
  total-append (x ∷ xs) ys = omega (arith, total-append xs ys)

  pub total-set :
      (k : ℕ) (xs : List A) (old new : A)
      → get_elem? xs k ≡ some old
      → total (set xs k new) + weight old ≡ total xs + weight new
  total-set k [] old new at = cc
  total-set zero (x ∷ xs) old new at = let same : x ≡ old = some-eq-some at in rw same (omega arith)
  total-set (suc k) (x ∷ xs) old new at = omega (arith, total-set k xs old new at)

  module _ (le : A → A → Bool) where
    total-insert_by : (x : A) (ys : List A) → total (insert_by le x ys) ≡ weight x + total ys
    unfolding insert_by
    total-insert_by x [] = refl
    total-insert_by x (y ∷ ys) = elim (Bool-cases (le x y)) [
      | inl h ↦ rw h refl
      | inr h ↦ rw h (omega (arith, total-insert_by x ys))
    ]

    pub total-sort_by : (xs : List A) → total (sort_by le xs) ≡ total xs
    unfolding sort_by
    total-sort_by [] = refl
    total-sort_by (x ∷ xs) = omega (arith, total-insert_by x (sort_by le xs), total-sort_by xs)
