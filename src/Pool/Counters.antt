-- ===== src/Pool/Counters.antt =====
-- The load counters of a pool of src/pool/mod.rs that agree with the calls that share it.
use drm3_rpc_pool.Prelude.{
  ℕ, zero, suc, ◌+◌, ◌%◌, ◌^◌, ◌≡◌, refl, ap, sym, ◌∙◌, List, [], ◌∷◌, some, some-eq-some,
  get_elem?, false, ◌==◌, if◌then◌else◌, arith,
}
use drm3_rpc_pool.Pool.State.{modify}
use drm3_rpc_pool.Pool.Dispatch.Steps.{up, down}

pub get_elem?-modify {ℓ} :
    {A : Type ℓ} (l : List A) (i j : ℕ) (n : A) (f : A → A)
    → get_elem? (modify l i f) j ≡ some n
    → (m : A) × (get_elem? l j ≡ some m) × (n ≡ (if i == j then f m else m))
get_elem?-modify [] i j n f at = cc
get_elem?-modify (x ∷ l) zero zero n f at = (x, refl, sym (some-eq-some at))
get_elem?-modify (x ∷ l) zero (suc j) n f at =
    (n, at, (let no : (zero == suc j) ≡ false = ground arith in rw no refl))
get_elem?-modify (x ∷ l) (suc i) zero n f at =
    (x, refl, (let no : (suc i == zero) ≡ false = ground arith in rw no (sym (some-eq-some at))))
get_elem?-modify (x ∷ l) (suc i) (suc j) n f at =
    let (m, at', e) = get_elem?-modify l i j n f at in
    (m, at', (let same : (suc i == suc j) ≡ (i == j) = ground arith in rw same e))

-- Every counter is the count at its index, modulo 2^64.
abbrev pub Agrees : List ℕ → (ℕ → ℕ) → Type 0
Agrees counters count = (j n : ℕ) → get_elem? counters j ≡ some n → n ≡ count j % 2 ^ 64

module _ (l l' : List ℕ) (count count' : ℕ → ℕ) where
  pub Agrees-keep : l' ≡ l → ((j : ℕ) → count' j ≡ count j) → Agrees l count → Agrees l' count'
  Agrees-keep same counts agrees j n at =
      rw (counts j) (agrees j n (ap (λ c. get_elem? c j) (sym same) ∙ at))

  pub Agrees-up :
      (i : ℕ)
      → l' ≡ modify l i up
      → ((j : ℕ) → count' j ≡ count j + (if i == j then 1 else 0))
      → Agrees l count
      → Agrees l' count'
  Agrees-up i raised counts agrees j n at =
      let (m, at', e) = get_elem?-modify l i j n up (ap (λ c. get_elem? c j) (sym raised) ∙ at) in
      ground (arith, agrees j m at', e, counts j)

  pub Agrees-down :
      (i : ℕ)
      → l' ≡ modify l i down
      → ((j : ℕ) → count' j + (if i == j then 1 else 0) ≡ count j)
      → Agrees l count
      → Agrees l' count'
  Agrees-down i lowered counts agrees j n at =
      let (m, at', e) =
        get_elem?-modify l i j n down (ap (λ c. get_elem? c j) (sym lowered) ∙ at) in
      ground (arith, agrees j m at', e, counts j)
