-- ===== src/Config/Validate/Reordered.antt =====
-- `RpcPoolConfig::validate` of src/config.rs at the same endpoints in another order.
use mathlib.Core.List.{Permᴰ}
use mathlib.Core.List.Permᴰ
use drm3_rpc_pool.Prelude.{◌≡◌, ◌≢◌, sym, subst, String, List, [], ◌∷◌, ok, All, arith}
use drm3_rpc_pool.Config.Types.{RpcEndpoint, RpcPoolConfig}
use drm3_rpc_pool.Config.Validate.{validate}
use drm3_rpc_pool.Config.Validate.Distinct.{Distinct, validate-eq-ok_iff}

module _ {ℓ κ} {A : Type ℓ} (P : A → Type κ) where
  All-perm : {xs ys : List A} → Permᴰ xs ys → All P xs → All P ys
  All-perm Permᴰ.nil all = tt
  All-perm (Permᴰ.cons e d) all = (subst P e all.0, All-perm d all.1)
  All-perm (Permᴰ.swap e₁ e₂) all = (subst P e₂ all.1.0, (subst P e₁ all.0, all.1.1))
  All-perm (Permᴰ.trans d₁ d₂) all = All-perm d₂ (All-perm d₁ all)

Distinct-perm : {xs ys : List String} → Permᴰ xs ys → Distinct xs → Distinct ys
Distinct-perm Permᴰ.nil distinct = tt
Distinct-perm (Permᴰ.cons {l₂ = l₂} e d) distinct =
    (subst (λ x. All (λ y. x ≢ y) l₂) e (All-perm _ d distinct.0), Distinct-perm d distinct.1)
Distinct-perm (Permᴰ.swap {a = a} {b = b} {b' = b'} {l = l} e₁ e₂) distinct =
    let swapped : Distinct (b ∷ a ∷ l) =
      (((λ same. distinct.0.0 (sym same)), distinct.1.0), (distinct.0.1, distinct.1.1)) in
    subst (λ x. Distinct (x ∷ b' ∷ l)) e₂ (subst (λ y. Distinct (b ∷ y ∷ l)) e₁ swapped)
Distinct-perm (Permᴰ.trans d₁ d₂) distinct = Distinct-perm d₂ (Distinct-perm d₁ distinct)

nonempty-perm : {xs ys : List RpcEndpoint} → Permᴰ xs ys → xs ≢ [] → ys ≢ []
nonempty-perm Permᴰ.nil nonempty = nonempty
nonempty-perm (Permᴰ.cons e d) nonempty = λ empty. ground (arith, empty)
nonempty-perm (Permᴰ.swap e₁ e₂) nonempty = λ empty. ground (arith, empty)
nonempty-perm (Permᴰ.trans d₁ d₂) nonempty = nonempty-perm d₂ (nonempty-perm d₁ nonempty)

-- The order of the endpoints does not matter to the validation.
pub validate-perm :
    (cfg : RpcPoolConfig) {xs ys : List RpcEndpoint}
    → Permᴰ xs ys
    → validate (record cfg { endpoints = xs }) ≡ ok tt
    → validate (record cfg { endpoints = ys }) ≡ ok tt
validate-perm cfg {xs} {ys} d valid =
    let (nonempty, named, distinct) =
      (validate-eq-ok_iff (record cfg { endpoints = xs })).0 valid in
    (validate-eq-ok_iff (record cfg { endpoints = ys })).1 (
      nonempty-perm d nonempty,
      All-perm _ d named,
      Distinct-perm (Permᴰ.map (λ e. e.url) d) distinct,
    )
