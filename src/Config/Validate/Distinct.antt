-- ===== src/Config/Validate/Distinct.antt =====
-- Which configurations `RpcPoolConfig::validate` of src/config.rs accepts.
use text.Mathlib.TextEquality.{eq_iff}
use drm3_rpc_pool.Prelude.{
  ◌≡◌, ◌≢◌, ◌↔◌, inl, inr, refl, String, false, List, [], ◌∷◌, map, ok, str_eq, All, Bool-cases,
  arith,
}
use drm3_rpc_pool.Config.Types.{RpcEndpoint, RpcPoolConfig}
use drm3_rpc_pool.Config.Validate.{is_blank, seen_before, validate_loop, validate}

-- No two of the texts are equal.
abbrev pub Distinct : List String → Type 0
Distinct [] = Unit
Distinct (url ∷ urls) = All (λ other. url ≢ other) urls × Distinct urls

abbrev Unseen : List String → RpcEndpoint → Type 0
Unseen seen e = All (λ s. s ≢ e.url) seen

abbrev pub IsNamed : RpcEndpoint → Type 0
IsNamed e = is_blank e.url ≡ false

seen_before-eq-false_iff :
    (seen : List String) (url : String) → (seen_before seen url ≡ false) ↔ All (λ s. s ≢ url) seen
unfolding seen_before
seen_before-eq-false_iff [] url = (λ e. tt, λ all. refl)
seen_before-eq-false_iff (s ∷ seen) url =
    let (to, from) = seen_before-eq-false_iff seen url in
    let (equal, differ) = eq_iff s url in
    (
      λ e. (λ same. ground (arith, e, differ same), to (ground (arith, e))),
      λ all. elim (Bool-cases (str_eq s url)) [
        | inl same ↦ absurd (all.0 (equal same))
        | inr other ↦ rw other (from all.1)
      ],
    )

-- Every endpoint differs from those seen, and from one more.
Unseen-cons :
    (url : String) (seen : List String) (es : List RpcEndpoint)
    → All (Unseen (url ∷ seen)) es
      ↔ (All (Unseen seen) es × All (λ other. url ≢ other) (map (λ e. e.url) es))
Unseen-cons url seen [] = (λ all. (tt, tt), λ all. tt)
Unseen-cons url seen (e ∷ es) =
    let (to, from) = Unseen-cons url seen es in
    (
      λ all. let (a, b) = to all.1 in ((all.0.1, a), (all.0.0, b)),
      λ all. ((all.1.0, all.0.0), from (all.0.1, all.1.1)),
    )

validate_loop-eq-ok :
    (seen : List String) (es : List RpcEndpoint)
    → validate_loop seen es ≡ ok tt
    → All IsNamed es × All (Unseen seen) es × Distinct (map (λ e. e.url) es)
unfolding validate_loop
validate_loop-eq-ok seen [] v = (tt, tt, tt)
validate_loop-eq-ok seen (e ∷ es) v = elim (Bool-cases (is_blank e.url)) [
  | inl blank ↦ absurd (ground (arith, v, blank))
  | inr named ↦ elim (Bool-cases (seen_before seen e.url)) [
    | inl again ↦ absurd (ground (arith, v, named, again))
    | inr first ↦
        let later = rw (named, first) at v in
        let (all, unseen, distinct) = validate_loop-eq-ok (e.url ∷ seen) es later in
        let (others, differ) = (Unseen-cons e.url seen es).0 unseen in
        ((named, all), ((seen_before-eq-false_iff seen e.url).0 first, others), (differ, distinct))
  ]
]

validate_loop-of_Distinct :
    (seen : List String) (es : List RpcEndpoint)
    → All IsNamed es
    → All (Unseen seen) es
    → Distinct (map (λ e. e.url) es)
    → validate_loop seen es ≡ ok tt
unfolding validate_loop
validate_loop-of_Distinct seen [] named unseen distinct = refl
validate_loop-of_Distinct seen (e ∷ es) named unseen distinct =
    rw (named.0, (seen_before-eq-false_iff seen e.url).1 unseen.0)
      (validate_loop-of_Distinct (e.url ∷ seen) es named.1
        ((Unseen-cons e.url seen es).1 (unseen.1, distinct.0)) distinct.1)

nothing_seen : (es : List RpcEndpoint) → All (Unseen []) es
nothing_seen [] = tt
nothing_seen (e ∷ es) = (tt, nothing_seen es)

abbrev IsAcceptable : List RpcEndpoint → Type 0
IsAcceptable es = (es ≢ []) × All IsNamed es × Distinct (map (λ e. e.url) es)

validate-by_endpoints :
    (cfg : RpcPoolConfig) (es : List RpcEndpoint)
    → cfg.endpoints ≡ es
    → (validate cfg ≡ ok tt) ↔ IsAcceptable es
unfolding validate
validate-by_endpoints cfg [] at = (λ v. absurd (ground (arith, v, at)), λ c. absurd (c.0 refl))
validate-by_endpoints cfg (e ∷ es) at = (
  λ v.
      let (named, unseen, distinct) = validate_loop-eq-ok [] (e ∷ es) (rw (at, validate) at v) in
      ((λ empty. ground (arith, empty)), named, distinct),
  λ c.
      let (nonempty, named, distinct) = c in
      rw (at, validate)
        (validate_loop-of_Distinct [] (e ∷ es) named (nothing_seen (e ∷ es)) distinct),
)

-- A configuration is valid exactly when it has an endpoint, no URL is blank and no two are equal.
pub validate-eq-ok_iff :
    (cfg : RpcPoolConfig)
    → (validate cfg ≡ ok tt) ↔ (
        (cfg.endpoints ≢ [])
        × All IsNamed cfg.endpoints
        × Distinct (map (λ e. e.url) cfg.endpoints))
validate-eq-ok_iff cfg = validate-by_endpoints cfg cfg.endpoints refl

-- An update of the endpoints that changes no URL changes nothing for the validation.
validate_loop-map :
    (f : RpcEndpoint → RpcEndpoint)
    → ((e : RpcEndpoint) → (f e).url ≡ e.url)
    → (seen : List String) (es : List RpcEndpoint)
    → validate_loop seen (map f es) ≡ validate_loop seen es
unfolding validate_loop
validate_loop-map f same seen [] = refl
validate_loop-map f same seen (e ∷ es) =
    rw (same e, validate_loop-map f same (e.url ∷ seen) es) refl

pub validate-map :
    (f : RpcEndpoint → RpcEndpoint)
    → ((e : RpcEndpoint) → (f e).url ≡ e.url)
    → (cfg : RpcPoolConfig) (es : List RpcEndpoint)
    → validate (record cfg { endpoints = map f es }) ≡ validate (record cfg { endpoints = es })
unfolding validate
validate-map f same cfg [] = refl
validate-map f same cfg (e ∷ es) = validate_loop-map f same [] (e ∷ es)
