-- ===== src/Presets/Validity.antt =====
-- Every preset of src/presets.rs is a valid configuration in the order of its ranks.
use drm3_rpc_pool.Prelude.{
  ℕ, suc, ◌≡◌, refl, ap, sym, ◌∙◌, inl, inr, String, Bool, true, false, List, [], ◌∷◌, map, Option,
  none, some, some-eq-some, subst, ok, if◌then◌else◌, Option-cases, All, arith,
}
use drm3_rpc_pool.Config.{RpcEndpoint, RpcCapability, supports, RpcPoolConfig, default_config}
use drm3_rpc_pool.Config.Env.{split_open}
use drm3_rpc_pool.Config.Validate.{validate}
use drm3_rpc_pool.Config.Validate.Distinct.{validate-map}
use drm3_rpc_pool.Config.Toml.RoundTrip.{IsPlainEndpoint}
use drm3_rpc_pool.Presets.{
  base, ethereum, arbitrum, optimism, polygon, bnb, endpoints_for, config_for, peers_for, at_front,
}

-- The ranks count up from the given one.
abbrev pub Ranked : ℕ → List RpcEndpoint → Type 0
Ranked i [] = Unit
Ranked i (e ∷ es) = (e.priority ≡ i) × Ranked (suc i) es

abbrev AllSupport : List RpcEndpoint → Type 0
AllSupport es = (c : RpcCapability) → All (λ e. supports e c ≡ true) es

abbrev pub IsPreset : List RpcEndpoint → Type 0
IsPreset es =
    (validate (record default_config { endpoints = es }) ≡ ok tt)
    × Ranked 0 es
    × AllSupport es
    × All IsPlainEndpoint es

-- What is found, if anything, has the property.
data Found {A : Type 0} (P : A → Type 0) : Option A → Type 0 where
  absent : Found P none
  present : {x : A} → P x → Found P (some x)

Found-if :
    {A : Type 0} {P : A → Type 0} (b : Bool) (x : A) (other : Option A)
    → P x
    → Found P other
    → Found P (if b then some x else other)
Found-if true x other p rest = present p
Found-if false x other p rest = rest

Found-value : {A : Type 0} {P : A → Type 0} {o : Option A} {y : A} → Found P o → o ≡ some y → P y
Found-value absent e = ground arith
Found-value {P = P} (present p) e = subst P (some-eq-some e) p

base-IsPreset : IsPreset base
unfolding base validate supports split_open
base-IsPreset = (refl, ground arith, λ c. ground arith, ground arith)

ethereum-IsPreset : IsPreset ethereum
unfolding ethereum validate supports split_open
ethereum-IsPreset = (refl, ground arith, λ c. ground arith, ground arith)

arbitrum-IsPreset : IsPreset arbitrum
unfolding arbitrum validate supports split_open
arbitrum-IsPreset = (refl, ground arith, λ c. ground arith, ground arith)

optimism-IsPreset : IsPreset optimism
unfolding optimism validate supports split_open
optimism-IsPreset = (refl, ground arith, λ c. ground arith, ground arith)

polygon-IsPreset : IsPreset polygon
unfolding polygon validate supports split_open
polygon-IsPreset = (refl, ground arith, λ c. ground arith, ground arith)

bnb-IsPreset : IsPreset bnb
unfolding bnb validate supports split_open
bnb-IsPreset = (refl, ground arith, λ c. ground arith, ground arith)

endpoints_for-IsPreset : (name : String) → Found IsPreset (endpoints_for name)
unfolding endpoints_for
endpoints_for-IsPreset name = Found-if _ base _ base-IsPreset (
    Found-if _ ethereum _ ethereum-IsPreset (
      Found-if _ arbitrum _ arbitrum-IsPreset (
        Found-if _ optimism _ optimism-IsPreset
          (Found-if _ polygon _ polygon-IsPreset (Found-if _ bnb _ bnb-IsPreset absent)))))

pub endpoints_for-some :
    (name : String) (es : List RpcEndpoint) → endpoints_for name ≡ some es → IsPreset es
endpoints_for-some name es found = Found-value (endpoints_for-IsPreset name) found

-- A configuration found by name passes the validation, and its endpoints have the priorities
-- 0, 1, 2 and so on in their order and serve every method.
pub config_for-IsPreset :
    (name : String) {cfg : RpcPoolConfig}
    → config_for name ≡ some cfg
    → (validate cfg ≡ ok tt)
      × Ranked 0 cfg.endpoints
      × ((c : RpcCapability) → All (λ e. supports e c ≡ true) cfg.endpoints)
unfolding config_for
config_for-IsPreset name {cfg} e = elim (Option-cases (endpoints_for name)) [
  | inl h ↦ ground arith
  | inr (es, h) ↦
      let preset : IsPreset es = Found-value (endpoints_for-IsPreset name) h in
      let is : record default_config { endpoints = es } ≡ cfg = some-eq-some (rw h at e) in
      rw (sym is) (preset.0, preset.1, preset.2)
]

validate-at_front :
    (es : List RpcEndpoint)
    → validate (record default_config { endpoints = map at_front es })
      ≡ validate (record default_config { endpoints = es })
unfolding at_front
validate-at_front es = validate-map at_front (λ e. refl) default_config es

map-at_front :
    (es : List RpcEndpoint)
    → (map (λ e. e.url) (map at_front es) ≡ map (λ e. e.url) es)
      × All (λ e. e.priority ≡ 0) (map at_front es)
unfolding at_front
map-at_front [] = (refl, tt)
map-at_front (e ∷ es) = let (urls, zero) = map-at_front es in (ap (◌∷◌ e.url) urls, (refl, zero))

-- The peers of a name are valid where its ranked configuration is found: the same URLs in the same
-- order, all at priority 0.
peers_for-config_for :
    (name : String) {cfg : RpcPoolConfig}
    → config_for name ≡ some cfg
    → (peers : RpcPoolConfig) × (peers_for name ≡ some peers)
      × (validate peers ≡ ok tt)
      × (map (λ e. e.url) peers.endpoints ≡ map (λ e. e.url) cfg.endpoints)
      × All (λ e. e.priority ≡ 0) peers.endpoints
unfolding config_for peers_for
peers_for-config_for name {cfg} e = elim (Option-cases (endpoints_for name)) [
  | inl h ↦ ground arith
  | inr (es, h) ↦
      let preset : IsPreset es = Found-value (endpoints_for-IsPreset name) h in
      let is : record default_config { endpoints = es } ≡ cfg = some-eq-some (rw h at e) in
      let (urls, zero) = map-at_front es in
      (
        record default_config { endpoints = map at_front es },
        rw h refl,
        validate-at_front es ∙ preset.0,
        rw (sym is) urls,
        zero,
      )
]

-- Where a name finds a configuration: it passes the validation, and its endpoints have the
-- priorities 0, 1, 2 and so on in their order and serve every method; and the name's peers are found,
-- valid, with the same URLs in the same order, all at priority 0.
pub config_for-peers_for :
    (name : String) {cfg : RpcPoolConfig}
    → config_for name ≡ some cfg
    → (validate cfg ≡ ok tt)
      × Ranked 0 cfg.endpoints
      × ((c : RpcCapability) → All (λ e. supports e c ≡ true) cfg.endpoints)
      × ((peers : RpcPoolConfig) × (peers_for name ≡ some peers)
          × (validate peers ≡ ok tt)
          × (map (λ e. e.url) peers.endpoints ≡ map (λ e. e.url) cfg.endpoints)
          × All (λ e. e.priority ≡ 0) peers.endpoints)
config_for-peers_for name e =
    let (valid, ranked, served) = config_for-IsPreset name e in
    (valid, ranked, served, peers_for-config_for name e)
