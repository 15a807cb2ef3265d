-- ===== src/Pool/State/Frame.antt =====
-- What a step of src/pool/mod.rs leaves alone: the configured part of every entry, the retry budget,
-- and the load of the entries.
use mathlib.Core.Option
use drm3_rpc_pool.Prelude.{
  ℕ, zero, suc, ◌+◌, ◌-◌, ◌%◌, ◌^◌, ◌<◌, ◌≡◌, refl, ap, sym, ◌∙◌, String, Bool, true, false, List,
  [], ◌∷◌, Option, none, some, some-eq-some, arith, map, get_elem?, ◌==◌,
}
use drm3_rpc_pool.Config.{RpcEndpoint}
use drm3_rpc_pool.Pool.RateLimit.{RateLimiter}
use drm3_rpc_pool.Pool.State.{PoolEntry, Sys, modify}

module _ {ℓ κ} {A : Type ℓ} {B : Type κ} where
  -- An update that a projection does not see.
  pub map-modify_unseen :
      (f : A → B) (g : A → A) (xs : List A) (i : ℕ)
      → ((x : A) → f (g x) ≡ f x)
      → map f (modify xs i g) ≡ map f xs
  map-modify_unseen f g [] i h = refl
  map-modify_unseen f g (x ∷ xs) zero h = ap (λ y. y ∷ map f xs) (h x)
  map-modify_unseen f g (x ∷ xs) (suc i) h = ap (◌∷◌ (f x)) (map-modify_unseen f g xs i h)

  pub map-modify_unseen_at :
      (f : A → B) (g : A → A) (xs : List A) (i : ℕ) (x : A)
      → get_elem? xs i ≡ some x
      → f (g x) ≡ f x
      → map f (modify xs i g) ≡ map f xs
  map-modify_unseen_at f g [] i x at h = refl
  map-modify_unseen_at f g (y ∷ xs) zero x at h =
      let same : y ≡ x = some-eq-some at in ap (λ z. z ∷ map f xs) (rw same h)
  map-modify_unseen_at f g (y ∷ xs) (suc i) x at h =
      ap (◌∷◌ (f y)) (map-modify_unseen_at f g xs i x at h)

  pub map-modify :
      (f : A → B) (g : A → A) (k : B → B) (xs : List A) (i : ℕ)
      → ((x : A) → f (g x) ≡ k (f x))
      → map f (modify xs i g) ≡ modify (map f xs) i k
  map-modify f g k [] i h = refl
  map-modify f g k (x ∷ xs) zero h = ap (λ y. y ∷ map f xs) (h x)
  map-modify f g k (x ∷ xs) (suc i) h = ap (◌∷◌ (f x)) (map-modify f g k xs i h)

  pub get_elem?-map :
      (f : A → B) (xs : List A) (i : ℕ) → get_elem? (map f xs) i ≡ Option.map f (get_elem? xs i)
  get_elem?-map f [] i = refl
  get_elem?-map f (x ∷ xs) zero = refl
  get_elem?-map f (x ∷ xs) (suc i) = get_elem?-map f xs i

pub get_elem?-modify_other {ℓ} :
    {A : Type ℓ} (xs : List A) (i j : ℕ) (g : A → A)
    → (i == j) ≡ false
    → get_elem? (modify xs i g) j ≡ get_elem? xs j
get_elem?-modify_other [] i j g h = refl
get_elem?-modify_other (x ∷ xs) zero zero g h = absurd (ground (arith, h))
get_elem?-modify_other (x ∷ xs) zero (suc j) g h = refl
get_elem?-modify_other (x ∷ xs) (suc i) zero g h = refl
get_elem?-modify_other (x ∷ xs) (suc i) (suc j) g h =
    get_elem?-modify_other xs i j g (ground (arith, h))

abbrev pub is_limited : Option RateLimiter → Bool
is_limited none = false
is_limited (some limiter) = true

-- The part of an entry that no request changes.
pub record Fixed : Type 0 where
  pub endpoint : RpcEndpoint
  pub auth_headers : List (String × String)
  pub limited : Bool

abbrev pub fixed : PoolEntry → Fixed
fixed entry = record {
  endpoint = entry.endpoint;
  auth_headers = entry.auth_headers;
  limited = is_limited entry.rate_limiter;
}

abbrev pub layout : Sys → List Fixed
layout sys = map fixed sys.pool.entries

abbrev pub loads : Sys → List ℕ
loads sys = map (λ e. e.in_flight) sys.pool.entries

pub record Frame (s t : Sys) : Type 0 where
  pub same_layout : layout t ≡ layout s
  pub same_budget : t.pool.max_retries ≡ s.pool.max_retries

-- The limiters, of which a round changes that of its endpoint at most.
abbrev pub limiters : Sys → List (Option RateLimiter)
limiters s = map (λ e. e.rate_limiter) s.pool.entries

abbrev pub Apart : ℕ → Sys → Sys → Type 0
Apart i s t = (j : ℕ) → (i == j) ≡ false → get_elem? (limiters t) j ≡ get_elem? (limiters s) j

pub Frame-refl : (s : Sys) → Frame s s
Frame-refl s = record { same_layout = refl; same_budget = refl }

pub Frame-trans : {s t u : Sys} → Frame s t → Frame t u → Frame s u
Frame-trans f g = record {
  same_layout = g.same_layout ∙ f.same_layout;
  same_budget = g.same_budget ∙ f.same_budget;
}

-- A step that announces no request: the loads, the ids and the metrics stay too.
pub record Quiet (s t : Sys) : Type 0 where
  pub frame : Frame s t
  pub same_loads : loads t ≡ loads s
  pub same_id : t.pool.request_id ≡ s.pool.request_id
  pub same_events : t.events ≡ s.events

pub Quiet-refl : (s : Sys) → Quiet s s
Quiet-refl s = record {
  frame = Frame-refl s;
  same_loads = refl;
  same_id = refl;
  same_events = refl;
}

-- The fixed part at an index survives a frame.
pub Frame-get :
    {s t : Sys} (f : Frame s t) (i : ℕ) (e : PoolEntry)
    → get_elem? s.pool.entries i ≡ some e
    → (e' : PoolEntry) × (get_elem? t.pool.entries i ≡ some e') × (fixed e' ≡ fixed e)
Frame-get {s} {t} f i e at = at_result (get_elem? t.pool.entries i) refl
  where
    image : Option.map fixed (get_elem? t.pool.entries i) ≡ some (fixed e)
    image =
        sym (get_elem?-map fixed t.pool.entries i)
        ∙ ap (λ xs. get_elem? xs i) f.same_layout
        ∙ get_elem?-map fixed s.pool.entries i
        ∙ ap (Option.map fixed) at

    at_result :
        (o : Option PoolEntry)
        → get_elem? t.pool.entries i ≡ o
        → (e' : PoolEntry) × (get_elem? t.pool.entries i ≡ some e') × (fixed e' ≡ fixed e)
    at_result none h = cc (sym (ap (Option.map fixed) h) ∙ image)
    at_result (some e') h = (e', h, some-eq-some (sym (ap (Option.map fixed) h) ∙ image))

-- `drop` undoes `enter`.
pub leave-enter_load : (n : ℕ) → n < 2 ^ 64 → ((n + 1) % 2 ^ 64 + 2 ^ 64 - 1) % 2 ^ 64 ≡ n
leave-enter_load n h = omega arith

pub Frame-symm : {s t : Sys} → Frame s t → Frame t s
Frame-symm f = record { same_layout = sym f.same_layout; same_budget = sym f.same_budget }
