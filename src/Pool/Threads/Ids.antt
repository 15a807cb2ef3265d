-- ===== src/Pool/Threads/Ids.antt =====
-- The request ids of src/pool/mod.rs under any interleaving of the threads' operations.
use mathlib.Core.List.{append-nil}
use drm3_rpc_pool.Prelude.{
  ℕ, zero, suc, ◌+◌, ◌%◌, ◌^◌, ◌≤◌, ◌<◌, ◌≡◌, ◌⊎◌, ◌↔◌, refl, ap, sym, List, [], ◌∷◌, ◌++◌, some,
  some-eq-some, Result, ok, String, get_elem?, length, length-append, arith, inl, inr,
}
use drm3_rpc_pool.Wire.{Bytes, Serde, ResponseError}
use drm3_rpc_pool.Pool.State.{Sys, modify_entry, emit, read_clock}
use drm3_rpc_pool.Pool.Dispatch.Steps.{up, request}
use drm3_rpc_pool.Pool.Dispatch.{Loop}
use drm3_rpc_pool.Pool.Threads.Operations.{
  number, answered, failed, Phase, scanning, noting, ready, throttling, granted, announced,
  numbered, measured, recorded,
}
use drm3_rpc_pool.Pool.Threads.{
  World, act, open_call, move, drop_call, begins, acts, sorts, delivers, cancels, Reach, here, next,
}

get_elem?-snoc {ℓ} :
    {A : Type ℓ} (xs : List A) (y : A) (a : ℕ) (x : A)
    → get_elem? (xs ++ y ∷ []) a ≡ some x
    → (get_elem? xs a ≡ some x) ⊎ ((a ≡ length xs) × (x ≡ y))
get_elem?-snoc [] y zero x at = inr (refl, sym (some-eq-some at))
get_elem?-snoc [] y (suc a) x at = cc
get_elem?-snoc (z ∷ xs) y zero x at = inl at
get_elem?-snoc (z ∷ xs) y (suc a) x at = elim (get_elem?-snoc xs y a x at) [
  | inl old ↦ inl old
  | inr (last, is) ↦ inr (ap suc last, is)
]

module _ {Value : Type 0} where
  abbrev next_id : Phase Value → ℕ → ℕ
  next_id (announced method params i rest loop) id = up id
  next_id phase id = id

module _ {Value A : Type 0} (serde : Serde Value) (clock : ℕ → ℕ)
    (handle : Bytes → Result A ResponseError) where
  act-id :
      (phase : Phase Value) (s : Sys)
      → (act serde clock handle phase s).0.pool.request_id ≡ next_id phase s.pool.request_id
  unfolding act modify_entry emit read_clock
  act-id (scanning method params now i found) s = ground arith
  act-id (noting method params now i found) s = ground arith
  act-id (ready method params [] loop) s = refl
  act-id (ready method params (i ∷ rest) loop) s = ground arith
  act-id (throttling method params i rest loop now) s = ground arith
  act-id (granted method params i rest loop) s = ground arith
  act-id (announced method params i rest loop) s = ground arith
  act-id (numbered method params i rest loop body) s = ground arith
  act-id (measured method params w rest latency answered) s = refl
  act-id (measured method params w rest latency (failed message)) s = refl
  act-id (recorded method params w rest latency answered) s = refl
  act-id (recorded method params w rest latency (failed message)) s = refl
  act-id phase s = refl

  -- The request that a call's next operation makes: its method, its parameters and its body.
  abbrev pub body_of : Phase Value → List (String × Value × Bytes)
  body_of (numbered method params i rest loop body) = (method, params, body) ∷ []
  body_of phase = []

  abbrev pub makes : Phase Value → Sys → List (String × Value × Bytes)
  makes (announced method params i rest loop) s =
      body_of (act serde clock handle (announced method params i rest loop) s).1
  makes phase s = []

  -- The requests, in the order in which they are made.
  abbrev pub requests :
      {v w : World Value} → Reach serde clock handle v w → List (String × Value × Bytes)
  requests here = []
  requests (next r (begins method params)) = requests r
  requests (next {v} r (acts k phase at)) = requests r ++ makes phase v.sys
  requests (next r (sorts k method params found candidates at d)) = requests r
  requests (next r (delivers k method params w rest reply at)) = requests r
  requests (next r (cancels k method params w rest at)) = requests r

  -- The body of a request is its serialization under an id.
  abbrev pub Under : String × Value × Bytes → ℕ → Type 0
  Under (method, params, body) id = serde.to_vec (request method params id) ≡ ok body

  -- The requests so far are under consecutive ids, and the counter is the next one.
  abbrev Consecutive : ℕ → List (String × Value × Bytes) → ℕ → Type 0
  Consecutive first made id =
      (id ≡ (first + length made) % 2 ^ 64)
      × ((a : ℕ) (x : String × Value × Bytes)
          → get_elem? made a ≡ some x
          → (a < length made) × Under x ((first + a) % 2 ^ 64))

  module _
      (writes : (method : String) (params : Value) (id : ℕ)
        → (body : Bytes) × (serde.to_vec (request method params id) ≡ ok body)) where
    made_one :
        (method : String) (params : Value) (i : ℕ) (rest : List ℕ) (loop : Loop) (s : Sys)
        → (body : Bytes) × (makes (announced method params i rest loop) s
            ≡ (method, params, body) ∷ [])
          × Under (method, params, body) s.pool.request_id
    unfolding act number
    made_one method params i rest loop s =
        let (body, written) = writes method params s.pool.request_id in
        (body, rw (written, number) refl, written)

    act-Consecutive :
        (first : ℕ) (made : List (String × Value × Bytes)) (phase : Phase Value) (s : Sys)
        → Consecutive first made s.pool.request_id
        → Consecutive first (made ++ makes phase s) (next_id phase s.pool.request_id)
    act-Consecutive first made (announced method params i rest loop) s (counter, known) =
        let (body, one, written) = made_one method params i rest loop s in
        let longer = length-append made ((method, params, body) ∷ []) in
        rw one (
          omega (arith, longer, counter),
          λ a x at. elim (get_elem?-snoc made (method, params, body) a x at) [
            | inl old ↦ let (below, under) = known a x old in (omega (arith, longer, below), under)
            | inr (last, is) ↦ (omega (arith, longer, last), rw (is, last, ← counter) written)
          ],
        )
    act-Consecutive first made phase s consecutive = rw (append-nil made) consecutive

    Reach-Consecutive :
        {v w : World Value} (r : Reach serde clock handle v w)
        → v.sys.pool.request_id < 2 ^ 64
        → Consecutive v.sys.pool.request_id (requests r) w.sys.pool.request_id
    unfolding open_call drop_call move read_clock modify_entry
    Reach-Consecutive here fits = (omega (arith, fits), λ a x at. cc)
    Reach-Consecutive (next r (begins method params)) fits = Reach-Consecutive r fits
    Reach-Consecutive {v} (next {v = u} r (acts k phase at)) fits =
        rw (act-id phase u.sys) (
          act-Consecutive v.sys.pool.request_id (requests r) phase u.sys (Reach-Consecutive r fits))
    Reach-Consecutive (next r (sorts k method params found candidates at d)) fits =
        Reach-Consecutive r fits
    Reach-Consecutive (next r (delivers k method params w rest reply at)) fits =
        Reach-Consecutive r fits
    Reach-Consecutive (next r (cancels k method params w rest at)) fits = Reach-Consecutive r fits

    -- With a serializer that never fails, however the operations of the threads interleave, from a
    -- counter below 2^64: the body of each request is its serialization under an id, the ids are
    -- consecutive modulo 2^64 in the order in which the requests are made, and no two of at most 2^64
    -- requests have the same id.
    pub requests-Distinct :
        {v w : World Value} (r : Reach serde clock handle v w)
        → v.sys.pool.request_id < 2 ^ 64
        → length (requests r) ≤ 2 ^ 64
        → (a b : ℕ) (x y : String × Value × Bytes) → get_elem? (requests r) a ≡ some x
        → get_elem? (requests r) b ≡ some y
        → (i j : ℕ) × Under x i
          × Under y j
          × (i ≡ (v.sys.pool.request_id + a) % 2 ^ 64)
          × ((i ≡ j) ↔ (a ≡ b))
    requests-Distinct {v} r fits few a b x y at_a at_b =
        let (counter, known) = Reach-Consecutive r fits in
        let (a_below, x_under) = known a x at_a in
        let (b_below, y_under) = known b y at_b in
        (
          _,
          _,
          x_under,
          y_under,
          refl,
          ((λ same. omega (arith, few, a_below, b_below, same)), (λ same. omega (arith, same))),
        )
