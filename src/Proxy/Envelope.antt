-- ===== src/Proxy/Envelope.antt =====
-- What the answers of src/proxy.rs carry, and that every request of a batch has one.
use mathlib.Core.List.{append-nil, append_assoc}
use drm3_rpc_pool.Prelude.{
  ℕ, ◌≡◌, ◌≢◌, ◌⊎◌, inl, inr, refl, sym, ap, ◌∙◌, subst, String, Bool, true, false, not, ◌&&◌, ◌||◌,
  List, [], ◌∷◌, ◌++◌, Option, none, some, Result, ok, err, str_eq, if◌then◌else◌, Option-cases,
}
use drm3_rpc_pool.Prelude.Int.{ℤ}
use drm3_rpc_pool.Error.{RpcError}
use drm3_rpc_pool.Wire.{Serde}
use drm3_rpc_pool.Pool.State.{Sys}
use drm3_rpc_pool.Pool.State.Frame.{loads}
use drm3_rpc_pool.Pool.Dispatch.{
  Outcome, returned, panicked, Transport, ForwardResult, answer, relayed, forward,
}
use drm3_rpc_pool.Pool.Dispatch.Safety.{SmallLoads}
use drm3_rpc_pool.Pool.Dispatch.Promises.{methods-Safe}
use drm3_rpc_pool.Proxy.{
  Json, rpc_error, map_pool_error, id_of, method_of, params_of, envelope, respond, handle_one,
  handle_batch, rpc_handler,
}

abbrev pub lookup {ℓ} : {A : Type ℓ} → List (String × A) → String → Option A
lookup [] key = none
lookup ((k, v) ∷ fields) key = if str_eq k key then some v else lookup fields key

abbrev has_key {ℓ} : {A : Type ℓ} → List (String × A) → String → Bool
has_key [] key = false
has_key ((k, v) ∷ fields) key = str_eq k key || has_key fields key

abbrev pub distinct_keys {ℓ} : {A : Type ℓ} → List (String × A) → Bool
distinct_keys [] = true
distinct_keys ((k, v) ∷ fields) = not (has_key fields k) && distinct_keys fields

module _ {Value : Type 0} (json : Json Value) where
  -- An object of distinct keys holds what it was built of.
  abbrev pub ReadsObjects : Type 0
  ReadsObjects =
      (fields : List (String × Value)) (key : String)
      → distinct_keys fields ≡ true
      → json.get (json.object fields) key ≡ lookup fields key

  -- An envelope for an id: the version, the id, and either a result or an error.
  pub record IsEnvelope (id v : Value) : Type 0 where
    pub same_id : json.get v "id" ≡ some id
    pub version : json.get v "jsonrpc" ≡ some (json.text "2.0")
    pub one_of_two :
        ((r : Value) × (json.get v "result" ≡ some r) × (json.get v "error" ≡ none))
        ⊎ ((e : Value) × (json.get v "error" ≡ some e) × (json.get v "result" ≡ none))

  rpc_error-IsEnvelope :
      (id : Value) (code : ℤ) (message : String) (details : Option Value)
      → ReadsObjects
      → IsEnvelope id (rpc_error json id code message details)
  unfolding rpc_error
  rpc_error-IsEnvelope id code message details reads = record {
    same_id = reads _ "id" refl;
    version = reads _ "jsonrpc" refl;
    one_of_two = inr (_, reads _ "error" refl, reads _ "result" refl);
  }

  envelope-IsEnvelope :
      (id : Value) (r : Result (ForwardResult Value) RpcError)
      → ReadsObjects
      → IsEnvelope id (envelope json id r)
  unfolding envelope map_pool_error
  envelope-IsEnvelope id (ok (answer v)) reads = record {
    same_id = reads _ "id" refl;
    version = reads _ "jsonrpc" refl;
    one_of_two = inl (_, reads _ "result" refl, reads _ "error" refl);
  }
  envelope-IsEnvelope id (ok (relayed code message details)) reads =
      rpc_error-IsEnvelope id code message details reads
  envelope-IsEnvelope id (err e) reads = rpc_error-IsEnvelope id _ _ none reads

  respond-IsEnvelope :
      (id : Value) (o : Outcome (ForwardResult Value))
      → o ≢ panicked
      → ReadsObjects
      → (v : Value) × (respond json id o ≡ some v) × IsEnvelope id v
  unfolding respond
  respond-IsEnvelope id panicked fine reads = absurd (fine refl)
  respond-IsEnvelope id (returned r) fine reads =
      (envelope json id r, refl, envelope-IsEnvelope id r reads)

  -- One envelope for each id, in order.
  abbrev pub AreEnvelopes : List Value → List Value → Type 0
  AreEnvelopes [] [] = Unit
  AreEnvelopes (req ∷ reqs) (v ∷ vs) = IsEnvelope (id_of json req) v × AreEnvelopes reqs vs
  AreEnvelopes _ _ = ⊥

  module _ (serde : Serde Value) (clock : ℕ → ℕ) (post : Transport) (reads : ReadsObjects) where
    -- Where the loads are below 2^64, every request is answered by an envelope with its id (null
    -- where it has none), and the loads are as before.
    pub handle_one-IsEnvelope :
        (req : Value) (sys : Sys)
        → SmallLoads (loads sys)
        → (v : Value) × ((handle_one json serde clock post req sys).1 ≡ some v)
          × IsEnvelope (id_of json req) v
          × (loads (handle_one json serde clock post req sys).0 ≡ loads sys)
    unfolding handle_one
    handle_one-IsEnvelope req sys small = elim (Option-cases (method_of json req)) [
      | inl missing ↦
          rw (missing, handle_one) (_, refl, rpc_error-IsEnvelope _ _ _ none reads, refl)
      | inr (m, has) ↦
          let safe = (methods-Safe serde clock post m (params_of json req) sys small).1 in
          let (v, is, e) =
            respond-IsEnvelope (id_of json req)
              (forward serde clock post m (params_of json req) sys).1 safe.no_panic reads in
          rw (has, handle_one) (v, is, e, safe.same_loads)
    ]

    handle_batch-AreEnvelopes :
        (out items : List Value) (sys : Sys)
        → SmallLoads (loads sys)
        → (vs : List Value) × ((handle_batch json serde clock post out items sys).1
            ≡ some (out ++ vs))
          × AreEnvelopes items vs
          × (loads (handle_batch json serde clock post out items sys).0 ≡ loads sys)
    unfolding handle_batch
    handle_batch-AreEnvelopes out [] sys small = ([], ap some (sym (append-nil out)), tt, refl)
    handle_batch-AreEnvelopes out (item ∷ items) sys small =
        let (v, is, e, same) = handle_one-IsEnvelope item sys small in
        let sys' = (handle_one json serde clock post item sys).0 in
        let (vs, all, es, later) =
          handle_batch-AreEnvelopes (out ++ v ∷ []) items sys'
            (subst SmallLoads (sym same) small) in
        rw (is, handle_batch)
          (v ∷ vs, all ∙ ap some (append_assoc out (v ∷ []) vs), (e, es), later ∙ same)

    -- Where the loads are below 2^64 and objects of distinct keys read back, a batch is answered,
    -- with status 200, by the array of one envelope for each of its requests, in order and with
    -- their ids; and any other payload by its one envelope.
    pub rpc_handler-AreEnvelopes :
        (payload : Value) (sys : Sys)
        → SmallLoads (loads sys)
        → ((items : List Value) × (vs : List Value) × (json.as_array payload ≡ some items)
            × ((rpc_handler json serde clock post payload sys).1 ≡ some (200, json.array vs))
            × AreEnvelopes items vs)
          ⊎ ((v : Value) × (json.as_array payload ≡ none)
              × ((rpc_handler json serde clock post payload sys).1 ≡ some (200, v))
              × IsEnvelope (id_of json payload) v)
    unfolding rpc_handler
    rpc_handler-AreEnvelopes payload sys small = elim (Option-cases (json.as_array payload)) [
      | inl single ↦
          let (v, is, e, same) = handle_one-IsEnvelope payload sys small in
          inr (v, single, rw (single, rpc_handler) (rw is refl), e)
      | inr (items, batch) ↦
          let (vs, all, es, same) = handle_batch-AreEnvelopes [] items sys small in
          inl (items, vs, batch, rw (batch, rpc_handler) (rw all refl), es)
    ]
