-- ===== src/Pool/Candidates.antt =====
-- `ordered_candidates` of src/pool/mod.rs: which endpoints a call may use, and in what order.
pub mod Order
pub mod Laws
use drm3_rpc_pool.Prelude.{
  ℕ, zero, suc, ◌+◌, String, Bool, true, false, ◌&&◌, ◌||◌, not, List, [], ◌∷◌, ◌++◌, Option, none,
  some, ltb, leb, ◌==◌, if◌then◌else◌, get_elem?,
}
use drm3_rpc_pool.Prelude.Sorting.{sort_by}
use drm3_rpc_pool.Config.{RpcCapability, supports, tag}
use drm3_rpc_pool.Health.{is_available_at}
use drm3_rpc_pool.Metrics.{Event, on_skipped_incapable, on_skipped_cooldown}
use drm3_rpc_pool.Pool.State.{PoolEntry, PoolInner, Sys}

-- The results of the loop over the entries; `skips` are the calls of the metrics sink.
pub record Scan : Type 0 where
  pub candidates : List ℕ
  pub incapable : ℕ
  pub in_cooldown : ℕ
  pub skips : List Event

unfoldable pub scan : ℕ → List PoolEntry → RpcCapability → ℕ → String → Scan
scan i [] capability now method = record {
  candidates = [];
  incapable = 0;
  in_cooldown = 0;
  skips = [];
}
scan i (entry ∷ entries) capability now method =
    let rest = scan (suc i) entries capability now method in
    if not (supports entry.endpoint capability)
    then record rest {
      incapable = rest.incapable + 1;
      skips = on_skipped_incapable (tag entry.endpoint) method ∷ rest.skips;
    }
    else if not (is_available_at entry.health now)
    then record rest {
      in_cooldown = rest.in_cooldown + 1;
      skips = on_skipped_cooldown (tag entry.endpoint) method ∷ rest.skips;
    }
    else record rest { candidates = i ∷ rest.candidates }

pub record Key : Type 0 where
  pub saturated : Bool
  pub priority : ℕ
  pub load : ℕ
  pub index : ℕ

-- `is_some_and`.
unfoldable pub at_cap : Option ℕ → ℕ → Bool
at_cap none load = false
at_cap (some limit) load = leb limit load

-- An index out of range would panic; the candidates are in range.
unfoldable pub key_of : List PoolEntry → ℕ → Key
unfolding at_cap
key_of entries i = elim (get_elem? entries i) [
  | none ↦ record { saturated = false; priority = 0; load = 0; index = i }
  | some entry ↦ record {
    saturated = at_cap entry.endpoint.max_in_flight entry.in_flight;
    priority = entry.endpoint.priority;
    load = entry.in_flight;
    index = i;
  }
]

-- The derived order on tuples: the first component that differs decides.
unfoldable pub key_le : Key → Key → Bool
key_le a b =
    if a.saturated && not b.saturated
    then false
    else if not a.saturated && b.saturated
    then true
    else if ltb a.priority b.priority
    then true
    else if ltb b.priority a.priority
    then false
    else if ltb a.load b.load
    then true
    else if ltb b.load a.load
    then false
    else leb a.index b.index

unfoldable pub ordered_candidates : Sys → RpcCapability → ℕ → String → Sys × Scan
unfolding scan key_of key_le
ordered_candidates sys capability now method =
    let entries = sys.pool.entries in
    let found = scan 0 entries capability now method in
    let order : ℕ → ℕ → Bool = λ i j. key_le (key_of entries i) (key_of entries j) in
    (
      record sys { events = sys.events ++ found.skips },
      record found { candidates = sort_by order found.candidates },
    )
