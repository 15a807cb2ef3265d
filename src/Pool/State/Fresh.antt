-- ===== src/Pool/State/Fresh.antt =====
-- The pool that `RpcPool::new` of src/pool/mod.rs makes.
use mathlib.Core.List.{Perm}
use drm3_rpc_pool.Prelude.{
  ℕ, ◌≡◌, inl, inr, refl, true, false, List, [], ◌∷◌, map, ok, All, arith, Result-cases,
}
use drm3_rpc_pool.Prelude.Sorting.{sort_by, sort_by-perm, sort_by-IsSorted, IsSorted}
use drm3_rpc_pool.Config.{RpcEndpoint, RpcPoolConfig, headers}
use drm3_rpc_pool.Config.Validate.{validate}
use drm3_rpc_pool.Health.{BackoffPolicy, new_health}
use drm3_rpc_pool.Pool.State.{PoolEntry, Sys, by_priority, new_entry, new_entries, new}

-- An entry that no request has touched.
pub record IsFresh (backoff : BackoffPolicy) (entry : PoolEntry) : Type 0 where
  pub healthy : entry.health ≡ new_health backoff
  pub idle : entry.in_flight ≡ 0
  pub resolved : entry.auth_headers ≡ headers entry.endpoint.auth

by_priority_total : (a b : RpcEndpoint) → by_priority a b ≡ false → by_priority b a ≡ true
unfolding by_priority
by_priority_total a b h = ground arith

by_priority_trans :
    (a b c : RpcEndpoint) → by_priority a b ≡ true → by_priority b c ≡ true → by_priority a c ≡ true
unfolding by_priority
by_priority_trans a b c h k = ground arith

abbrev endpoint_of : PoolEntry → RpcEndpoint
endpoint_of e = e.endpoint

module _ (clock : ℕ → ℕ) (backoff : BackoffPolicy) where
  new_entry-IsFresh :
      (endpoint : RpcEndpoint) (reads : ℕ)
      → IsFresh backoff (new_entry clock backoff endpoint reads).1
        × ((new_entry clock backoff endpoint reads).1.endpoint ≡ endpoint)
  unfolding new_entry
  new_entry-IsFresh endpoint reads = ground arith

  new_entries-IsFresh :
      (es : List RpcEndpoint) (reads : ℕ)
      → All (IsFresh backoff) (new_entries clock backoff es reads).1
        × (map endpoint_of (new_entries clock backoff es reads).1 ≡ es)
  unfolding new_entries
  new_entries-IsFresh [] reads = (tt, refl)
  new_entries-IsFresh (e ∷ es) reads =
      let (fresh, same) = new_entry-IsFresh e reads in
      let (all, rest) = new_entries-IsFresh es (new_entry clock backoff e reads).0 in
      ((fresh, all), rw (same, rest) refl)

  pub new-ok :
      (config : RpcPoolConfig) (reads : ℕ)
      → validate config ≡ ok tt
      → (sys : Sys) × (new clock config backoff reads ≡ ok sys)
  unfolding new
  new-ok config reads valid = rw (valid, new) (_, refl)

  -- A pool that `new` makes: the configuration was valid; the entries are its endpoints, each once, in
  -- ascending priority; and no entry has a request in flight or a report on its health.
  pub new-IsFresh :
      (config : RpcPoolConfig) (reads : ℕ) {sys : Sys}
      → new clock config backoff reads ≡ ok sys
      → (validate config ≡ ok tt)
        × Perm (map (λ e. e.endpoint) sys.pool.entries) config.endpoints
        × IsSorted by_priority (map (λ e. e.endpoint) sys.pool.entries)
        × All (IsFresh backoff) sys.pool.entries
        × (sys.pool.max_retries ≡ config.max_retries)
  unfolding new
  new-IsFresh config reads {sys} e = elim (Result-cases (validate config)) [
    | inl (u, valid) ↦
        let sorted = sort_by by_priority config.endpoints in
        let (fresh, same) = new_entries-IsFresh sorted reads in
        let made = rw (valid, new) at e in
        let entries : sys.pool.entries ≡ (new_entries clock backoff sorted reads).1 =
          ground (arith, made) in
        (
          valid,
          rw (entries, same) (sort_by-perm by_priority config.endpoints),
          rw (entries, same)
              (sort_by-IsSorted by_priority by_priority_total by_priority_trans config.endpoints),
          rw entries fresh,
          ground (arith, made),
        )
    | inr (x, invalid) ↦ absurd (ground (arith, e, invalid))
  ]
