-- ===== src/Rollup/Tests.antt =====
-- The samples of the test in src/rollup.rs, and the theorem at them.
use Prim.Native.String.{count}
use drm3_rpc_pool.Prelude.{Bool, String, leb, All, arith, ◌≡◌, refl, ◌*◌, List, [], ◌∷◌, some}
use drm3_rpc_pool.Prelude.Sorting.{sort_by, IsSorted}
use drm3_rpc_pool.Health.{millis}
use drm3_rpc_pool.Metrics.{Event, on_request, on_success, on_failure}
use drm3_rpc_pool.Rollup.{EndpointRollup, rollup_of, receive, drain}
use drm3_rpc_pool.Rollup.Windows.{received, window_of, Summarises}
use drm3_rpc_pool.Rollup.Totals.{Totals, drain-Accounts}

abbrev calls : List Event
calls =
    on_success "b" "eth_blockNumber" (100 * millis)
    ∷ on_failure "a" "eth_blockNumber" (5 * millis) "boom"
    ∷ on_success "a" "eth_blockNumber" (40 * millis)
    ∷ on_success "a" "eth_blockNumber" (30 * millis)
    ∷ on_success "a" "eth_blockNumber" (20 * millis)
    ∷ on_request "a" "eth_blockNumber"
    ∷ on_success "a" "eth_blockNumber" (10 * millis)
    ∷ []

abbrev of_a : EndpointRollup
of_a = record {
  endpoint = "a";
  requests = 5;
  successes = 4;
  failures = 1;
  p50_ms = 20;
  p95_ms = 40;
}

rollup_of_a : rollup_of "a" (window_of (received calls) "a") ≡ some of_a
unfolding rollup_of received receive sort_by
rollup_of_a = refl

-- An order of texts that is total: by their numbers of characters.
abbrev shorter : String → String → Bool
shorter a b = leb (count a) (count b)

drain-Accounts_example :
    ((drain shorter (received calls)).0 ≡ [])
    × IsSorted (λ a b. shorter a.endpoint b.endpoint) (drain shorter (received calls)).1
    × All (λ r. Summarises r.endpoint calls r) (drain shorter (received calls)).1
    × Totals "a" (drain shorter (received calls)).1 4 1
drain-Accounts_example =
    drain-Accounts shorter (λ a b h. ground arith) (λ a b c h k. ground arith) calls "a"
