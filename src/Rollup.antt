-- ===== src/Rollup.antt =====
-- src/rollup.rs: per-endpoint outcomes of a window, drained into statistics. The map is a list of
-- windows by endpoint, of which the source leaves the order open until it sorts.
pub mod Windows
pub mod Drain
pub mod Totals
mod Tests
use drm3_rpc_pool.Prelude.{
  ℕ, zero, suc, ◌+◌, ◌-◌, ◌*◌, ◌/◌, ◌%◌, ◌^◌, String, Bool, List, [], ◌∷◌, ◌++◌, Option, none, some,
  ◌==◌, leb, str_eq, if◌then◌else◌, length, get_elem?, min,
}
use drm3_rpc_pool.Prelude.Sorting.{sort_by}
use drm3_rpc_pool.Health.{millis}
use drm3_rpc_pool.Metrics.{
  Event, on_request, on_success, on_failure, on_skipped_incapable, on_skipped_cooldown,
}

-- The two counters stay below 2^64: each call adds one, and `drain` starts them again.
pub record Window : Type 0 where
  pub successes : ℕ
  pub failures : ℕ
  pub latencies_ms : List ℕ

pub record EndpointRollup : Type 0 where
  pub endpoint : String
  pub requests : ℕ
  pub successes : ℕ
  pub failures : ℕ
  pub p50_ms : ℕ
  pub p95_ms : ℕ

abbrev pub Windows : Type 0
Windows = List (String × Window)

abbrev pub empty_window : Window
empty_window = record { successes = 0; failures = 0; latencies_ms = [] }

-- `map.entry(tag).or_default()`, with the update of what it yields.
pub entry_or_default : Windows → String → (Window → Window) → Windows
entry_or_default [] tag update = (tag, update empty_window) ∷ []
entry_or_default ((t, w) ∷ rest) tag update =
    let later = entry_or_default rest tag update in
    if str_eq t tag then (t, update w) ∷ rest else (t, w) ∷ later

pub count_success : ℕ → Window → Window
count_success latency w = record w {
  successes = w.successes + 1;
  latencies_ms = w.latencies_ms ++ latency / millis % 2 ^ 64 ∷ [];
}

pub count_failure : ℕ → Window → Window
count_failure latency w = record w {
  failures = w.failures + 1;
  latencies_ms = w.latencies_ms ++ latency / millis % 2 ^ 64 ∷ [];
}

-- The methods of the sink.
unfoldable pub receive : Windows → Event → Windows
unfolding entry_or_default count_success count_failure
receive windows (on_success tag method latency) =
    entry_or_default windows tag (count_success latency)
receive windows (on_failure tag method latency error) =
    entry_or_default windows tag (count_failure latency)
receive windows (on_request tag method) = windows
receive windows (on_skipped_incapable tag method) = windows
receive windows (on_skipped_cooldown tag method) = windows

-- The quantile of so many hundredths: the sample at the rank rounded to the nearest, halves up.
unfoldable pub percentile : ℕ → List ℕ → ℕ
percentile hundredths sorted =
    let last = length sorted - 1 in
    let rank = (hundredths * last * 2 + 100) / 200 in
    elim (get_elem? sorted (min rank last)) [ none ↦ 0 | some latency ↦ latency ]

pub rollup_of : String → Window → Option EndpointRollup
unfolding percentile
rollup_of tag w =
    let sorted = sort_by leb w.latencies_ms in
    if w.successes + w.failures == 0
    then none
    else some (record {
      endpoint = tag;
      requests = w.successes + w.failures;
      successes = w.successes;
      failures = w.failures;
      p50_ms = percentile 50 sorted;
      p95_ms = percentile 95 sorted;
    })

filter_map_rollups : Windows → List EndpointRollup
filter_map_rollups [] = []
filter_map_rollups ((tag, w) ∷ rest) =
    let later = filter_map_rollups rest in
    elim (rollup_of tag w) [ none ↦ later | some r ↦ r ∷ later ]

module _ (le : String → String → Bool) where
  -- The rollups in the order of their endpoints, and the map that is left. `le` is the order of
  -- texts by their bytes.
  unfoldable pub drain : Windows → Windows × List EndpointRollup
  unfolding filter_map_rollups rollup_of
  drain windows = ([], sort_by (λ a b. le a.endpoint b.endpoint) (filter_map_rollups windows))
