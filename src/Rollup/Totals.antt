-- ===== src/Rollup/Totals.antt =====
-- The counts of all the rollups that `RollupMetrics::drain` of src/rollup.rs returns for one endpoint.
use text.Mathlib.TextEquality.{eq_iff}
use text.Mathlib.TextPositions.{eq_refl}
use drm3_rpc_pool.Prelude.{
  ℕ, ◌+◌, ◌≡◌, refl, sym, ap, subst, ◌∙◌, inl, inr, String, Bool, true, false, List, [], ◌∷◌, none,
  some, All, str_eq, if◌then◌else◌, arith, Bool-cases, Option-cases,
}
use drm3_rpc_pool.Prelude.Sorting.{IsSorted}
use drm3_rpc_pool.Metrics.{Event}
use drm3_rpc_pool.Prelude.Sums.{total, total-sort_by}
use drm3_rpc_pool.Rollup.{
  Window, Windows, EndpointRollup, empty_window, rollup_of, filter_map_rollups, drain,
}
use drm3_rpc_pool.Rollup.Windows.{
  received, window_of, successes_of, failures_of, received-Counts, Summarises,
}
use drm3_rpc_pool.Rollup.Drain.{
  Differs, IsMap, received-IsMap, rollup_of-endpoint, drain-Summarises,
}

-- A count of one endpoint's rollups.
abbrev pub for_endpoint : (EndpointRollup → ℕ) → String → EndpointRollup → ℕ
for_endpoint f tag r = if str_eq r.endpoint tag then f r else 0

-- A count of a rollup that is the count of its window.
abbrev pub IsCount : (EndpointRollup → ℕ) → (Window → ℕ) → Type 0
IsCount f g = (tag : String) (w : Window) → elim (rollup_of tag w) [ none ↦ 0 | some r ↦ f r ] ≡ g w

requests-IsCount : IsCount (λ r. r.requests) (λ w. w.successes + w.failures)
unfolding rollup_of
requests-IsCount tag w = ground arith

successes-IsCount : IsCount (λ r. r.successes) (λ w. w.successes)
unfolding rollup_of
successes-IsCount tag w = ground arith

failures-IsCount : IsCount (λ r. r.failures) (λ w. w.failures)
unfolding rollup_of
failures-IsCount tag w = ground arith

str_eq-swap : (s t : String) → str_eq s t ≡ false → str_eq t s ≡ false
str_eq-swap s t other = elim (Bool-cases (str_eq t s)) [
  | inr h ↦ h
  | inl h ↦ absurd (ground (arith, other, eq_refl t, (eq_iff t s).0 h))
]

module _ (f : EndpointRollup → ℕ) (g : Window → ℕ) (counts : IsCount f g) (tag : String) where
  abbrev sum_of : Windows → ℕ
  unfolding filter_map_rollups
  sum_of windows = total (for_endpoint f tag) (filter_map_rollups windows)

  sum_of-cons :
      (t : String) (w : Window) (rest : Windows)
      → sum_of ((t, w) ∷ rest) ≡ (if str_eq t tag then g w else 0) + sum_of rest
  unfolding filter_map_rollups sum_of
  sum_of-cons t w rest =
      let is_count = counts t w in
      elim (Option-cases (rollup_of t w)) [
        | inl quiet ↦
            let nothing = rw quiet at is_count in
            rw (quiet, filter_map_rollups) (ground (arith, nothing))
        | inr (r, is) ↦
            let count = rw is at is_count in
            let here = ap (λ u. if str_eq u tag then f r else 0) (rollup_of-endpoint t w is) in
            rw (is, filter_map_rollups) (ground (arith, count, here))
      ]

  sum_of-Differs : (windows : Windows) → Differs tag windows → sum_of windows ≡ 0
  unfolding filter_map_rollups sum_of
  sum_of-Differs [] other = refl
  sum_of-Differs ((t, w) ∷ rest) other =
      ground (arith, sum_of-cons t w rest, str_eq-swap tag t other.0, sum_of-Differs rest other.1)

  sum_of-window_of :
      (windows : Windows)
      → IsMap windows
      → g empty_window ≡ 0
      → sum_of windows ≡ g (window_of windows tag)
  unfolding filter_map_rollups sum_of
  sum_of-window_of [] m idle = sym idle
  sum_of-window_of ((t, w) ∷ rest) m idle = elim (Bool-cases (str_eq t tag)) [
    | inl same ↦
        let later = sum_of-Differs rest (subst (λ u. Differs u rest) ((eq_iff t tag).0 same) m.0) in
        let one = sum_of-cons t w rest in
        let one' = rw same at one in rw same (omega (arith, one', later))
    | inr other ↦
        let later = sum_of-window_of rest m.1 idle in
        let one = sum_of-cons t w rest in
        let one' = rw other at one in rw other (omega (arith, one', later))
  ]

-- The rollups of an endpoint have so many successes and failures together.
pub record Totals (tag : String) (rollups : List EndpointRollup) (successes failures : ℕ)
    : Type 0 where
  pub requests : total (for_endpoint (λ r. r.requests) tag) rollups ≡ successes + failures
  pub succeeded : total (for_endpoint (λ r. r.successes) tag) rollups ≡ successes
  pub failed : total (for_endpoint (λ r. r.failures) tag) rollups ≡ failures

-- The rollups that are drained after any calls of the sink have, for each endpoint, the counts of
-- its outcomes.
pub drain-Totals :
    (le : String → String → Bool) (events : List Event) (tag : String)
    → Totals tag (drain le (received events)).1 (successes_of tag events) (failures_of tag events)
unfolding drain sum_of
drain-Totals le events tag =
    let windows = received events in
    let is_map = received-IsMap events in
    let counted = received-Counts tag events in
    let drained =
      λ (f : EndpointRollup → ℕ) (g : Window → ℕ) (counts : IsCount f g)
          (idle : g empty_window ≡ 0).
        total-sort_by (for_endpoint f tag) (λ a b. le a.endpoint b.endpoint)
          (filter_map_rollups windows)
        ∙ sum_of-window_of f g counts tag windows is_map idle in
    record {
      requests = drained _ _ requests-IsCount refl ∙ ground (arith, counted);
      succeeded = drained _ _ successes-IsCount refl ∙ counted.successes;
      failed = drained _ _ failures-IsCount refl ∙ counted.failures;
    }

module _ (le : String → String → Bool)
    (total_order : (a b : String) → le a b ≡ false → le b a ≡ true)
    (trans : (a b c : String) → le a b ≡ true → le b c ≡ true → le a c ≡ true) where
  -- Under a total order of texts, draining after any calls of the sink empties the windows and
  -- returns rollups in the order of their endpoints, each of which has the counts of its endpoint's
  -- outcomes and two recorded latencies as percentiles, the median at most the 95th; and together
  -- the rollups of any endpoint count its outcomes, so that none is left out or counted twice.
  pub drain-Accounts :
      (events : List Event) (tag : String)
      → ((drain le (received events)).0 ≡ [])
        × IsSorted (λ a b. le a.endpoint b.endpoint) (drain le (received events)).1
        × All (λ r. Summarises r.endpoint events r) (drain le (received events)).1
        × Totals tag
            (drain le (received events)).1
            (successes_of tag events)
            (failures_of tag events)
  drain-Accounts events tag =
      let (empty, sorted, all) = drain-Summarises le total_order trans events in
      (empty, sorted, all, drain-Totals le events tag)
