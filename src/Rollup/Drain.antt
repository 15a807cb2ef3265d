-- ===== src/Rollup/Drain.antt =====
-- What `RollupMetrics::drain` of src/rollup.rs returns.
use text.Mathlib.TextPositions.{eq_refl}
use drm3_rpc_pool.Prelude.{
  ◌≡◌, refl, sym, inl, inr, subst, String, Bool, true, false, List, [], ◌∷◌, some, str_eq, All,
  Bool-cases, Option-cases, arith,
}
use drm3_rpc_pool.Prelude.Sorting.{All-sort_by, IsSorted, sort_by-IsSorted}
use drm3_rpc_pool.Metrics.{
  Event, on_request, on_success, on_failure, on_skipped_incapable, on_skipped_cooldown,
}
use drm3_rpc_pool.Rollup.{
  Window, Windows, EndpointRollup, entry_or_default, receive, rollup_of, filter_map_rollups, drain,
}
use drm3_rpc_pool.Rollup.Windows.{received, window_of, Summarises, rollup_of-Summarises}

abbrev pub Differs : String → Windows → Type 0
Differs s windows = All (λ p. str_eq s p.0 ≡ false) windows

-- Each tag has one window.
abbrev pub IsMap : Windows → Type 0
IsMap [] = Unit
IsMap ((t, w) ∷ rest) = Differs t rest × IsMap rest

entry_or_default-Differs :
    (windows : Windows) (s t : String) (update : Window → Window)
    → str_eq s t ≡ false
    → Differs s windows
    → Differs s (entry_or_default windows t update)
unfolding entry_or_default
entry_or_default-Differs [] s t update other all = (other, tt)
entry_or_default-Differs ((u, w) ∷ rest) s t update other all = elim (Bool-cases (str_eq u t)) [
  | inl h ↦ rw h all
  | inr h ↦ rw h (all.0, entry_or_default-Differs rest s t update other all.1)
]

entry_or_default-IsMap :
    (windows : Windows) (t : String) (update : Window → Window)
    → IsMap windows
    → IsMap (entry_or_default windows t update)
unfolding entry_or_default
entry_or_default-IsMap [] t update m = (tt, tt)
entry_or_default-IsMap ((u, w) ∷ rest) t update m = elim (Bool-cases (str_eq u t)) [
  | inl h ↦ rw h m
  | inr h ↦
      rw h
        (entry_or_default-Differs rest u t update h m.0, entry_or_default-IsMap rest t update m.1)
]

pub received-IsMap : (events : List Event) → IsMap (received events)
unfolding received receive
received-IsMap [] = tt
received-IsMap (on_success t method latency ∷ older) =
    entry_or_default-IsMap (received older) t _ (received-IsMap older)
received-IsMap (on_failure t method latency error ∷ older) =
    entry_or_default-IsMap (received older) t _ (received-IsMap older)
received-IsMap (on_request t method ∷ older) = received-IsMap older
received-IsMap (on_skipped_incapable t method ∷ older) = received-IsMap older
received-IsMap (on_skipped_cooldown t method ∷ older) = received-IsMap older

-- Each window is the one that its tag finds.
abbrev Finds : Windows → Windows → Type 0
Finds windows part = All (λ p. window_of windows p.0 ≡ p.1) part

Finds-cons :
    (t : String) (w : Window) (rest part : Windows)
    → Differs t part
    → Finds rest part
    → Finds ((t, w) ∷ rest) part
Finds-cons t w rest [] other all = tt
Finds-cons t w rest ((u, v) ∷ part) other all =
    (rw other.0 all.0, Finds-cons t w rest part other.1 all.1)

IsMap-Finds : (windows : Windows) → IsMap windows → Finds windows windows
IsMap-Finds [] m = tt
IsMap-Finds ((t, w) ∷ rest) m =
    (rw (eq_refl t) refl, Finds-cons t w rest rest m.0 (IsMap-Finds rest m.1))

pub rollup_of-endpoint :
    (tag : String) (w : Window) {r : EndpointRollup} → rollup_of tag w ≡ some r → r.endpoint ≡ tag
unfolding rollup_of
rollup_of-endpoint tag w e = ground (arith, e)

abbrev AllSummarise : List Event → List EndpointRollup → Type 0
AllSummarise events = All (λ r. Summarises r.endpoint events r)

filter_map_rollups-AllSummarise :
    (events : List Event) (part : Windows)
    → Finds (received events) part
    → AllSummarise events (filter_map_rollups part)
unfolding filter_map_rollups
filter_map_rollups-AllSummarise events [] finds = tt
filter_map_rollups-AllSummarise events ((t, w) ∷ part) finds =
    let later = filter_map_rollups-AllSummarise events part finds.1 in
    elim (Option-cases (rollup_of t w)) [
      | inl quiet ↦ rw (quiet, filter_map_rollups) later
      | inr (r, is) ↦
          rw (is, filter_map_rollups)
            (
              subst (λ tag. Summarises tag events r) (sym (rollup_of-endpoint t w is))
                  (rollup_of-Summarises t events (rw finds.0 is)),
              later,
            )
    ]

module _ (le : String → String → Bool) (total : (a b : String) → le a b ≡ false → le b a ≡ true)
    (trans : (a b c : String) → le a b ≡ true → le b c ≡ true → le a c ≡ true) where
  -- Under a total order of texts, draining after any calls of the sink empties the windows, and
  -- returns rollups in the order of their endpoints, each of which has the counts of its endpoint's
  -- outcomes and two recorded latencies as percentiles, the median at most the 95th.
  pub drain-Summarises :
      (events : List Event)
      → ((drain le (received events)).0 ≡ [])
        × IsSorted (λ a b. le a.endpoint b.endpoint) (drain le (received events)).1
        × All (λ r. Summarises r.endpoint events r) (drain le (received events)).1
  unfolding drain
  drain-Summarises events = (
    refl,
    sort_by-IsSorted _ (λ a b. total a.endpoint b.endpoint)
        (λ a b c. trans a.endpoint b.endpoint c.endpoint) _,
    All-sort_by _ _ _ (
        filter_map_rollups-AllSummarise events (received events)
          (IsMap-Finds (received events) (received-IsMap events))),
  )
