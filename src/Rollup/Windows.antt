-- ===== src/Rollup/Windows.antt =====
-- What the windows of src/rollup.rs count, and how its percentiles are ordered.
use mathlib.Core.List.Perm
use mathlib.Core.List.{Mem, mem-cons_self, mem-cons_of_mem}
use text.Mathlib.TextEquality.{eq_iff}
use text.Mathlib.TextPositions.{eq_refl}
use drm3_rpc_pool.Prelude.{
  ℕ, zero, suc, ◌+◌, ◌-◌, ◌*◌, ◌/◌, ◌≤◌, ◌<◌, ◌%◌, ◌^◌, ◌≡◌, inl, inr, refl, sym, ◌∙◌, String, true,
  List, [], ◌∷◌, some, some-eq-some, ◌==◌, leb, str_eq, if◌then◌else◌, length, length-append,
  get_elem?, get_elem?-lt, min, All, arith, Bool-cases,
}
use drm3_rpc_pool.Prelude.Sorting.{
  sort_by, IsSorted, sort_by-IsSorted, sort_by-perm, length-sort_by,
}
use drm3_rpc_pool.Health.{millis}
use drm3_rpc_pool.Metrics.{
  Event, on_request, on_success, on_failure, on_skipped_incapable, on_skipped_cooldown,
}
use drm3_rpc_pool.Rollup.{
  Window, EndpointRollup, Windows, empty_window, entry_or_default, count_success, count_failure,
  receive, percentile, rollup_of,
}

-- The calls of the sink, newest first.
unfoldable pub received : List Event → Windows
received [] = []
received (event ∷ older) = receive (received older) event

abbrev pub window_of : Windows → String → Window
window_of [] tag = empty_window
window_of ((t, w) ∷ rest) tag = if str_eq t tag then w else window_of rest tag

abbrev pub successes_of : String → List Event → ℕ
successes_of tag [] = 0
successes_of tag (on_success t method latency ∷ older) =
    if str_eq t tag then suc (successes_of tag older) else successes_of tag older
successes_of tag (_ ∷ older) = successes_of tag older

abbrev pub failures_of : String → List Event → ℕ
failures_of tag [] = 0
failures_of tag (on_failure t method latency error ∷ older) =
    if str_eq t tag then suc (failures_of tag older) else failures_of tag older
failures_of tag (_ ∷ older) = failures_of tag older

-- Two texts that are equal to a third are equal to each other.
str_eq-join : (s t u : String) → str_eq s u ≡ true → str_eq t u ≡ true → s ≡ t
str_eq-join s t u h k = (eq_iff s u).0 h ∙ sym ((eq_iff t u).0 k)

window_of-entry_or_default :
    (windows : Windows) (t tag : String) (update : Window → Window)
    → window_of (entry_or_default windows t update) tag
      ≡ (if str_eq t tag then update (window_of windows tag) else window_of windows tag)
unfolding entry_or_default
window_of-entry_or_default [] t tag update = ground arith
window_of-entry_or_default ((s, w) ∷ rest) t tag update =
    let later = window_of-entry_or_default rest t tag update in
    elim (Bool-cases (str_eq s t)) [
      | inl same ↦ rw (same, (eq_iff s t).0 same) (ground arith)
      | inr other ↦ rw other (ground (arith, later, str_eq-join s t tag, eq_refl s))
    ]

All-get :
    (x b : ℕ) (l : List ℕ) (j : ℕ) → All (λ y. leb x y ≡ true) l → get_elem? l j ≡ some b → x ≤ b
All-get x b [] j all e = ground arith
All-get x b (y ∷ l) zero all e = ground arith
All-get x b (y ∷ l) (suc j) all e = All-get x b l j all.1 e

sorted-le :
    (l : List ℕ) (i j a b : ℕ)
    → IsSorted leb l
    → i ≤ j
    → get_elem? l i ≡ some a
    → get_elem? l j ≡ some b
    → a ≤ b
sorted-le [] i j a b s h e f = ground arith
sorted-le (x ∷ l) zero zero a b s h e f = ground arith
sorted-le (x ∷ l) zero (suc j) a b s h e f = ground (arith, All-get x b l j s.0 f)
sorted-le (x ∷ l) (suc i) zero a b s h e f = ground arith
sorted-le (x ∷ l) (suc i) (suc j) a b s h e f = sorted-le l i j a b s.1 (omega arith) e f

-- The window of a tag counts the outcomes of that tag, and keeps one latency for each.
pub record Counts (tag : String) (events : List Event) (w : Window) : Type 0 where
  pub successes : w.successes ≡ successes_of tag events
  pub failures : w.failures ≡ failures_of tag events
  samples : length w.latencies_ms ≡ w.successes + w.failures

pub received-Counts :
    (tag : String) (events : List Event) → Counts tag events (window_of (received events) tag)
unfolding received receive count_success count_failure
received-Counts tag [] = ground arith
received-Counts tag (on_success t method latency ∷ older) =
    let w = window_of (received older) tag in
    rw (window_of-entry_or_default (received older) t tag (count_success latency)) (
      ground (
        arith,
        received-Counts tag older,
        length-append w.latencies_ms (latency / millis % 2 ^ 64 ∷ []),
      ))
received-Counts tag (on_failure t method latency error ∷ older) =
    let w = window_of (received older) tag in
    rw (window_of-entry_or_default (received older) t tag (count_failure latency)) (
      ground (
        arith,
        received-Counts tag older,
        length-append w.latencies_ms (latency / millis % 2 ^ 64 ∷ []),
      ))
received-Counts tag (on_request t method ∷ older) = ground (arith, received-Counts tag older)
received-Counts tag (on_skipped_incapable t method ∷ older) =
    ground (arith, received-Counts tag older)
received-Counts tag (on_skipped_cooldown t method ∷ older) =
    ground (arith, received-Counts tag older)

get_elem?-mem : {A : Type 0} (l : List A) (i : ℕ) (a : A) → get_elem? l i ≡ some a → Mem a l
get_elem?-mem [] i a e = ground arith
get_elem?-mem (x ∷ l) zero a e = rw (sym (some-eq-some e)) mem-cons_self
get_elem?-mem (x ∷ l) (suc i) a e = mem-cons_of_mem x (get_elem?-mem l i a e)

percentile-in_range :
    (q : ℕ) (l : List ℕ)
    → 0 < length l
    → get_elem? l (min ((q * (length l - 1) * 2 + 100) / 200) (length l - 1))
      ≡ some (percentile q l)
unfolding percentile
percentile-in_range q l pos =
    let (a, at) =
      get_elem?-lt l (min ((q * (length l - 1) * 2 + 100) / 200) (length l - 1)) (omega arith) in
    rw (at, percentile) refl

median-le : (l : List ℕ) → IsSorted leb l → percentile 50 l ≤ percentile 95 l
unfolding percentile
median-le [] s = omega arith
median-le (x ∷ l) s =
    sorted-le (x ∷ l) _ _ _ _ s (omega arith) (percentile-in_range 50 (x ∷ l) (omega arith))
      (percentile-in_range 95 (x ∷ l) (omega arith))

percentile-sample : (q : ℕ) (l : List ℕ) → 0 < length l → Mem (percentile q (sort_by leb l)) l
percentile-sample q l pos = (Perm.mem_iff (sort_by-perm leb l)).0 (
    get_elem?-mem (sort_by leb l) _ _
      (percentile-in_range q (sort_by leb l) (omega (arith, length-sort_by leb l))))

leb-IsSorted : (l : List ℕ) → IsSorted leb (sort_by leb l)
leb-IsSorted l = sort_by-IsSorted leb (λ x y h. ground arith) (λ x y z h k. ground arith) l

-- What a rollup says of the outcomes of its tag.
pub record Summarises (tag : String) (events : List Event) (r : EndpointRollup) : Type 0 where
  pub successes : r.successes ≡ successes_of tag events
  pub failures : r.failures ≡ failures_of tag events
  pub requests : r.requests ≡ r.successes + r.failures
  pub median : Mem r.p50_ms (window_of (received events) tag).latencies_ms
  pub tail : Mem r.p95_ms (window_of (received events) tag).latencies_ms
  pub ordered : r.p50_ms ≤ r.p95_ms

-- The rollup of a tag after any calls of the sink counts that tag's outcomes; both of its
-- percentiles are latencies of its window, and the median is at most the 95th.
pub rollup_of-Summarises :
    (tag : String) (events : List Event) {r : EndpointRollup}
    → rollup_of tag (window_of (received events) tag) ≡ some r
    → Summarises tag events r
unfolding rollup_of
rollup_of-Summarises tag events {r} e =
    let w = window_of (received events) tag in
    let counts = received-Counts tag events in
    elim (Bool-cases (w.successes + w.failures == 0)) [
      | inl quiet ↦ absurd (ground (arith, e, quiet))
      | inr busy ↦
          let made = rw busy at e in
          let busy' : 0 < length w.latencies_ms = ground (arith, counts, busy) in
          let p50 : r.p50_ms ≡ percentile 50 (sort_by leb w.latencies_ms) = ground (arith, made) in
          let p95 : r.p95_ms ≡ percentile 95 (sort_by leb w.latencies_ms) = ground (arith, made) in
          record {
            successes = ground (arith, made, counts);
            failures = ground (arith, made, counts);
            requests = ground (arith, made);
            median = rw p50 (percentile-sample 50 w.latencies_ms busy');
            tail = rw p95 (percentile-sample 95 w.latencies_ms busy');
            ordered =
                rw (p50, p95)
                  (median-le (sort_by leb w.latencies_ms) (leb-IsSorted w.latencies_ms));
          }
    ]
