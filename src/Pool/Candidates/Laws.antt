-- ===== src/Pool/Candidates/Laws.antt =====
-- Which candidates `ordered_candidates` of src/pool/mod.rs returns.
use mathlib.Core.HLevel.{⊥_prop, ×_prop}
use mathlib.Core.Logic.Or
use native.Mathlib.Nat.{sub-zero}
use mathlib.Core.List.{
  Mem, Nodup, Nodup-nil, Nodup-cons, not-mem-nil, mem-cons_self, mem-cons_of_mem,
  eq-or-mem_of_mem-cons,
}
use mathlib.Core.List.Perm
use drm3_rpc_pool.Prelude.{
  ℕ, zero, suc, ◌+◌, ◌-◌, ◌≤◌, ◌≡◌, refl, ap, sym, ◌∙◌, ◌&&◌, not, if◌then◌else◌, some-eq-some,
  String, Bool, true, List, [], ◌∷◌, some, arith, get_elem?, length, All, All-imp, Bool-cases, inl,
  inr,
}
use drm3_rpc_pool.Prelude.Sorting.{
  IsSorted, sort_by-IsSorted, sort_by-perm, All-sort_by, length-sort_by,
}
use drm3_rpc_pool.Config.{RpcCapability, supports, tag}
use drm3_rpc_pool.Health.{is_available_at}
use drm3_rpc_pool.Metrics.{Event, on_skipped_incapable, on_skipped_cooldown}
use drm3_rpc_pool.Pool.State.{PoolEntry, Sys}
use drm3_rpc_pool.Pool.Candidates.{Scan, scan, key_of, key_le, ordered_candidates}
use drm3_rpc_pool.Pool.Candidates.Order.{key_le-total, key_le_trans}

-- The entry at an index is there, serves the capability and is not in cooldown.
abbrev pub Eligible : List PoolEntry → RpcCapability → ℕ → ℕ → Type 0
Eligible entries capability now i =
    (entry : PoolEntry) × (get_elem? entries i ≡ some entry)
    × (supports entry.endpoint capability ≡ true)
    × (is_available_at entry.health now ≡ true)

Bool-set : IsSet Bool
Bool-set = hlevel

-- What a list of eligible indices says of the entry at one of them.
pub Eligible-mem :
    (entries : List PoolEntry) (capability : RpcCapability) (now i : ℕ) (entry : PoolEntry)
    → get_elem? entries i ≡ some entry
    → (is : List ℕ) → All (Eligible entries capability now) is
    → Mem i is
    → (supports entry.endpoint capability ≡ true) × (is_available_at entry.health now ≡ true)
Eligible-mem entries capability now i entry at [] all m = absurd (not-mem-nil m)
Eligible-mem entries capability now i entry at (j ∷ is) all m =
    Or.elim (×_prop (Bool-set _ _) (Bool-set _ _)) (eq-or-mem_of_mem-cons m)
      (λ same.
        let (e, at', served, available) = all.0 in
        let equal : entry ≡ e = some-eq-some (sym at ∙ rw (← same) at at') in
        (rw equal served, rw equal available))
      (Eligible-mem entries capability now i entry at is all.1)

module _ (capability : RpcCapability) (now : ℕ) (method : String) where
  pub scan-counts :
      (k : ℕ) (entries : List PoolEntry)
      → length (scan k entries capability now method).candidates
          + (scan k entries capability now method).incapable
          + (scan k entries capability now method).in_cooldown
        ≡ length entries
  unfolding scan
  scan-counts k [] = omega arith
  scan-counts k (entry ∷ entries) = ground (arith, scan-counts (suc k) entries)

  shift :
      (k : ℕ) (entry : PoolEntry) (entries : List PoolEntry) (is : List ℕ)
      → All (λ i. (suc k ≤ i) × Eligible entries capability now (i - suc k)) is
      → All (λ i. (k ≤ i) × Eligible (entry ∷ entries) capability now (i - k)) is
  shift k entry entries [] all = tt
  shift k entry entries (i ∷ is) ((h, e), all) =
      let at : i - k ≡ suc (i - suc k) = omega arith in
      ((omega arith, rw at e), shift k entry entries is all)

  scan-Eligible :
      (k : ℕ) (entries : List PoolEntry)
      → All
          (λ i. (k ≤ i) × Eligible entries capability now (i - k))
          (scan k entries capability now method).candidates
  unfolding scan
  scan-Eligible k [] = tt
  scan-Eligible k (entry ∷ entries) =
      let later = shift k entry entries _ (scan-Eligible (suc k) entries) in
      elim (Bool-cases (supports entry.endpoint capability)) [
        | inr no_support ↦ rw no_support later
        | inl served ↦ elim (Bool-cases (is_available_at entry.health now)) [
          | inr cooling ↦ rw (served, cooling) later
          | inl available ↦
              let here : k - k ≡ 0 = omega arith in
              rw (served, available)
                ((omega arith, rw here (entry, refl, served, available)), later)
        ]
      ]

  scan-keeps :
      (k i : ℕ) (entry : PoolEntry) (entries : List PoolEntry)
      → Mem i (scan (suc k) entries capability now method).candidates
      → Mem i (scan k (entry ∷ entries) capability now method).candidates
  unfolding scan
  scan-keeps k i entry entries m = elim (Bool-cases (supports entry.endpoint capability)) [
    | inr no_support ↦ rw no_support m
    | inl served ↦ elim (Bool-cases (is_available_at entry.health now)) [
      | inr cooling ↦ rw (served, cooling) m
      | inl available ↦ rw (served, available) (mem-cons_of_mem k m)
    ]
  ]

  scan-takes :
      (k : ℕ) (entry : PoolEntry) (entries : List PoolEntry)
      → supports entry.endpoint capability ≡ true
      → is_available_at entry.health now ≡ true
      → Mem k (scan k (entry ∷ entries) capability now method).candidates
  unfolding scan
  scan-takes k entry entries served available = rw (served, available) mem-cons_self

  scan-complete :
      (k : ℕ) (entries : List PoolEntry) (j i : ℕ)
      → k + j ≡ i
      → Eligible entries capability now j
      → Mem i (scan k entries capability now method).candidates
  scan-complete k [] j i at (e, here, s, a) = cc
  scan-complete k (entry ∷ entries) zero i at (e, here, s, a) =
      let i_is : i ≡ k = omega arith in
      let same : entry ≡ e = ground arith in
      rw i_is (scan-takes k entry entries (rw same s) (rw same a))
  scan-complete k (entry ∷ entries) (suc j) i at e =
      scan-keeps k i entry entries (scan-complete (suc k) entries j i (omega arith) e)

  not-mem_of_below : (k : ℕ) (is : List ℕ) → All (λ i. suc k ≤ i) is → ¬ Mem k is
  not-mem_of_below k [] all = not-mem-nil
  not-mem_of_below k (i ∷ is) all =
      λ m. Or.elim ⊥_prop (eq-or-mem_of_mem-cons m) (λ e. omega arith) (not-mem_of_below k is all.1)

  scan-Nodup :
      (k : ℕ) (entries : List PoolEntry) → Nodup (scan k entries capability now method).candidates
  unfolding scan
  scan-Nodup k [] = Nodup-nil
  scan-Nodup k (entry ∷ entries) =
      let later = scan-Nodup (suc k) entries in
      elim (Bool-cases (supports entry.endpoint capability)) [
        | inr no_support ↦ rw no_support later
        | inl served ↦ elim (Bool-cases (is_available_at entry.health now)) [
          | inr cooling ↦ rw (served, cooling) later
          | inl available ↦
              rw (served, available)
                (Nodup-cons.1 (
                  not-mem_of_below k _ (All-imp (λ i h. h.0) _ (scan-Eligible (suc k) entries)),
                  later,
                ))
        ]
      ]

-- How many entries do not serve a capability, how many serve it and are in cooldown, and what the
-- metrics sink is told of them, in the order of the entries.
abbrev pub incapable_of : RpcCapability → List PoolEntry → ℕ
incapable_of capability [] = 0
incapable_of capability (e ∷ es) =
    let rest = incapable_of capability es in
    if supports e.endpoint capability then rest else suc rest

abbrev pub cooling_of : RpcCapability → ℕ → List PoolEntry → ℕ
cooling_of capability now [] = 0
cooling_of capability now (e ∷ es) =
    let rest = cooling_of capability now es in
    if supports e.endpoint capability && not (is_available_at e.health now) then suc rest else rest

abbrev pub skips_of : RpcCapability → ℕ → String → List PoolEntry → List Event
skips_of capability now method [] = []
skips_of capability now method (e ∷ es) =
    let rest = skips_of capability now method es in
    if supports e.endpoint capability && is_available_at e.health now
    then rest
    else if supports e.endpoint capability
    then on_skipped_cooldown (tag e.endpoint) method ∷ rest
    else on_skipped_incapable (tag e.endpoint) method ∷ rest

abbrev ScanSkips : RpcCapability → ℕ → String → List PoolEntry → Scan → Type 0
ScanSkips capability now method entries found =
    (found.incapable ≡ incapable_of capability entries)
    × (found.in_cooldown ≡ cooling_of capability now entries)
    × (found.skips ≡ skips_of capability now method entries)

scan-ScanSkips :
    (capability : RpcCapability) (now : ℕ) (method : String) (k : ℕ) (entries : List PoolEntry)
    → ScanSkips capability now method entries (scan k entries capability now method)
unfolding scan
scan-ScanSkips capability now method k [] = (refl, refl, refl)
scan-ScanSkips capability now method k (entry ∷ entries) =
    let (incapable_is, cooling_is, skips_are) =
      scan-ScanSkips capability now method (suc k) entries in
    elim (Bool-cases (supports entry.endpoint capability)) [
      | inr incapable ↦ rw incapable (
        ground (arith, incapable_is),
        cooling_is,
        ap (◌∷◌ (on_skipped_incapable (tag entry.endpoint) method)) skips_are,
      )
      | inl served ↦ elim (Bool-cases (is_available_at entry.health now)) [
        | inr cooling ↦
            rw (served, cooling)
              (
                incapable_is,
                ground (arith, cooling_is),
                ap (◌∷◌ (on_skipped_cooldown (tag entry.endpoint) method)) skips_are,
              )
        | inl available ↦ rw (served, available) (incapable_is, cooling_is, skips_are)
      ]
    ]

pub record IsRouting (entries : List PoolEntry) (capability : RpcCapability) (method : String)
    (now : ℕ) (found : Scan) : Type 0 where
  pub eligible : All (Eligible entries capability now) found.candidates
  pub complete : (i : ℕ) → Eligible entries capability now i → Mem i found.candidates
  pub distinct : Nodup found.candidates
  pub sorted : IsSorted (λ i j. key_le (key_of entries i) (key_of entries j)) found.candidates
  pub counted : length found.candidates + found.incapable + found.in_cooldown ≡ length entries
  pub incapable_is : found.incapable ≡ incapable_of capability entries
  pub cooling_is : found.in_cooldown ≡ cooling_of capability now entries
  pub skips_are : found.skips ≡ skips_of capability now method entries

-- The candidates are exactly the indices of the entries that serve the capability and are not in
-- cooldown, each once, in ascending order of their keys (saturated, priority, load, index); the
-- two skip counts are the numbers of the entries that do not serve it and of those that serve it and
-- are in cooldown, and the sink is told of each of them, in the order of the entries.
pub ordered_candidates-IsRouting :
    (sys : Sys) (capability : RpcCapability) (now : ℕ) (method : String)
    → IsRouting sys.pool.entries capability method now
        (ordered_candidates sys capability now method).1
unfolding ordered_candidates
ordered_candidates-IsRouting sys capability now method =
    let entries = sys.pool.entries in
    let found = scan 0 entries capability now method in
    let skipped = scan-ScanSkips capability now method 0 entries in
    let order : ℕ → ℕ → Bool = λ i j. key_le (key_of entries i) (key_of entries j) in
    let perm = sort_by-perm order found.candidates in
    record {
      eligible = All-sort_by order (Eligible entries capability now) found.candidates (
          All-imp (λ i h. rw sub-zero at h.1) found.candidates
            (scan-Eligible capability now method 0 entries));
      complete = λ i e.
          (Perm.mem_iff perm).1 (scan-complete capability now method 0 entries i i (omega arith) e);
      distinct = Perm.nodup (Perm.symm perm) (scan-Nodup capability now method 0 entries);
      sorted =
          sort_by-IsSorted order (λ i j. key_le-total (key_of entries i) (key_of entries j))
            (λ i j k. key_le_trans (key_of entries i) (key_of entries j) (key_of entries k))
            found.candidates;
      counted = omega (
        arith,
        length-sort_by order found.candidates,
        scan-counts capability now method 0 entries,
      );
      incapable_is = skipped.0;
      cooling_is = skipped.1;
      skips_are = skipped.2;
    }
