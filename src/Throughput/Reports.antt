-- ===== src/Throughput/Reports.antt =====
-- `cooldown`, `measure_runs`, `emit` and the loop over the sizes of examples/throughput.rs. A burst, with the pool
-- it is fired at, and the sleep are actions on a world of any type.
use drm3_rpc_pool.Prelude.{
  ℕ, zero, suc, ◌+◌, ◌-◌, ◌*◌, ◌/◌, ◌%◌, ◌^◌, String, Bool, List, [], ◌∷◌, Option, none, some, leb,
  ltb, ◌==◌, if◌then◌else◌, get_elem?, length, map, str_eq,
}
use drm3_rpc_pool.Prelude.Sorting.{sort_by}
use drm3_rpc_pool.Health.{Ratio}
use drm3_rpc_pool.Throughput.{Args, parsed, or_keep}
use drm3_rpc_pool.Throughput.Bursts.{Summary}
use drm3_rpc_pool.Throughput.Pools.{Plan, measures_url, measures_sizes, exits}

median_u64 : List ℕ → ℕ
median_u64 xs =
    let sorted = sort_by leb xs in
    elim (get_elem? sorted (length sorted / 2)) [ none ↦ 0 | some x ↦ x ]

abbrev pub nothing : Ratio
nothing = record { over = 0; under = 1 }

-- `partial_cmp` on quotients, whose divisors are positive.
abbrev pub ratio_le : Ratio → Ratio → Bool
ratio_le a b = leb (a.over * b.under) (b.over * a.under)

at_rank : List Ratio → ℕ → Ratio
at_rank sorted i = elim (get_elem? sorted i) [ none ↦ nothing | some r ↦ r ]

median_f64 : List Ratio → Ratio
unfolding at_rank
median_f64 xs =
    let sorted = sort_by ratio_le xs in
    let n = length sorted in
    let low = at_rank sorted (n / 2 - 1) in
    let high = at_rank sorted (n / 2) in
    if n == 0 then nothing else if n % 2 == 1 then high else record {
      over = low.over * high.under + high.over * low.under;
      under = low.under * high.under * 2;
    }

-- The nearest number of tenths or of thousandths.
round1 : Ratio → ℕ
round1 v = (v.over * 20 + v.under) / (v.under * 2)

round3 : Ratio → ℕ
round3 v = (v.over * 2000 + v.under) / (v.under * 2)

-- The folds by `min` and `max`, with nothing for the infinity that they start from.
lowest : List Ratio → Option Ratio
lowest [] = none
lowest (x ∷ xs) = some (elim (lowest xs) [ none ↦ x | some y ↦ if ratio_le x y then x else y ])

highest : List Ratio → Option Ratio
highest [] = none
highest (x ∷ xs) = some (elim (highest xs) [ none ↦ x | some y ↦ if ratio_le y x then x else y ])

-- The report of some runs: rates in thousandths and tenths, seconds in tenths.
pub record RunsReport : Type 0 where
  pub runs : ℕ
  pub success_rate : ℕ
  pub success_rate_lo : Option ℕ
  pub success_rate_hi : Option ℕ
  pub throughput_rps : ℕ
  pub throughput_rps_lo : Option ℕ
  pub throughput_rps_hi : Option ℕ
  pub elapsed_s : ℕ
  pub p50_ms : ℕ
  pub p95_ms : ℕ

option_map : (Ratio → ℕ) → Option Ratio → Option ℕ
option_map f none = none
option_map f (some r) = some (f r)

report_of : Args → List Summary → RunsReport
unfolding option_map median_u64 median_f64 round1 round3 lowest highest
report_of args summaries =
    let rates = map (λ s. s.success_rate) summaries in
    let throughputs = map (λ s. s.throughput_rps) summaries in
    let seconds : List Ratio =
      map (λ s. record { over = s.elapsed; under = 1_000_000_000 }) summaries in
    record {
      runs = args.runs;
      success_rate = round3 (median_f64 rates);
      success_rate_lo = option_map round3 (lowest rates);
      success_rate_hi = option_map round3 (highest rates);
      throughput_rps = round1 (median_f64 throughputs);
      throughput_rps_lo = option_map round1 (lowest throughputs);
      throughput_rps_hi = option_map round1 (highest throughputs);
      elapsed_s = round1 (median_f64 seconds);
      p50_ms = median_u64 (map (λ s. s.p50_ms) summaries);
      p95_ms = median_u64 (map (λ s. s.p95_ms) summaries);
    }

-- What `emit` prints of a pool's size.
pub record Line : Type 0 where
  pub route : String
  pub pass : String
  pub chain : String
  pub pool_size : ℕ
  pub requests : ℕ
  pub concurrency : ℕ
  pub report : RunsReport

emit_line : Args → ℕ → RunsReport → Line
emit_line args size report = record {
  route = args.route;
  pass = args.pass;
  chain = args.chain;
  pool_size = size;
  requests = args.requests;
  concurrency = args.concurrency;
  report = report;
}

-- `setting` is the variable SWEEP_COOLDOWN_S, and `sleep` is given seconds.
cooldown : {World : Type 0} → (ℕ → World → World) → Option String → World → World
unfolding parsed or_keep
cooldown sleep setting world =
    let secs = or_keep (parsed (2 ^ 64 - 1) setting) 8 in
    if ltb 0 secs then sleep secs world else world

module _ {World : Type 0} (sleep : ℕ → World → World) (setting : Option String) (args : Args) where
  module _ (fire : ℕ → World → World × Summary) where
    run_loop : ℕ → ℕ → World → World × List Summary
    unfolding cooldown
    run_loop run zero world = (world, [])
    run_loop run (suc left) world =
        let (fired, s) = fire run (if ltb 1 run then cooldown sleep setting world else world) in
        let (last, rest) = run_loop (suc run) left fired in (last, s ∷ rest)

    measure_runs : World → World × RunsReport
    unfolding cooldown run_loop report_of
    measure_runs world =
        let warm = if args.warmup then cooldown sleep setting (fire 0 world).0 else world in
        let (last, summaries) = run_loop 1 args.runs warm in (last, report_of args summaries)

  -- `fire` is given the size of the pool, and then the number of the run.
  module _ (fire : ℕ → ℕ → World → World × Summary) where
    size_loop : List ℕ → World → World × List Line
    unfolding cooldown measure_runs
    size_loop [] world = (world, [])
    size_loop (size ∷ sizes) world =
        let (measured, report) =
          measure_runs (fire size) (if ltb 1 size then cooldown sleep setting world else world) in
        let (last, lines) = size_loop sizes measured in (last, emit_line args size report ∷ lines)

    -- The arms of `main`: nothing is measured where it exits.
    unfoldable pub measure : Plan → World → World × List Line
    unfolding measure_runs size_loop emit_line
    measure (measures_url url) world =
        let (last, report) = measure_runs (fire 1) world in (last, emit_line args 1 report ∷ [])
    measure (measures_sizes es []) world = (world, [])
    measure (measures_sizes es (size ∷ sizes)) world =
        let (last, report) = measure_runs (fire size) world in
        if str_eq args.mode "sweep"
        then size_loop (size ∷ sizes) world
        else (last, emit_line args size report ∷ [])
    measure (exits message) world = (world, [])
