-- ===== src/Throughput.antt =====
-- examples/throughput.rs, the load test: its command line, its generator, the pools it
-- builds, its bursts and its report.
pub mod Generator
pub mod Pools
pub mod Bursts
pub mod Reports
mod Tests
use drm3_rpc_pool.Prelude.{
  ℕ, suc, ◌-◌, ◌^◌, String, Bool, true, false, List, [], ◌∷◌, Option, none, some, str_eq, leb,
  if◌then◌else◌,
}
use drm3_rpc_pool.Presets.{codes}
use drm3_rpc_pool.Pool.HttpStatus.{parse_unsigned}

pub record Args : Type 0 where
  pub mode : String
  pub route : String
  pub cap : Option ℕ
  pub pass : String
  pub runs : ℕ
  pub warmup : Bool
  pub seed : ℕ
  pub chain : String
  pub requests : ℕ
  pub concurrency : ℕ
  pub max_pool : Option ℕ
  pub pool_size : Option ℕ
  pub endpoint : Option String

abbrev pub default_args : Args
default_args = record {
  mode = "sweep";
  route = "spread";
  cap = none;
  pass = "pinned";
  runs = 1;
  warmup = false;
  seed = 1;
  chain = "base";
  requests = 500;
  concurrency = 120;
  max_pool = none;
  pool_size = none;
  endpoint = none;
}

-- The arms of the match on a flag: those that take the next argument, those that do not.
pub data Flag : Type 0 where
  valued : (Option String → Args → Args) → Flag
  switch : (Args → Args) → Flag
  help : Flag
  unknown : Flag

-- `it.next().and_then(|v| v.parse().ok())`, for a type with the given largest number.
unfoldable pub parsed : ℕ → Option String → Option ℕ
parsed limit none = none
parsed limit (some v) = parse_unsigned limit (codes v)

unfoldable pub or_keep {ℓ} : {A : Type ℓ} → Option A → A → A
or_keep none old = old
or_keep (some new) old = new

at_least_one_run : ℕ → ℕ
at_least_one_run n = if leb n 1 then 1 else n

abbrev u32_max : ℕ
u32_max = 2 ^ 32 - 1

abbrev u64_max : ℕ
u64_max = 2 ^ 64 - 1

-- A size has 64 bits.
unfoldable pub flag_of : String → Flag
unfolding parsed or_keep at_least_one_run
flag_of s =
    if str_eq s "--mode"
    then valued (λ v args. record args { mode = or_keep v args.mode })
    else if str_eq s "--route"
    then valued (λ v args. record args { route = or_keep v args.route })
    else if str_eq s "--cap"
    then valued (λ v args. record args { cap = parsed u32_max v })
    else if str_eq s "--pass"
    then valued (λ v args. record args { pass = or_keep v args.pass })
    else if str_eq s "--runs"
    then valued
        (λ v args. record args { runs = at_least_one_run (or_keep (parsed u64_max v) args.runs) })
    else if str_eq s "--warmup"
    then switch (λ args. record args { warmup = true })
    else if str_eq s "--seed"
    then valued (λ v args. record args { seed = or_keep (parsed u64_max v) args.seed })
    else if str_eq s "--chain"
    then valued (λ v args. record args { chain = or_keep v args.chain })
    else if str_eq s "--requests"
    then valued (λ v args. record args { requests = or_keep (parsed u64_max v) args.requests })
    else if str_eq s "--concurrency"
    then valued
        (λ v args. record args { concurrency = or_keep (parsed u64_max v) args.concurrency })
    else if str_eq s "--max-pool"
    then valued (λ v args. record args { max_pool = parsed u64_max v })
    else if str_eq s "--pool-size"
    then valued (λ v args. record args { pool_size = parsed u64_max v })
    else if str_eq s "--endpoint"
    then valued (λ v args. record args { endpoint = v })
    else if str_eq s "-h"
    then help
    else if str_eq s "--help"
    then help
    else unknown

-- The arguments, or the exit: with the help, or with an unknown flag.
pub data Parsed : Type 0 where
  with_args : Args → Parsed
  exits_with_help : Parsed
  exits_with_unknown : String → Parsed

-- The loop over the arguments.
pub parse_loop : Args → List String → Parsed
unfolding flag_of
parse_loop args [] = with_args args
parse_loop args (flag ∷ []) = elim (flag_of flag) [
  | valued set ↦ with_args (set none args)
  | switch set ↦ with_args (set args)
  | help ↦ exits_with_help
  | unknown ↦ exits_with_unknown flag
]
parse_loop args (flag ∷ value ∷ rest) = elim (flag_of flag) [
  | valued set ↦ parse_loop (set (some value) args) rest
  | switch set ↦ parse_loop (set args) (value ∷ rest)
  | help ↦ exits_with_help
  | unknown ↦ exits_with_unknown flag
]

unfoldable pub parse_args : List String → Parsed
unfolding parse_loop
parse_args = parse_loop default_args
