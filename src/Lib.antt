-- ===== src/Lib.antt =====
-- A model of drm3-rpc-pool, a client-side pool of JSON-RPC endpoints: the crate in src/, its daemon,
-- its bindings in bindings/wasm and the load test in examples.
--
-- A call (`RpcPool::call`, src/pool/mod.rs) routes a method to the endpoints that support it and are
-- not in cooldown, in the order of their keys, throttles each by its token bucket, counts the
-- request in flight, posts the body, reads the reply, records the outcome on the endpoint's health
-- and on the metrics sink, and fails over to the next until one answers or the budget ends.
-- `RpcPool::forward` is the same loop with a reader that relays error envelopes. The daemon loads a
-- configuration, makes a pool of it and serves it; the bindings make one of a JavaScript object and
-- post by `fetch`.
--
-- Files and the code they model:
--   Prelude, Prelude/*: shared names, tests, lists, texts, results, signed numbers, stable sorting,
--     sums.
--     Text/Digits is on reading printed numbers back.
--   Error: src/error.rs.
--   Config, Config/Types, Config/Env, Config/Validate, Config/Toml: src/config.rs; the types and their
--     accessors, `expand_env` with the `resolve_env` methods, `validate` with `from_toml_str`, and the
--     file access. Env/Templates and Env/Parsing are on what `expand_env` makes of a text,
--     Validate/Distinct and Validate/Reordered on what is valid, Toml/RoundTrip on files without
--     placeholders, Toml/Loading on what is loaded of any file.
--   Health: src/health.rs, with Health/Backoff on `delay_for` and Health/History on what the fields
--     and the availability of an endpoint are after any sequence of reports.
--   Presets: src/presets.rs, with Presets/Validity on what a lookup finds.
--   Proxy: src/proxy.rs, with Proxy/Envelope on what a request or a batch is answered by and
--     Proxy/Liveness and Proxy/Readiness on the health endpoint.
--   Rollup: src/rollup.rs, with Rollup/Windows on what a window counts, Rollup/Drain and
--     Rollup/Totals on what is drained.
--   Wire: src/pool/wire.rs.
--   Metrics: the hooks of src/metrics.rs as the calls a sink receives; Metrics/Sinks has the trait as
--     an interface with its implementations, Sinks/Recorded what the recording one keeps.
--   Transport: the bundled transport of src/transport.rs, with Transport/Statuses on what the pool
--     reads in its errors and Transport/Calls on a call over it.
--   Pool/RateLimit: src/pool/rate_limit.rs, and RateLimit/Laws on what a bucket grants.
--   Pool/State: the state of src/pool/mod.rs, the in-flight guard and `RpcPool::new`; State/Frame is
--     on what an update leaves alone, State/Fresh on what `new` makes. Pool/Status: the views of it.
--     Pool/Defaults: the constructors that choose a transport. Pool/HttpStatus: `http_status_of`.
--   Pool/Candidates: `ordered_candidates`, with its order and its laws below it.
--   Pool/Dispatch: `call` and `forward`. Steps, Steps/Replies, Steps/Healths and Steps/Sinks have the
--     facts of one round, Runs the relation of the runs of the loop, Courses the course of a call told by
--     the pool at its beginning; Safety and Answers are on what a run preserves and answers, Accounts
--     on what an error accounts for; Methods, Promises and Limits are on the two methods as a whole.
--     Timeout: `call_with_timeout`, with Timeout/Deadlines on what a deadline leaves behind.
--   Pool/Tasks: many calls of one method at once, as a step relation over whole rounds between two awaits, with
--     Loads on the in-flight counters, Healths on the endpoints' health as the replay of a ledger of
--     reports and Lifetime on a pool from its making on; Tags is on the tags of the
--     requests, and Rollups on the drained counts of a rollup that is the pool's sink.
--   Pool/Threads: the same calls on any number of threads, as a step relation over the single operations
--     on what they share (one atomic update, one lock, one reading of the clock or one hook), which
--     Operations has one by one. Loads is on the in-flight counters, Ids on the request
--     ids. Pool/Counters: load counters that agree with the calls, for both.
--   Wasm/Fetch, Wasm/Class: bindings/wasm/src/fetch_transport.rs and lib.rs; Fetch/Statuses is on what
--     the pool reads in its errors, Class/Peers on the pool of a chain's bundled peers.
--   Daemon: src/main.rs up to the moment the server listens, with Daemon/Starter on the file that `init`
--     prints and Daemon/Serving on when `serve` listens.
--   Throughput: examples/throughput.rs, its command line and plan; Throughput/Generator its shuffle,
--     Generator/Ending on its fuel, Generator/Shuffled on its result; Throughput/Pools the pools it
--     builds, Pools/Building on one of them, Pools/Planned on which of these it plans;
--     Throughput/Bursts the tasks of one burst, as a step relation over single operations,
--     Bursts/Counts on its counters, Bursts/Endings on its end; Throughput/Reports its runs and lines.
--
-- Instants and durations are numbers of nanoseconds. `Sys` numbers the readings of the clock, which
-- is any function from the reading's number to an instant, and collects the calls of the metrics
-- sink. The transport, serde_json with its values, the TOML reader and writer, the file system, the
-- process environment and the `{:?}` form of a text are parameters; so are reqwest's client behind the
-- bundled transport, and the JavaScript platform and conversions behind the bindings. The transport
-- may answer differently at each reading of the clock.
-- 64-bit counters wrap at 2^64, as in a release build, and the 32-bit failure count saturates.
-- A panic on an index out of range is an outcome of its own.
--
-- Fuel: `expand_loop` has one round more than the text has characters, of which each round takes at
-- least three; `digits_from` has one more than the number, which each division by ten makes smaller.
-- The draws by rejection of the load test's shuffle have fuel for 2^64: the generator's state steps
-- by an odd number, so that within 2^64 steps it is 0, whose draw is 0 and is accepted.
--
-- Not modelled: `call` and `forward` in one interleaving (Pool/Tasks and Pool/Threads have many calls of
-- either one), log calls, the rounding of floating-point numbers (tokens are counted in units of
-- 10^-9, the average latency is a ratio, a percentile has its exact rank), the reading of the
-- command line by clap, axum's router and server loop, the periodic flush, which only logs, the text
-- of the load test's lines, the marker traits of src/send_sync.rs, and
-- panics of the sort of the candidates, whose key other threads change while it sorts: Pool/Threads lets
-- it leave any order.
pub mod Prelude
pub mod Error
pub mod Config
pub mod Health
pub mod Wire
pub mod Transport
pub mod Wasm
pub mod Daemon
pub mod Throughput
pub mod Metrics
pub mod Presets
pub mod Pool
pub mod Proxy
pub mod Rollup
