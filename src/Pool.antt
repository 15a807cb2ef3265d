-- ===== src/Pool.antt =====
-- src/pool/mod.rs.
pub mod RateLimit
pub mod State
pub mod Status
pub mod HttpStatus
pub mod Defaults
pub mod Candidates
pub mod Dispatch
pub mod Counters
pub mod Tasks
pub mod Threads
mod Tests
