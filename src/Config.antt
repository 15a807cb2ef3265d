-- ===== src/Config.antt =====
-- src/config.rs: the types, the expansion of environment variables, and the validation.
pub mod Types
pub mod Env
pub mod Validate
pub mod Toml
unfoldable pub use Types.*
