-- ===== src/Wasm.antt =====
-- bindings/wasm/src: the pool for JavaScript.
pub mod Fetch
pub mod Class
