-- ===== src/Pool/Candidates/Order.antt =====
-- The order of the candidates in src/pool/mod.rs: `key_le` is a total order on the keys.
use drm3_rpc_pool.Prelude.{◌≡◌, true, false, arith}
use drm3_rpc_pool.Pool.Candidates.{Key, key_le}

pub key_le-total : (a b : Key) → key_le a b ≡ false → key_le b a ≡ true
unfolding key_le
key_le-total a b h = ground arith

pub key_le_trans : (a b c : Key) → key_le a b ≡ true → key_le b c ≡ true → key_le a c ≡ true
unfolding key_le
key_le_trans a b c h k = ground arith
