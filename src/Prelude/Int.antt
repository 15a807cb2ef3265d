-- ===== src/Prelude/Int.antt =====
-- Signed numbers, where the source only carries and prints them.
use Prim.Native.Nat.{ℕ, ◌+◌}
use Prim.Native.String.{String, ◌++◌ as str_append}
use drm3_rpc_pool.Prelude.Text.{decimal}

-- `negsuc n` is -(n + 1).
pub data ℤ : Type 0 where
  pos : ℕ → ℤ
  negsuc : ℕ → ℤ

-- `Display` of a signed number.
pub signed_decimal : ℤ → String
signed_decimal (pos n) = decimal n
signed_decimal (negsuc n) = str_append "-" (decimal (n + 1))
