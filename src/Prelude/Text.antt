-- ===== src/Prelude/Text.antt =====
-- Texts: whole texts are native strings, walked by their characters where the source walks them.
pub mod Digits
use Prim.Native.Nat.{ℕ, zero, suc, ◌/◌, ◌%◌}
use Prim.Native.String.{String, ◌++◌ as str_append}
use mathlib.Core.List.{List, [], ◌∷◌}
use drm3_rpc_pool.Prelude.Tests.{◌==◌, if◌then◌else◌}

-- `format!`: the pieces of a text in order.
abbrev pub concat : List String → String
concat [] = ""
concat (s ∷ []) = s
concat (s ∷ t ∷ rest) = str_append s (concat (t ∷ rest))

digit : ℕ → String
digit zero = "0"
digit (suc zero) = "1"
digit (suc (suc zero)) = "2"
digit (suc (suc (suc zero))) = "3"
digit (suc (suc (suc (suc zero)))) = "4"
digit (suc (suc (suc (suc (suc zero))))) = "5"
digit (suc (suc (suc (suc (suc (suc zero)))))) = "6"
digit (suc (suc (suc (suc (suc (suc (suc zero))))))) = "7"
digit (suc (suc (suc (suc (suc (suc (suc (suc zero)))))))) = "8"
digit _ = "9"

digits_from : ℕ → ℕ → String → String
digits_from zero n text = text
digits_from (suc fuel) n text =
    let more = digits_from fuel (n / 10) (str_append (digit (n % 10)) text) in
    if n / 10 == 0 then str_append (digit (n % 10)) text else more

-- `Display` of an unsigned number: its decimal digits, one for each division by ten.
unfoldable pub decimal : ℕ → String
unfolding digit digits_from
decimal n = digits_from (suc n) n ""
