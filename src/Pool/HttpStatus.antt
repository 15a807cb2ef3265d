-- ===== src/Pool/HttpStatus.antt =====
-- `http_status_of` of src/pool/mod.rs: the status code in a transport's error message. The standard
-- library's functions that it calls are written out: `strip_prefix`, the first word of
-- `split_whitespace`, and the parser of 16-bit numbers.
use Prim.Native.Char.{code}
use drm3_rpc_pool.Prelude.{
  ℕ, ◌+◌, ◌-◌, ◌*◌, String, Bool, ◌&&◌, List, [], ◌∷◌, Option, none, some, ◌==◌, leb, if◌then◌else◌,
}
use drm3_rpc_pool.Config.Validate.{is_whitespace}

unfoldable pub strip_prefix : List ℕ → String → Option String
strip_prefix [] s = some s
strip_prefix (d ∷ ds) String.[] = none
strip_prefix (d ∷ ds) (String.◌∷◌ c s) =
    let rest = strip_prefix ds s in if code c == d then rest else none

unfoldable pub skip_whitespace : String → String
skip_whitespace String.[] = ""
skip_whitespace (String.◌∷◌ c s) =
    let rest = skip_whitespace s in if is_whitespace (code c) then rest else String.◌∷◌ c s

-- A word: up to the next white space.
unfoldable pub word : String → List ℕ
word String.[] = []
word (String.◌∷◌ c s) = let rest = word s in if is_whitespace (code c) then [] else code c ∷ rest

unfoldable pub is_digit : ℕ → Bool
is_digit c = leb b'0' c && leb c b'9'

-- The digits after those that make up the value, up to a limit.
unfoldable pub parse_digits : ℕ → ℕ → List ℕ → Option ℕ
unfolding is_digit
parse_digits limit value [] = some value
parse_digits limit value (c ∷ cs) =
    let next = value * 10 + (c - b'0') in
    let rest = parse_digits limit next cs in if is_digit c && leb next limit then rest else none

-- `str::parse` to an unsigned type of the given largest number: a plus sign may stand before the
-- digits.
unfoldable pub parse_unsigned : ℕ → List ℕ → Option ℕ
unfolding parse_digits
parse_unsigned limit [] = none
parse_unsigned limit (c ∷ []) = parse_digits limit 0 (c ∷ [])
parse_unsigned limit (c ∷ d ∷ cs) =
    if c == b'+' then parse_digits limit 0 (d ∷ cs) else parse_digits limit 0 (c ∷ d ∷ cs)

unfoldable pub parse_u16 : List ℕ → Option ℕ
unfolding parse_unsigned
parse_u16 = parse_unsigned 65535

unfoldable pub unwrap_or_zero : Option ℕ → ℕ
unwrap_or_zero none = 0
unwrap_or_zero (some n) = n

unfoldable pub http_status_of : String → ℕ
unfolding strip_prefix skip_whitespace word parse_u16 unwrap_or_zero
http_status_of message = elim (strip_prefix (b'h' ∷ b't' ∷ b't' ∷ b'p' ∷ b' ' ∷ []) message) [
  | none ↦ 0
  | some rest ↦ unwrap_or_zero (parse_u16 (word (skip_whitespace rest)))
]
