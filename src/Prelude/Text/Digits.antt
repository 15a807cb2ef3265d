-- ===== src/Prelude/Text/Digits.antt =====
-- Reading the decimal digits of a number back.
use Prim.Native.Nat.{ℕ, zero, suc, ◌+◌, ◌*◌, ◌/◌, ◌%◌, ◌≤◌, ◌<◌}
use Prim.Native.Char.{Char, char, code}
use Prim.Native.String.{String, ◌++◌ as str_append}
use text.Mathlib.TextLemmas.{cons-append, nil-append, append_assoc}
use mathlib.Core.Path.{◌≡◌, refl, ap, ◌∙◌}
use mathlib.Core.Logic.{inl, inr}
use native.Mathlib.Omega.{arith}
use drm3_rpc_pool.Prelude.Tests.{◌==◌, Bool-cases}
use drm3_rpc_pool.Prelude.Text.{digit, digits_from, decimal}

digit-char :
    (d : ℕ) → d < 10 → (c : Char) × (digit d ≡ String.◌∷◌ c String.[]) × (code c ≡ b'0' + d)
unfolding digit
digit-char zero h = (char b'0' tt, refl, refl)
digit-char (suc zero) h = (char b'1' tt, refl, refl)
digit-char (suc (suc zero)) h = (char b'2' tt, refl, refl)
digit-char (suc (suc (suc zero))) h = (char b'3' tt, refl, refl)
digit-char (suc (suc (suc (suc zero)))) h = (char b'4' tt, refl, refl)
digit-char (suc (suc (suc (suc (suc zero))))) h = (char b'5' tt, refl, refl)
digit-char (suc (suc (suc (suc (suc (suc zero)))))) h = (char b'6' tt, refl, refl)
digit-char (suc (suc (suc (suc (suc (suc (suc zero))))))) h = (char b'7' tt, refl, refl)
digit-char (suc (suc (suc (suc (suc (suc (suc (suc zero)))))))) h = (char b'8' tt, refl, refl)
digit-char (suc (suc (suc (suc (suc (suc (suc (suc (suc zero))))))))) h = (char b'9' tt, refl, refl)
digit-char (suc (suc (suc (suc (suc (suc (suc (suc (suc (suc n)))))))))) h =
    absurd (omega (arith, h))

digits_from-append :
    (fuel n : ℕ) (text rest : String)
    → str_append (digits_from fuel n text) rest ≡ digits_from fuel n (str_append text rest)
unfolding digits_from
digits_from-append zero n text rest = refl
digits_from-append (suc fuel) n text rest = elim (Bool-cases (n / 10 == 0)) [
  | inl last ↦ rw last (append_assoc (digit (n % 10)) text rest)
  | inr more ↦ rw more (
      digits_from-append fuel (n / 10) (str_append (digit (n % 10)) text) rest
      ∙ ap (digits_from fuel (n / 10)) (append_assoc (digit (n % 10)) text rest))
]

-- A text that starts with a digit.
abbrev StartsWithDigit : String → Type 0
StartsWithDigit s =
    (c : Char) × (t : String) × (s ≡ String.◌∷◌ c t) × (b'0' ≤ code c) × (code c ≤ b'9')

digit-StartsWithDigit :
    (d : ℕ) (rest : String) → d < 10 → StartsWithDigit (str_append (digit d) rest)
digit-StartsWithDigit d rest h =
    let (c, is, number) = digit-char d h in
    (
      c,
      rest,
      ap (λ s. str_append s rest) is ∙ cons-append c "" rest ∙ ap (String.◌∷◌ c) (nil-append rest),
      omega (arith, number),
      omega (arith, number, h),
    )

digits_from-StartsWithDigit :
    (fuel n : ℕ) (text : String) → StartsWithDigit text → StartsWithDigit (digits_from fuel n text)
unfolding digits_from
digits_from-StartsWithDigit zero n text h = h
digits_from-StartsWithDigit (suc fuel) n text h = elim (Bool-cases (n / 10 == 0)) [
  | inl last ↦ rw last (digit-StartsWithDigit (n % 10) text (omega arith))
  | inr more ↦ rw more (
      digits_from-StartsWithDigit fuel (n / 10) _
        (digit-StartsWithDigit (n % 10) text (omega arith)))
]

digits_from_first-StartsWithDigit :
    (fuel n : ℕ) (text : String) → StartsWithDigit (digits_from (suc fuel) n text)
unfolding digits_from
digits_from_first-StartsWithDigit fuel n text = elim (Bool-cases (n / 10 == 0)) [
  | inl last ↦ rw last (digit-StartsWithDigit (n % 10) text (omega arith))
  | inr more ↦ rw more (
      digits_from-StartsWithDigit fuel (n / 10) _
        (digit-StartsWithDigit (n % 10) text (omega arith)))
]

pub decimal-StartsWithDigit :
    (n : ℕ) (rest : String)
    → (c : Char) × (t : String) × (str_append (decimal n) rest ≡ String.◌∷◌ c t)
      × (b'0' ≤ code c)
      × (code c ≤ b'9')
unfolding decimal
decimal-StartsWithDigit n rest =
    let (c, t, is, low, high) = digits_from_first-StartsWithDigit n n (str_append "" rest) in
    (c, t, digits_from-append (suc n) n "" rest ∙ is, low, high)

module _ {ℓ} {R : Type ℓ} (read : ℕ → String → R) (limit : ℕ)
    (reads : (value d : ℕ) (c : Char) (rest : String)
      → d < 10
      → code c ≡ b'0' + d
      → value * 10 + d ≤ limit
      → read value (String.◌∷◌ c rest) ≡ read (value * 10 + d) rest) where
  read-digit :
      (value d : ℕ) (rest : String)
      → d < 10
      → value * 10 + d ≤ limit
      → read value (str_append (digit d) rest) ≡ read (value * 10 + d) rest
  read-digit value d rest h fits =
      let (c, is, number) = digit-char d h in
      ap (λ s. read value (str_append s rest)) is
      ∙ ap (read value) (cons-append c "" rest ∙ ap (String.◌∷◌ c) (nil-append rest))
      ∙ reads value d c rest h number fits

  read-digits_from :
      (fuel n : ℕ) (rest : String)
      → n < fuel
      → n ≤ limit
      → read 0 (digits_from fuel n rest) ≡ read n rest
  unfolding digits_from
  read-digits_from zero n rest h fits = absurd (omega (arith, h))
  read-digits_from (suc fuel) n rest h fits = elim (Bool-cases (n / 10 == 0)) [
    | inl last ↦ rw last (
        read-digit 0 (n % 10) rest (omega arith) (omega (arith, fits))
        ∙ ap (λ v. read v rest) (ground (arith, last)))
    | inr more ↦ rw more (
        read-digits_from fuel (n / 10) _ (ground (arith, more)) (omega (arith, fits))
        ∙ read-digit (n / 10) (n % 10) rest (omega arith) (omega (arith, fits))
        ∙ ap (λ v. read v rest) (omega arith))
  ]

  -- A reader that takes a digit at a time reads a printed number, up to its limit.
  pub read-decimal :
      (n : ℕ) (rest : String) → n ≤ limit → read 0 (str_append (decimal n) rest) ≡ read n rest
  unfolding decimal
  read-decimal n rest fits =
      ap (read 0) (digits_from-append (suc n) n "" rest)
      ∙ ap (λ s. read 0 (digits_from (suc n) n s)) (nil-append rest)
      ∙ read-digits_from (suc n) n rest (omega arith) fits
