-- ===== src/Transport/Statuses.antt =====
-- What the pool reads in the errors of src/transport.rs: `http_status_of` of src/pool/mod.rs finds the
-- status that the transport wrote.
use Prim.Native.Char.{Char, char, code}
use Prim.Native.String.{◌++◌ as str_append}
use text.Mathlib.TextLemmas.{cons-append, nil-append}
use drm3_rpc_pool.Prelude.{
  ℕ, ◌+◌, ◌-◌, ◌*◌, ◌≤◌, ◌<◌, ◌≡◌, ◌⊎◌, refl, sym, subst, ◌∙◌, inl, inr, String, true, false, List,
  [], ◌∷◌, Option, Result, ok, err, leb, ◌==◌, concat, decimal, Bool-cases, arith,
}
use drm3_rpc_pool.Prelude.Text.Digits.{read-decimal, decimal-StartsWithDigit}
use drm3_rpc_pool.Config.Validate.{is_whitespace}
use drm3_rpc_pool.Wire.{Bytes}
use drm3_rpc_pool.Pool.HttpStatus.{
  skip_whitespace, word, is_digit, parse_digits, parse_unsigned, parse_u16, unwrap_or_zero,
  http_status_of,
}
use drm3_rpc_pool.Transport.{
  Request, Response, Client, is_success, request_of, answer_of, outcome_of, post_json_with_headers,
}

digit-not_whitespace : (c : ℕ) → b'0' ≤ c → c ≤ b'9' → is_whitespace c ≡ false
unfolding is_whitespace
digit-not_whitespace c low high = ground arith

read_word : ℕ → String → Option ℕ
unfolding parse_digits word
read_word value s = parse_digits 65535 value (word s)

read_word-digit :
    (value d : ℕ) (c : Char) (rest : String)
    → d < 10
    → code c ≡ b'0' + d
    → value * 10 + d ≤ 65535
    → read_word value (String.◌∷◌ c rest) ≡ read_word (value * 10 + d) rest
unfolding read_word is_digit
read_word-digit value d c rest h number fits =
    let plain = digit-not_whitespace (code c) (omega (arith, number)) (omega (arith, number, h)) in
    let value_is : code c - b'0' ≡ d = omega (arith, number) in
    let is_low : leb b'0' (code c) ≡ true = ground (arith, number) in
    let is_high : leb (code c) b'9' ≡ true = ground (arith, number, h) in
    let small : leb (value * 10 + d) 65535 ≡ true = ground (arith, fits) in
    rw (plain, value_is, is_low, is_high, small) refl

no_plus : (c : ℕ) (cs : List ℕ) → b'0' ≤ c → parse_u16 (c ∷ cs) ≡ parse_digits 65535 0 (c ∷ cs)
unfolding parse_u16 parse_unsigned
no_plus c [] low = refl
no_plus c (d ∷ cs) low = let plain : (c == b'+') ≡ false = ground (arith, low) in rw plain refl

starts_plain :
    (s : String)
    → (c : Char) × (t : String) × (s ≡ String.◌∷◌ c t) × (b'0' ≤ code c) × (code c ≤ b'9')
    → (skip_whitespace s ≡ s) × (parse_u16 (word s) ≡ read_word 0 s)
unfolding read_word skip_whitespace
starts_plain s (c, t, is, low, high) =
    let plain = digit-not_whitespace (code c) low high in
    subst (λ s. (skip_whitespace s ≡ s) × (parse_u16 (word s) ≡ parse_digits 65535 0 (word s)))
      (sym is) (rw plain refl, rw plain (no_plus (code c) (word t) low))

-- Past `"http "`, a printed status reads back, when the text after it does not continue its word.
parse_status :
    (n : ℕ) (rest : String)
    → n ≤ 65535
    → word rest ≡ []
    → unwrap_or_zero (parse_u16 (word (skip_whitespace (str_append (decimal n) rest)))) ≡ n
unfolding read_word unwrap_or_zero parse_digits
parse_status n rest fits ends =
    let plain = starts_plain _ (decimal-StartsWithDigit n rest) in
    let reads = read-decimal read_word 65535 read_word-digit n rest fits in
    rw (plain.0, plain.1, reads, ends) refl

http_status_of-http :
    (s : String)
    → http_status_of (str_append "http " s) ≡ unwrap_or_zero (parse_u16 (word (skip_whitespace s)))
unfolding http_status_of
http_status_of-http s =
    rw
      (
        cons-append (char b'h' tt) "ttp " s,
        cons-append (char b't' tt) "tp " s,
        cons-append (char b't' tt) "p " s,
        cons-append (char b'p' tt) " " s,
        cons-append (char b' ' tt) "" s,
        nil-append s,
      )
      refl

http_status_of-send : (s : String) → http_status_of (str_append "send error: " s) ≡ 0
unfolding http_status_of
http_status_of-send s = rw (cons-append (char b's' tt) "end error: " s) refl

http_status_of-read : (s : String) → http_status_of (str_append "read error: " s) ≡ 0
unfolding http_status_of
http_status_of-read s = rw (cons-append (char b'r' tt) "ead error: " s) refl

word-space : (s : String) → word (str_append " " s) ≡ []
unfolding word is_whitespace
word-space s = rw (cons-append (char b' ' tt) "" s) refl

-- No response: the request was not sent, or its body did not arrive.
abbrev NoResponse : Result Response String → Type 0
NoResponse (err e) = Unit {0}
NoResponse (ok response) = (e : String) × (response.bytes ≡ err e)

-- What an outcome of the transport says of what the client got.
abbrev pub Reports : Result Response String → Result Bytes String → Type 0
Reports got (ok bytes) =
    (response : Response) × (got ≡ ok response)
    × (response.bytes ≡ ok bytes)
    × (200 ≤ response.status)
    × (response.status < 300)
Reports got (err message) =
    (NoResponse got × (http_status_of message ≡ 0))
    ⊎ ((response : Response) × (bytes : Bytes) × (got ≡ ok response)
        × (response.bytes ≡ ok bytes)
        × ((response.status < 200) ⊎ (300 ≤ response.status))
        × (http_status_of message ≡ response.status))

pub http_status_of-status :
    (status : ℕ) (rest : String)
    → status ≤ 65535
    → http_status_of (concat ("http " ∷ decimal status ∷ " " ∷ rest ∷ [])) ≡ status
http_status_of-status status rest fits =
    http_status_of-http _ ∙ parse_status status _ fits (word-space rest)

module _ (client : Client) where
  answer_of-Reports :
      (status : ℕ) (bytes : Result Bytes String)
      → status ≤ 65535
      → Reports
          (ok (record { status = status; bytes = bytes }))
          (answer_of client (record { status = status; bytes = bytes }))
  unfolding answer_of is_success
  answer_of-Reports status (err e) fits = inl ((e, refl), http_status_of-read e)
  answer_of-Reports status (ok bytes) fits = elim (Bool-cases (is_success status)) [
    | inl success ↦ rw success (_, refl, refl, ground (arith, success), ground (arith, success))
    | inr failure ↦ rw failure (
        inr (
          _,
          bytes,
          refl,
          refl,
          ground (arith, failure),
          http_status_of-status status (client.lossy bytes) fits,
        ))
  ]

  outcome_of-Reports :
      (got : Result Response String)
      → ((response : Response) → got ≡ ok response → response.status ≤ 65535)
      → Reports got (outcome_of client got)
  unfolding outcome_of
  outcome_of-Reports (err e) fits = inl (tt, http_status_of-send e)
  outcome_of-Reports (ok response) fits =
      answer_of-Reports response.status response.bytes (fits response refl)

  -- Where the client's statuses are 16-bit numbers, an answer of the transport is the body of a
  -- response with a status from 200 to 299. From an error message the pool reads the status of the
  -- response, which is none of these, or 0 where no response or no body arrived.
  pub post_json_with_headers-Reports :
      ((reads : ℕ)
        → (request : Request) → (response : Response) → client.send reads request ≡ ok response
        → response.status ≤ 65535)
      → (reads : ℕ) (url : String) (headers : List (String × String)) (body : Bytes)
      → Reports
          (client.send reads (request_of url headers body))
          (post_json_with_headers client reads url headers body)
  unfolding post_json_with_headers
  post_json_with_headers-Reports fits reads url headers body =
      outcome_of-Reports (client.send reads (request_of url headers body)) (fits reads _)
