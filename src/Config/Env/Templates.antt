-- ===== src/Config/Env/Templates.antt =====
-- `expand_env` of src/config.rs against the templates that a text is made of.
use Prim.Native.Char.{char}
use Prim.Native.String.{◌++◌ as str_append}
use text.Mathlib.TextLemmas.{append_assoc, cons-append, nil-append}
use drm3_rpc_pool.Prelude.{
  ℕ, zero, suc, ◌+◌, ◌≤◌, ◌<◌, ◌≡◌, refl, ap, ◌∙◌, inl, inr, String, none, some, Result, ok, err,
  map_ok, Option-cases, arith,
}
use drm3_rpc_pool.Error.{RpcError}
use drm3_rpc_pool.Config.Env.{
  Process, chars, opens, drop_first, split_open, split_close, unterminated, unset, expand_loop,
  expand_env,
}

-- The text after `${`, and after `}`, with those characters in front.
abbrev pub opened : String → String
opened rest = String.◌∷◌ (char b'$' tt) (String.◌∷◌ (char b'{' tt) rest)

abbrev pub closed : String → String
closed rest = String.◌∷◌ (char b'}' tt) rest

pub opens-append : (s rest : String) → opens (str_append s (opened rest)) ≡ opens s
unfolding opens
opens-append String.[] rest = rw (nil-append (opened rest)) refl
opens-append (String.◌∷◌ c s) rest = rw (cons-append c s (opened rest)) refl

split_open-opened :
    (before rest : String)
    → split_open before ≡ none
    → split_open (str_append before (opened rest)) ≡ some (before, rest)
unfolding split_open drop_first
split_open-opened String.[] rest h = rw (nil-append (opened rest)) refl
split_open-opened (String.◌∷◌ c s) rest h =
    rw (cons-append c s (opened rest), opens-append s rest)
      (ground (arith, h, split_open-opened s rest))

split_close-closed :
    (name rest : String)
    → split_close name ≡ none
    → split_close (str_append name (closed rest)) ≡ some (name, rest)
unfolding split_close
split_close-closed String.[] rest h = rw (nil-append (closed rest)) refl
split_close-closed (String.◌∷◌ c s) rest h =
    rw (cons-append c s (closed rest)) (ground (arith, h, split_close-closed s rest))

-- A text as a template: placeholders, each after the text before it, and an end, which is plain or
-- opens a placeholder that is never closed.
pub data Template : Type 0 where
  plain : String → Template
  open_end : String → String → Template
  placeholder : String → String → Template → Template

abbrev pub render : Template → String
render (plain text) = text
render (open_end before after) = str_append before (opened after)
render (placeholder before name rest) =
    str_append before (opened (str_append name (closed (render rest))))

-- The parts of a template stand for themselves: no text opens a placeholder, and no name closes one.
abbrev pub IsParsed : Template → Type 0
IsParsed (plain text) = split_open text ≡ none
IsParsed (open_end before after) = (split_open before ≡ none) × (split_close after ≡ none)
IsParsed (placeholder before name rest) =
    (split_open before ≡ none) × (split_close name ≡ none) × IsParsed rest

abbrev pub placeholders : Template → ℕ
placeholders (plain text) = 0
placeholders (open_end before after) = 0
placeholders (placeholder before name rest) = suc (placeholders rest)

pub chars-append : (s t : String) → chars (str_append s t) ≡ chars s + chars t
chars-append String.[] t = rw (nil-append t) (omega arith)
chars-append (String.◌∷◌ c s) t = rw (cons-append c s t) (omega (arith, chars-append s t))

placeholders-le : (t : Template) → placeholders t ≤ chars (render t)
placeholders-le (plain text) = omega arith
placeholders-le (open_end before after) = omega arith
placeholders-le (placeholder before name rest) = omega (
  arith,
  placeholders-le rest,
  chars-append before (opened (str_append name (closed (render rest)))),
  chars-append name (closed (render rest)),
)

module _ (process : Process) where
  -- The template with the variables' values: the first error in reading order, if there is one.
  abbrev pub fill : String → Template → Result String RpcError
  fill input (plain text) = ok text
  fill input (open_end before after) = err (unterminated process input)
  fill input (placeholder before name rest) = elim (process.var name) [
    | none ↦ err (unset process name)
    | some value ↦ map_ok (λ text. str_append before (str_append value text)) (fill input rest)
  ]

  map_ok-append :
      (out before value : String) (r : Result String RpcError)
      → map_ok (str_append (str_append (str_append out before) value)) r
        ≡ map_ok (str_append out) (map_ok (λ text. str_append before (str_append value text)) r)
  map_ok-append out before value (ok text) = ap ok (
      append_assoc (str_append out before) value text
      ∙ append_assoc out before (str_append value text))
  map_ok-append out before value (err e) = refl

  map_ok-nil : (r : Result String RpcError) → map_ok (str_append "") r ≡ r
  map_ok-nil (ok text) = ap ok (nil-append text)
  map_ok-nil (err e) = refl

  expand_loop-render :
      (fuel : ℕ) (input out : String) (t : Template)
      → IsParsed t
      → placeholders t < fuel
      → expand_loop process fuel input out (render t) ≡ map_ok (str_append out) (fill input t)
  unfolding expand_loop
  expand_loop-render zero input out t parsed h = absurd (omega (arith, h))
  expand_loop-render (suc fuel) input out (plain text) parsed h = rw (parsed, expand_loop) refl
  expand_loop-render (suc fuel) input out (open_end before after) (a, b) h =
      rw (split_open-opened before after a, b, expand_loop) refl
  expand_loop-render (suc fuel) input out (placeholder before name rest) (a, b, parsed) h =
      rw
        (
          split_open-opened before (str_append name (closed (render rest))) a,
          split_close-closed name (render rest) b,
          expand_loop,
        )
        (elim (Option-cases (process.var name)) [
          | inl missing ↦ rw (missing, fill) refl
          | inr (value, is) ↦
              rw (is, fill)
                (expand_loop-render fuel input (str_append (str_append out before) value) rest
                    parsed (omega (arith, h))
                  ∙ map_ok-append out before value (fill input rest))
        ])

  -- `expand_env` of any template is the template filled in: each placeholder becomes the value of its
  -- variable, and the first variable that is unset, or the placeholder that is not closed, is the error.
  pub expand_env-render :
      (t : Template) → IsParsed t → expand_env process (render t) ≡ fill (render t) t
  unfolding expand_env
  expand_env-render t parsed =
      expand_loop-render (suc (chars (render t))) (render t) "" t parsed
        (omega (arith, placeholders-le t))
      ∙ map_ok-nil (fill (render t) t)
