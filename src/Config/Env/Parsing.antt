-- ===== src/Config/Env/Parsing.antt =====
-- Every text that `expand_env` of src/config.rs is given is a template.
use Prim.Native.Char.{char, code}
use Prim.Native.String.{◌++◌ as str_append}
use text.Mathlib.TextLemmas.{cons-append, nil-append}
use text.Mathlib.TextEquality.{Char-path}
use drm3_rpc_pool.Prelude.{
  ℕ, zero, suc, ◌≤◌, ◌≡◌, refl, sym, ap, ◌∙◌, inl, inr, String, true, ◌&&◌, none, some,
  some-eq-some, ◌==◌, Bool-cases, Option-cases, arith,
}
use drm3_rpc_pool.Config.Env.{
  Process, chars, opens, drop_first, split_open, split_close, expand_env,
}
use drm3_rpc_pool.Config.Env.Templates.{
  opened, closed, opens-append, chars-append, Template, plain, open_end, placeholder, render,
  IsParsed, fill, expand_env-render,
}

opens-brace : (s : String) → opens s ≡ true → s ≡ String.◌∷◌ (char b'{' tt) (drop_first s)
unfolding opens drop_first
opens-brace String.[] h = ground arith
opens-brace (String.◌∷◌ c s) h =
    ap (λ d. String.◌∷◌ d s) (Char-path c (char b'{' tt) (ground (arith, h)))

split_open-some :
    (text before after : String)
    → split_open text ≡ some (before, after)
    → (text ≡ str_append before (opened after)) × (split_open before ≡ none)
unfolding split_open
split_open-some String.[] before after e = ground arith
split_open-some (String.◌∷◌ c s) before after e = elim (Bool-cases (code c == b'$' && opens s)) [
  | inl h ↦
      let is : ◌≡◌ {A = String × String} ("", drop_first s) (before, after) =
        some-eq-some (rw h at e) in
      let first : before ≡ "" = sym (ap (λ (p : String × String). p.0) is) in
      let second : after ≡ drop_first s = sym (ap (λ (p : String × String). p.1) is) in
      let brace = opens-brace s (ground (arith, h)) in
      let dollar = Char-path c (char b'$' tt) (ground (arith, h)) in
      rw (first, second)
        (
          ap (λ d. String.◌∷◌ d s) dollar
              ∙ ap (String.◌∷◌ (char b'$' tt)) brace
              ∙ sym (nil-append (opened (drop_first s))),
          refl,
        )
  | inr h ↦ elim (Option-cases (split_open s)) [
    | inl nothing ↦ absurd (ground (arith, e, h, nothing))
    | inr ((a, b), found) ↦
        let is : ◌≡◌ {A = String × String} (String.◌∷◌ c a, b) (before, after) =
          some-eq-some (rw (h, found) at e) in
        let first : before ≡ String.◌∷◌ c a = sym (ap (λ (p : String × String). p.0) is) in
        let second : after ≡ b = sym (ap (λ (p : String × String). p.1) is) in
        let (joined, none_in) = split_open-some s a b found in
        let same : opens s ≡ opens a = ap opens joined ∙ opens-append a b in
        rw (first, second)
          (
            ap (String.◌∷◌ c) joined ∙ sym (cons-append c a (opened b)),
            ground (arith, none_in, rw same at h),
          )
  ]
]

split_close-some :
    (text name rest : String)
    → split_close text ≡ some (name, rest)
    → (text ≡ str_append name (closed rest)) × (split_close name ≡ none)
unfolding split_close
split_close-some String.[] name rest e = ground arith
split_close-some (String.◌∷◌ c s) name rest e = elim (Bool-cases (code c == b'}')) [
  | inl h ↦
      let is : ◌≡◌ {A = String × String} ("", s) (name, rest) = some-eq-some (rw h at e) in
      let first : name ≡ "" = sym (ap (λ (p : String × String). p.0) is) in
      let second : rest ≡ s = sym (ap (λ (p : String × String). p.1) is) in
      let brace = Char-path c (char b'}' tt) (ground (arith, h)) in
      rw (first, second) (ap (λ d. String.◌∷◌ d s) brace ∙ sym (nil-append (closed s)), refl)
  | inr h ↦ elim (Option-cases (split_close s)) [
    | inl nothing ↦ absurd (ground (arith, e, h, nothing))
    | inr ((a, b), found) ↦
        let is : ◌≡◌ {A = String × String} (String.◌∷◌ c a, b) (name, rest) =
          some-eq-some (rw (h, found) at e) in
        let first : name ≡ String.◌∷◌ c a = sym (ap (λ (p : String × String). p.0) is) in
        let second : rest ≡ b = sym (ap (λ (p : String × String). p.1) is) in
        let (joined, none_in) = split_close-some s a b found in
        rw (first, second)
          (ap (String.◌∷◌ c) joined ∙ sym (cons-append c a (closed b)), ground (arith, none_in, h))
  ]
]

-- The template of a text with at most so many characters.
template_of :
    (fuel : ℕ) (text : String) → chars text ≤ fuel → (t : Template) × (render t ≡ text) × IsParsed t
template_of zero text h = elim (Option-cases (split_open text)) [
  | inl no_more ↦ (plain text, refl, no_more)
  | inr ((before, after), found) ↦
      let (joined, parsed) = split_open-some text before after found in
      absurd (omega (arith, h, ap chars joined, chars-append before (opened after)))
]
template_of (suc fuel) text h = elim (Option-cases (split_open text)) [
  | inl no_more ↦ (plain text, refl, no_more)
  | inr ((before, after), found) ↦
      let (joined, parsed) = split_open-some text before after found in
      elim (Option-cases (split_close after)) [
        | inl unclosed ↦ (open_end before after, sym joined, (parsed, unclosed))
        | inr ((name, rest), found') ↦
            let (joined', parsed') = split_close-some after name rest found' in
            let (t, is, valid) = template_of fuel rest (
              omega (
                arith,
                h,
                ap chars joined,
                chars-append before (opened after),
                ap chars joined',
                chars-append name (closed rest),
              )) in
            (
              placeholder before name t,
              ap (λ r. str_append before (opened (str_append name (closed r)))) is
                  ∙ ap (λ a. str_append before (opened a)) (sym joined')
                  ∙ sym joined,
              (parsed, parsed', valid),
            )
      ]
]

-- Every text is a template, with its placeholders and perhaps an end that opens one and does not close
-- it; and `expand_env` of the text is that template filled in: each placeholder becomes the value of
-- its variable, and the first variable that is unset, or the placeholder that is not closed, is the
-- error.
pub expand_env-fill :
    (process : Process) (text : String)
    → (t : Template) × (render t ≡ text)
      × IsParsed t
      × (expand_env process text ≡ fill process text t)
expand_env-fill process text =
    let (t, is, parsed) = template_of (chars text) text (omega arith) in
    (t, is, parsed, rw is at (expand_env-render process t parsed))
