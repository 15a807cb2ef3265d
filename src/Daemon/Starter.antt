-- ===== src/Daemon/Starter.antt =====
-- The starter config that `init` of src/main.rs prints, as `serve` loads it.
use Prim.Native.Char.{code}
use Prim.Native.String.{◌++◌ as str_append}
use text.Mathlib.TextLemmas.{cons-append, nil-append}
use drm3_rpc_pool.Prelude.{
  ℕ, ◌≡◌, refl, ◌∙◌, String, Bool, true, ◌&&◌, ◌||◌, Bool-cases, not, List, [], ◌∷◌, map, none,
  some, Result, ok, leb, ◌==◌, bind-eq-ok, map_err-eq-ok, Option-cases, inl, inr, All, arith,
}
use drm3_rpc_pool.Error.{to_string}
use drm3_rpc_pool.Config.{RpcEndpoint, RpcPoolConfig, default_config}
use drm3_rpc_pool.Config.Env.{Process, split_open}
use drm3_rpc_pool.Config.Validate.{validate}
use drm3_rpc_pool.Config.Validate.Distinct.{validate-map}
use drm3_rpc_pool.Config.Toml.{from_toml_file, to_toml_string}
use drm3_rpc_pool.Config.Toml.RoundTrip.{IsPlainEndpoint, from_toml_file-plain}
use drm3_rpc_pool.Presets.{endpoints_for, peers_for, at_front}
use drm3_rpc_pool.Presets.Validity.{endpoints_for-some}
use drm3_rpc_pool.Daemon.{at_one, starter_comments, commented, starter_config, init}

-- What may stand in a TOML comment: no control character but the tab.
abbrev pub is_comment_char : ℕ → Bool
is_comment_char c = c == 9 || (leb 32 c && not (c == 127))

unfoldable pub is_comment : String → Bool
is_comment String.[] = true
is_comment (String.◌∷◌ c s) = is_comment_char (code c) && is_comment s

is_comment-append :
    (s t : String) → is_comment s ≡ true → is_comment t ≡ true → is_comment (str_append s t) ≡ true
unfolding is_comment
is_comment-append String.[] t h k = rw (nil-append t) k
is_comment-append (String.◌∷◌ c s) t h k =
    rw (cons-append c s t) (elim (Bool-cases (is_comment_char (code c))) [
      | inl fine ↦ rw (fine, is_comment-append s t (rw fine at h) k) refl
      | inr bad ↦ absurd (ground (arith, (rw bad at h)))
    ])

is_comment-around :
    (before after chain : String)
    → is_comment before ≡ true
    → is_comment after ≡ true
    → is_comment chain ≡ true
    → is_comment (str_append before (str_append chain after)) ≡ true
is_comment-around before after chain b a h =
    is_comment-append before _ b (is_comment-append chain after h a)

starter_comments-are_comments :
    (chain : String)
    → is_comment chain ≡ true
    → All (λ line. is_comment line ≡ true) (starter_comments chain)
unfolding starter_comments is_comment
starter_comments-are_comments chain h = (
  is_comment-around " drm3-rpc-pool starter config for `" "`." chain refl refl h,
  (
    refl,
    (
      refl,
      (
        refl,
        (
          refl,
          (
            refl,
            (
              refl,
              (
                refl,
                (
                  refl,
                  (
                    refl,
                    (
                      refl,
                      (
                        is_comment-around "   url = \"https://"
                            "-mainnet.g.alchemy.com/v2/${ALCHEMY_KEY}\"" chain refl refl h,
                        (refl, (refl, (refl, (refl, tt)))),
                      ),
                    ),
                  ),
                ),
              ),
            ),
          ),
        ),
      ),
    ),
  ),
)

-- What the TOML reader does with comments and empty lines.
pub record SkipsComments (parse : String → Result RpcPoolConfig String) : Type 0 where
  pub comments :
      (line rest : String) (cfg : RpcPoolConfig)
      → is_comment line ≡ true
      → parse rest ≡ ok cfg
      → parse (str_append "#" (str_append line (str_append "\n" rest))) ≡ ok cfg
  pub blank :
      (rest : String) (cfg : RpcPoolConfig)
      → parse rest ≡ ok cfg
      → parse (str_append "\n" rest) ≡ ok cfg

parse-commented :
    (parse : String → Result RpcPoolConfig String) (skips : SkipsComments parse)
    (lines : List String) (rest : String) (cfg : RpcPoolConfig)
    → All (λ line. is_comment line ≡ true) lines
    → parse rest ≡ ok cfg
    → parse (commented lines rest) ≡ ok cfg
unfolding commented
parse-commented parse skips [] rest cfg all h = h
parse-commented parse skips (line ∷ lines) rest cfg all h =
    skips.comments line _ cfg all.0 (parse-commented parse skips lines rest cfg all.1 h)

abbrev pub starter : List RpcEndpoint → RpcPoolConfig
starter es = record default_config { endpoints = map at_one (map at_front es) }

starter-plain :
    (es : List RpcEndpoint)
    → All IsPlainEndpoint es
    → All IsPlainEndpoint (map at_one (map at_front es))
unfolding at_one at_front
starter-plain [] all = tt
starter-plain (e ∷ es) all = (all.0, starter-plain es all.1)

starter-valid :
    (chain : String) (es : List RpcEndpoint)
    → endpoints_for chain ≡ some es
    → validate (starter es) ≡ ok tt
unfolding at_one at_front
starter-valid chain es found =
    let preset = endpoints_for-some chain es found in
    validate-map at_one (λ e. refl) default_config (map at_front es)
    ∙ validate-map at_front (λ e. refl) default_config es
    ∙ preset.0

default_plain : split_open default_config.listen ≡ none
unfolding split_open
default_plain = refl

module _ (process : Process) (parse : String → Result RpcPoolConfig String)
    (write : RpcPoolConfig → Result String String) where
  init-found :
      (chain printed : String)
      → init process write chain ≡ ok printed
      → (es : List RpcEndpoint) × (body : String) × (endpoints_for chain ≡ some es)
        × (to_toml_string write (starter es) ≡ ok body)
        × (commented (starter_comments chain) (str_append "\n" body) ≡ printed)
  unfolding init starter_config peers_for
  init-found chain printed h = elim (Option-cases (endpoints_for chain)) [
    | inl unknown ↦ absurd (ground (arith, (rw (init, peers_for, unknown) at h)))
    | inr (es, found) ↦
        let (body, wrote, is) =
          bind-eq-ok to_string (λ body. commented (starter_comments chain) (str_append "\n" body))
            (to_toml_string write (starter es)) printed (rw (init, peers_for, found) at h) in
        (es, body, found, wrote, is)
  ]

  -- Where the TOML reader skips comments and reads what the writer wrote of the starter config, and
  -- the chain's name has no control character: the file that `init` printed is loaded as the chain's
  -- list, every endpoint at priority 1, in every environment.
  pub init-from_toml_file :
      SkipsComments parse
      → (read : String → Result String String) (chain path printed : String)
      → ((es : List RpcEndpoint) (written : String)
          → endpoints_for chain ≡ some es
          → write (starter es) ≡ ok written
          → parse written ≡ ok (starter es))
      → is_comment chain ≡ true
      → init process write chain ≡ ok printed
      → read path ≡ ok printed
      → (es : List RpcEndpoint) × (endpoints_for chain ≡ some es)
        × (from_toml_file process parse read path ≡ ok (starter es))
  unfolding to_toml_string
  init-from_toml_file skips read chain path printed reads_back plain_name made stored =
      let (es, body, found, wrote, is) = init-found chain printed made in
      let written = map_err-eq-ok _ (write (starter es)) body wrote in
      let whole =
        parse-commented parse skips (starter_comments chain) _ (starter es)
          (starter_comments-are_comments chain plain_name)
          (skips.blank body (starter es) (reads_back es body found written)) in
      (
        es,
        found,
        from_toml_file-plain process parse read (starter es) path printed stored (rw is at whole)
            (default_plain, starter-plain es (endpoints_for-some chain es found).3)
            (starter-valid chain es found),
      )
